-- ===== src/Accounting/Recorder/Runs.antt =====
-- Records on their way through the queue.
use cc_gateway.Base.{
  ℕ, suc, ◌≤◌, ◌≡◌, refl, sym, subst, ltb, length, length-append, append_assoc, append-nil, Bool,
  true, false, List, [], ◌∷◌, ◌++◌, Option, none, some, if◌then◌else◌, arith,
}
use cc_gateway.Accounting.Recorder.{
  RequestRecord, Recorder, capacity, new, record_in, take_next, close,
}

-- A request hands over its record, the loop takes the next one, or the recorder is closed.
pub data Event : Type 0 where
  records : RequestRecord → Event
  takes closes : Event

-- The recorder, and what the loop has taken so far, in order.
abbrev pub Run : Type 0
Run = Recorder × List RequestRecord

abbrev recorded : List RequestRecord → Option Recorder → Option Run
recorded taken none = none
recorded taken (some r) = some (r, taken)

abbrev took : Run → Option (RequestRecord × Recorder) → Run
took run none = run
took (r, taken) (some (rec, r')) = (r', taken ++ rec ∷ [])

unfoldable pub step : Event → Run → Option Run
step (records rec) (r, taken) = recorded taken (record_in rec r)
step takes (r, taken) = some (took (r, taken) (take_next r))
step closes (r, taken) = some (close r, taken)

abbrev pub then_run : (Run → Option Run) → Option Run → Option Run
then_run f none = none
then_run f (some run) = f run

-- `none` once a request has panicked.
unfoldable pub steps : List Event → Run → Option Run
steps [] run = some run
steps (e ∷ es) run = then_run (steps es) (step e run)

abbrev pub handed_over : List Event → List RequestRecord
handed_over [] = []
handed_over (records rec ∷ es) = rec ∷ handed_over es
handed_over (takes ∷ es) = handed_over es
handed_over (closes ∷ es) = handed_over es

-- Some of the records of a list, in its order, and how many are left out.
pub data OutOf : List RequestRecord → List RequestRecord → ℕ → Type 0 where
  nothing : OutOf [] [] 0
  keeps :
      (rec : RequestRecord) {xs ys : List RequestRecord} {n : ℕ}
      → OutOf xs ys n
      → OutOf (rec ∷ xs) (rec ∷ ys) n
  leaves_out :
      (rec : RequestRecord) {xs ys : List RequestRecord} {n : ℕ}
      → OutOf xs ys n
      → OutOf xs (rec ∷ ys) (suc n)

kept_last :
    (rec : RequestRecord) (xs ys : List RequestRecord) (n : ℕ)
    → OutOf xs ys n
    → OutOf (xs ++ rec ∷ []) (ys ++ rec ∷ []) n
kept_last rec _ _ _ nothing = keeps rec nothing
kept_last rec _ _ _ (keeps r {xs} {ys} {n} o) = keeps r (kept_last rec xs ys n o)
kept_last rec _ _ _ (leaves_out r {xs} {ys} {n} o) = leaves_out r (kept_last rec xs ys n o)

dropped_last :
    (rec : RequestRecord) (xs ys : List RequestRecord) (n : ℕ)
    → OutOf xs ys n
    → OutOf xs (ys ++ rec ∷ []) (suc n)
dropped_last rec _ _ _ nothing = leaves_out rec nothing
dropped_last rec _ _ _ (keeps r {xs} {ys} {n} o) = keeps r (dropped_last rec xs ys n o)
dropped_last rec _ _ _ (leaves_out r {xs} {ys} {n} o) = leaves_out r (dropped_last rec xs ys n o)

-- The records that were taken or wait in the queue are those handed over less those dropped, in order.
pub record IsConserving (ys : List RequestRecord) (run : Run) : Type 0 where
  pub conserved : OutOf (run.1 ++ run.0.queue) ys run.0.dropped
  pub bounded : length run.0.queue ≤ capacity

abbrev Conserving : List RequestRecord → Option Run → Type 0
Conserving ys none = Unit {0}
Conserving ys (some run) = IsConserving ys run

step_records :
    (rec : RequestRecord) (ys : List RequestRecord) (r : Recorder) (taken : List RequestRecord)
    → IsConserving ys (r, taken)
    → Conserving (ys ++ rec ∷ []) (step (records rec) (r, taken))
unfolding step record_in
step_records rec ys r taken c = choose r.closed (ltb (length r.queue) capacity) refl
  where
    choose :
        (a b : Bool)
        → ltb (length r.queue) capacity ≡ b
        → Conserving (ys ++ rec ∷ []) (
            recorded taken (
              if a
              then none
              else if b
              then some (record r { queue = r.queue ++ rec ∷ [] })
              else some (record r { dropped = suc r.dropped })))
    choose true b e = tt
    choose false true e = record {
      conserved =
          subst (λ (x : List RequestRecord). OutOf x (ys ++ rec ∷ []) r.dropped)
            (append_assoc taken r.queue (rec ∷ []))
            (kept_last rec (taken ++ r.queue) ys r.dropped c.conserved);
      bounded = ground (arith, length-append r.queue (rec ∷ []));
    }
    choose false false e = record {
      conserved = dropped_last rec (taken ++ r.queue) ys r.dropped c.conserved;
      bounded = c.bounded;
    }

step_takes :
    (ys : List RequestRecord) (r : Recorder) (taken : List RequestRecord)
    → IsConserving ys (r, taken)
    → IsConserving ys (took (r, taken) (take_next r))
unfolding take_next
step_takes ys r taken c = by_queue r.queue c.conserved c.bounded
  where
    by_queue :
        (q : List RequestRecord)
        → OutOf (taken ++ q) ys r.dropped
        → length q ≤ capacity
        → IsConserving ys (
            took
              (r, taken)
              (elim q as (λ x. Option (RequestRecord × Recorder)) [
                | [] ↦ none
                | rec ∷ rest ↦ some (rec, record r { queue = rest })
              ]))
    by_queue [] o l = c
    by_queue (rec ∷ rest) o l = record {
      conserved =
          subst (λ (x : List RequestRecord). OutOf x ys r.dropped)
            (sym (append_assoc taken (rec ∷ []) rest)) o;
      bounded = omega arith;
    }

steps-Conserving :
    (es : List Event) (ys : List RequestRecord) (run : Run)
    → IsConserving ys run
    → Conserving (ys ++ handed_over es) (steps es run)
unfolding steps step close
steps-Conserving [] ys run c =
    subst (λ (x : List RequestRecord). IsConserving x run) (sym (append-nil ys)) c
steps-Conserving (records rec ∷ es) ys (r, taken) c =
    subst
      (λ (x : List RequestRecord).
        Conserving x (then_run (steps es) (step (records rec) (r, taken))))
      (append_assoc ys (rec ∷ []) (handed_over es))
      (go_on (step (records rec) (r, taken)) (step_records rec ys r taken c)
        (λ run d. steps-Conserving es (ys ++ rec ∷ []) run d))
  where
    go_on :
        (o : Option Run)
        → Conserving (ys ++ rec ∷ []) o
        → ((run : Run)
            → IsConserving (ys ++ rec ∷ []) run
            → Conserving ((ys ++ rec ∷ []) ++ handed_over es) (steps es run))
        → Conserving ((ys ++ rec ∷ []) ++ handed_over es) (then_run (steps es) o)
    go_on none d next = tt
    go_on (some run) d next = next run d
steps-Conserving (takes ∷ es) ys (r, taken) c = steps-Conserving es ys _ (step_takes ys r taken c)
steps-Conserving (closes ∷ es) ys (r, taken) c =
    steps-Conserving es ys _ (record { conserved = c.conserved; bounded = c.bounded })

-- Whatever the order in which requests hand over their records, the loop takes them and the recorder is
-- closed: as long as no request has panicked, the records that the loop has taken and those that wait
-- are, in this order, the records handed over, but for as many as the metric counts as dropped; and
-- never more than 1000 wait.
pub steps-IsConserving :
    (es : List Event) (run : Run)
    → steps es (new, []) ≡ some run
    → IsConserving (handed_over es) run
unfolding new
steps-IsConserving es run e =
    subst (Conserving (handed_over es)) e
      (steps-Conserving es [] (new, []) (record { conserved = nothing; bounded = omega arith }))
