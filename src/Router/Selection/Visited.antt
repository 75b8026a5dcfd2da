-- ===== src/Router/Selection/Visited.antt =====
-- The ids that a selection from all accounts tries: every account once.
use mathlib.Core.Path.{ap₂}
use cc_gateway.Base.{
  ℕ, ◌≡◌, refl, sym, ◌∙◌, String, true, false, not, ◌&&◌, ◌||◌, List, [], ◌∷◌, ◌++◌, none, some,
  str_eq, eq_iff, eq_refl, Map, lookup, In, arith, Bool-cases, Option-cases, inl, inr,
}
use cc_gateway.Domain.{Account}
use cc_gateway.Router.{
  Router, member, unseen, ungrouped, group_ids, visited, refused, RouterError,
  select_account_from_all,
}
use cc_gateway.Router.Candidates.{eligible}
use cc_gateway.Router.Selection.{among-nil, refused-among}

-- Every account is stored under its own id, once.
abbrev pub IsKeyed : Map Account → Type 0
IsKeyed [] = Unit {0}
IsKeyed ((k, a) ∷ m) = (a.id ≡ k) × (lookup k m ≡ none) × IsKeyed m

abbrev pub IsDistinct : List String → Type 0
IsDistinct [] = Unit {0}
IsDistinct (x ∷ xs) = (member x xs ≡ false) × IsDistinct xs

member-append :
    (k : String) (xs ys : List String) → member k (xs ++ ys) ≡ (member k xs || member k ys)
unfolding member
member-append k [] ys = refl
member-append k (x ∷ xs) ys = ground (arith, member-append k xs ys)

member-unseen :
    (k : String) (seen ids : List String)
    → member k (unseen seen ids) ≡ (not (member k seen) && member k ids)
unfolding unseen member
member-unseen k seen [] = ground arith
member-unseen k seen (id ∷ ids) =
    ground (arith, eq_iff id k, member-unseen k seen ids, member-unseen k (id ∷ seen) ids)

unseen-IsDistinct : (seen ids : List String) → IsDistinct (unseen seen ids)
unfolding unseen
unseen-IsDistinct seen [] = tt
unseen-IsDistinct seen (id ∷ ids) = elim (Bool-cases (member id seen)) [
  | inl e ↦ rw e (unseen-IsDistinct seen ids)
  | inr e ↦ rw e (
    unfold member in ground (arith, eq_refl id, member-unseen id (id ∷ seen) ids),
    unseen-IsDistinct (id ∷ seen) ids,
  )
]

ungrouped-unseen :
    (k : String) (seen : List String) (m : Map Account)
    → IsKeyed m
    → member k (ungrouped seen m) ≡ true
    → member k seen ≡ false
unfolding ungrouped member
ungrouped-unseen k seen [] w h = cc
ungrouped-unseen k seen ((id, a) ∷ m) w h =
    ground (arith, eq_iff a.id k, ungrouped-unseen k seen m w.2)

ungrouped-known :
    (k : String) (seen : List String) (m : Map Account)
    → IsKeyed m
    → lookup k m ≡ none
    → member k (ungrouped seen m) ≡ false
unfolding ungrouped member lookup
ungrouped-known k seen [] w h = refl
ungrouped-known k seen ((id, a) ∷ m) w h =
    ground (arith, eq_iff id k, eq_iff a.id k, ungrouped-known k seen m w.2)

ungrouped-IsDistinct :
    (seen : List String) (m : Map Account) → IsKeyed m → IsDistinct (ungrouped seen m)
unfolding ungrouped
ungrouped-IsDistinct seen [] w = tt
ungrouped-IsDistinct seen ((id, a) ∷ m) w =
    ground (arith, ungrouped-known a.id seen m w.2, ungrouped-IsDistinct seen m w.2)

ungrouped_complete :
    (k : String) (seen : List String) (m : Map Account) (a : Account)
    → IsKeyed m
    → lookup k m ≡ some a
    → member k seen ≡ false
    → member k (ungrouped seen m) ≡ true
unfolding ungrouped member lookup
ungrouped_complete k seen [] a w h n = cc
ungrouped_complete k seen ((id, b) ∷ m) a w h n =
    ground (arith, eq_iff id k, eq_iff b.id k, ungrouped_complete k seen m a w.2)

append-IsDistinct :
    (xs ys : List String)
    → IsDistinct xs
    → IsDistinct ys
    → ((k : String) → member k xs ≡ true → member k ys ≡ false)
    → IsDistinct (xs ++ ys)
append-IsDistinct [] ys h k apart = k
append-IsDistinct (x ∷ xs) ys h k apart = (
  member-append x xs ys ∙ ap₂ ◌||◌ h.0 (apart x (unfold member in ground (arith, eq_refl x))),
  append-IsDistinct xs ys h.1 k (λ j e. apart j (unfold member in ground arith)),
)

member-In : (k : String) (xs : List String) → member k xs ≡ true → In k xs
unfolding member
member-In k [] h = absurd (cc)
member-In k (x ∷ xs) h = elim (Bool-cases (str_eq x k)) [
  | inl e ↦ inl (sym ((eq_iff x k).0 e))
  | inr e ↦ inr (member-In k xs (ground arith))
]

unseen-ungrouped :
    (k : String) (ids : List String) (m : Map Account)
    → IsKeyed m
    → member k (unseen [] ids) ≡ true
    → member k (ungrouped ids m) ≡ false
unseen-ungrouped k ids m w h = elim (Bool-cases (member k (ungrouped ids m))) [
  | inl e ↦ absurd (ground (arith, member-unseen k [] ids, ungrouped-unseen k ids m w))
  | inr e ↦ e
]

known-visited :
    (k : String) (ids : List String) (m : Map Account) (a : Account)
    → IsKeyed m
    → lookup k m ≡ some a
    → (member k (unseen [] ids) || member k (ungrouped ids m)) ≡ true
known-visited k ids m a w e = elim (Bool-cases (member k ids)) [
  | inl h ↦ unfold member in ground (arith, member-unseen k [] ids)
  | inr h ↦ ground (arith, ungrouped_complete k ids m a w e h)
]

-- A selection from all tries no id twice and leaves out no account, if every account is stored
-- under its own id.
pub visited_once :
    (r : Router)
    → IsKeyed r.accounts
    → IsDistinct (visited r)
      × ((k : String) (a : Account) → lookup k r.accounts ≡ some a → member k (visited r) ≡ true)
unfolding visited
visited_once r w =
    let ids = group_ids r.groups in
    (
      append-IsDistinct (unseen [] ids) (ungrouped ids r.accounts) (unseen-IsDistinct [] ids)
          (ungrouped-IsDistinct ids r.accounts w) (λ k h. unseen-ungrouped k ids r.accounts w h),
      λ k a e.
          member-append k (unseen [] ids) (ungrouped ids r.accounts)
          ∙ known-visited k ids r.accounts a w e,
    )

-- A selection from all refuses only if no account at all is eligible when it begins.
pub select_account_from_all_complete :
    (now : ℕ) (model : String) (excluded : List String) (r : Router) (e : RouterError)
    → IsKeyed r.accounts
    → (select_account_from_all now model excluded r).1 ≡ refused e
    → (id : String) → eligible now model excluded r id ≡ none
select_account_from_all_complete now model excluded r e w h id =
    elim (Option-cases (lookup id r.accounts)) [
      | inl n ↦ ground arith
      | inr (a, k) ↦
          among-nil now model excluded r (visited r) id (refused-among now model excluded r e h)
            (member-In id (visited r) ((visited_once r w).1 id a k))
    ]
