-- ===== src/Gemini/Stream/Tools.antt =====
-- The indices of the tool blocks of a converter.
use cc_gateway.Base.{
  ℕ, ◌≡◌, refl, ◌∙◌, String, true, false, List, [], ◌∷◌, ◌++◌, none, some, eq_iff, Map, lookup,
  insert, arith, ◌==◌, ◌||◌,
}
use cc_gateway.Anthropic.Client.{has}
use cc_gateway.Anthropic.Indices.{AreDistinct}
use cc_gateway.Gemini.Stream.{ToolState, open_tools, insert_ascending, sort_ascending, shut}

abbrev pub tool_indices : Map ToolState → List ℕ
tool_indices [] = []
tool_indices ((k, s) ∷ m) = s.index ∷ tool_indices m

abbrev pub AllOpen : Map ToolState → Type 0
AllOpen [] = Unit {0}
AllOpen ((k, s) ∷ m) = (s.is_open ≡ true) × AllOpen m

pub open_tools-AllOpen : (m : Map ToolState) → AllOpen m → open_tools m ≡ tool_indices m
unfolding open_tools
open_tools-AllOpen [] a = refl
open_tools-AllOpen ((k, s) ∷ m) a = ground (arith, open_tools-AllOpen m a.1, a.0)

pub insert-AllOpen :
    (k : String) (s : ToolState) (m : Map ToolState)
    → s.is_open ≡ true
    → AllOpen m
    → AllOpen (insert k s m)
unfolding insert
insert-AllOpen k s [] o a = (o, tt)
insert-AllOpen k s ((j, t) ∷ m) o a = ground (arith, insert-AllOpen k s m o a.1)

pub lookup-AllOpen :
    (k : String) (s : ToolState) (m : Map ToolState)
    → AllOpen m
    → lookup k m ≡ some s
    → s.is_open ≡ true
unfolding lookup
lookup-AllOpen k s [] a e = cc
lookup-AllOpen k s ((j, t) ∷ m) a e = ground (arith, lookup-AllOpen k s m a.1)

-- A new key takes its index at the end, and an old one keeps its place.
pub tool_indices-new :
    (k : String) (s : ToolState) (m : Map ToolState)
    → lookup k m ≡ none
    → tool_indices (insert k s m) ≡ tool_indices m ++ s.index ∷ []
unfolding insert lookup
tool_indices-new k s [] e = refl
tool_indices-new k s ((j, t) ∷ m) e = ground (arith, tool_indices-new k s m)

pub tool_indices-old :
    (k : String) (s t : ToolState) (m : Map ToolState)
    → lookup k m ≡ some t
    → s.index ≡ t.index
    → tool_indices (insert k s m) ≡ tool_indices m
unfolding insert lookup
tool_indices-old k s t [] e q = absurd (cc)
tool_indices-old k s t ((j, u) ∷ m) e q = ground (arith, tool_indices-old k s t m)

pub insert-insert :
    (k : String) (s t : ToolState) (m : Map ToolState) → insert k s (insert k t m) ≡ insert k s m
unfolding insert
insert-insert k s t [] = ground (arith, eq_iff k k)
insert-insert k s t ((j, u) ∷ m) = ground (arith, eq_iff k k, insert-insert k s t m)

pub lookup-has :
    (k : String) (s : ToolState) (m : Map ToolState)
    → lookup k m ≡ some s
    → has s.index (tool_indices m) ≡ true
unfolding lookup has
lookup-has k s [] e = cc
lookup-has k s ((j, t) ∷ m) e = ground (arith, lookup-has k s m)

has-insert_ascending :
    (i j : ℕ) (is : List ℕ) → has i (insert_ascending j is) ≡ (j == i || has i is)
unfolding insert_ascending has
has-insert_ascending i j [] = ground arith
has-insert_ascending i j (k ∷ is) = ground (arith, has-insert_ascending i j is)

pub has-sort_ascending : (i : ℕ) (is : List ℕ) → has i (sort_ascending is) ≡ has i is
unfolding sort_ascending has
has-sort_ascending i [] = refl
has-sort_ascending i (j ∷ is) =
    ground (arith, has-insert_ascending i j (sort_ascending is), has-sort_ascending i is)

insert_ascending-AreDistinct :
    (j : ℕ) (is : List ℕ) → has j is ≡ false → AreDistinct is → AreDistinct (insert_ascending j is)
unfolding insert_ascending has
insert_ascending-AreDistinct j [] h d = (refl, tt)
insert_ascending-AreDistinct j (k ∷ is) h d =
    ground (arith, has-insert_ascending k j is, insert_ascending-AreDistinct j is)

pub sort_ascending-AreDistinct : (is : List ℕ) → AreDistinct is → AreDistinct (sort_ascending is)
unfolding sort_ascending
sort_ascending-AreDistinct [] d = tt
sort_ascending-AreDistinct (j ∷ is) d =
    insert_ascending-AreDistinct j (sort_ascending is) (has-sort_ascending j is ∙ d.0)
      (sort_ascending-AreDistinct is d.1)

-- After shut no tool block is open.
pub open_tools-shut : (m : Map ToolState) → open_tools (shut m) ≡ []
unfolding open_tools shut
open_tools-shut [] = refl
open_tools-shut ((k, s) ∷ m) = open_tools-shut m
