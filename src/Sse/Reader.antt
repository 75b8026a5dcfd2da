-- ===== src/Sse/Reader.antt =====
-- pkg/sse/reader.go: the reader of events. A text is a list of code points. The bufio.Scanner is
-- the list of the lines that it still has, and whether it ends with an error, as it does at a line
-- of a mebibyte or more, which its buffer does not hold with a line feed. Next returns the rest of the
-- lines with what it read.
pub mod RoundTrip
mod Tests
use cc_gateway.Base.{
  ℕ, ◌+◌, ◌*◌, ◌==◌, leb, ltb, Bool, true, false, not, ◌&&◌, ◌||◌, List, [], ◌∷◌, ◌++◌, drop,
  if◌then◌else◌,
}
use cc_gateway.Domain.Glob.{codes}

pub data Read : Type 0 where
  event : List ℕ → List ℕ → Read
  end_of_file failed : Read

-- unicode.IsSpace
abbrev pub is_space : ℕ → Bool
is_space c =
    leb 9 c && leb c 13
    || c == 32
    || c == 133
    || c == 160
    || c == 5760
    || leb 8192 c && leb c 8202
    || c == 8232
    || c == 8233
    || c == 8239
    || c == 8287
    || c == 12288

abbrev pub is_nil {ℓ} : {A : Type ℓ} → List A → Bool
is_nil [] = true
is_nil (x ∷ xs) = false

unfoldable pub trim_left : List ℕ → List ℕ
trim_left [] = []
trim_left (c ∷ cs) = let rest = trim_left cs in if is_space c then rest else c ∷ cs

unfoldable pub trim_right : List ℕ → List ℕ
trim_right [] = []
trim_right (c ∷ cs) = let rest = trim_right cs in if is_nil rest && is_space c then [] else c ∷ rest

-- strings.TrimSpace
unfoldable pub trim_space : List ℕ → List ℕ
trim_space cs = trim_right (trim_left cs)

unfoldable pub has_prefix : List ℕ → List ℕ → Bool
has_prefix [] cs = true
has_prefix (p ∷ ps) [] = false
has_prefix (p ∷ ps) (c ∷ cs) = p == c && has_prefix ps cs

-- strings.Join with a line feed
unfoldable pub join : List (List ℕ) → List ℕ
join [] = []
join (l ∷ []) = l
join (l ∷ m ∷ ls) = l ++ 10 ∷ join (m ∷ ls)

-- The type and the lines of data behind one more line.
unfoldable pub type_after : List ℕ → List ℕ → List ℕ
type_after event_type line =
    if has_prefix (codes "event:") line then trim_space (drop 6 line) else event_type

unfoldable pub lines_after : List (List ℕ) → List ℕ → List (List ℕ)
lines_after seen line =
    if has_prefix (codes "data:") line then seen ++ trim_space (drop 5 line) ∷ [] else seen

abbrev at_end : Bool → List ℕ → List (List ℕ) → Read
at_end true event_type seen = failed
at_end false event_type [] = end_of_file
at_end false event_type (l ∷ ls) = event event_type (join (l ∷ ls))

-- The loop of Next. A comment line begins with a colon and changes nothing, as do other lines.
unfoldable pub next : Bool → List ℕ → List (List ℕ) → List (List ℕ) → List (List ℕ) × Read
next broken event_type seen [] = ([], at_end broken event_type seen)
next broken event_type seen (line ∷ rest) =
    let later = next broken (type_after event_type line) (lines_after seen line) rest in
    if is_nil line && not (is_nil seen) then (rest, event event_type (join seen)) else later

abbrev cons_first : ℕ → List (List ℕ) → List (List ℕ)
cons_first c [] = (c ∷ []) ∷ []
cons_first c (l ∷ ls) = (c ∷ l) ∷ ls

unfoldable pub split_lines : List ℕ → List (List ℕ)
split_lines [] = []
split_lines (c ∷ cs) = let rest = split_lines cs in if c == 10 then [] ∷ rest else cons_first c rest

unfoldable pub drop_return : List ℕ → List ℕ
drop_return [] = []
drop_return (c ∷ []) = if c == 13 then [] else c ∷ []
drop_return (c ∷ d ∷ cs) = c ∷ drop_return (d ∷ cs)

-- The bytes of a code point and of a text in UTF-8.
abbrev pub width : ℕ → ℕ
width c = if ltb c 128 then 1 else if ltb c 2048 then 2 else if ltb c 65536 then 3 else 4

unfoldable pub bytes : List ℕ → ℕ
bytes [] = 0
bytes (c ∷ cs) = width c + bytes cs

-- The size of the buffer that NewReader sets: a line and its line feed must fit in it.
unfoldable pub max_token : ℕ
max_token = 1024 * 1024

-- The lines that the scanner gives, with bufio.ScanLines, and whether it then fails, as it does at the
-- first line that is too long.
unfoldable pub scan_tokens : List (List ℕ) → List (List ℕ) × Bool
scan_tokens [] = ([], false)
scan_tokens (l ∷ ls) =
    let rest = scan_tokens ls in
    if ltb (bytes l) max_token then (drop_return l ∷ rest.0, rest.1) else ([], true)

unfoldable pub scan_lines : List ℕ → List (List ℕ) × Bool
scan_lines cs = scan_tokens (split_lines cs)
