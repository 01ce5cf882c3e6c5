-- ===== src/Base/Words.antt =====
-- Go's `strings.Split` at a byte, `strings.Fields`, and `strconv.ParseInt` to the base ten.
use repo_sync.Base.{
  ℕ, ◌+◌, ◌-◌, ◌*◌, Bool, true, false, ◌&&◌, ◌||◌, Option, none, some, List, [], ◌∷◌, ◌==◌, nat_eq,
  list_eq, leb, if◌then◌else◌, select,
}
use repo_sync.Base.Bytes.{Bytes}

abbrev push_head : ℕ → List Bytes → List Bytes
push_head x [] = (x ∷ []) ∷ []
push_head x (w ∷ ws) = (x ∷ w) ∷ ws

unfoldable pub split_where : (ℕ → Bool) → Bytes → List Bytes
split_where p [] = [] ∷ []
split_where p (x ∷ s) = let rest = split_where p s in if p x then [] ∷ rest else push_head x rest

abbrev is_feed : ℕ → Bool
is_feed x = x == 10

abbrev is_blank : ℕ → Bool
is_blank x = x == 32 || (leb 9 x && leb x 13)

abbrev is_word : Bytes → Bool
is_word [] = false
is_word (x ∷ s) = true

-- `strings.Split(s, "\n")`.
unfoldable pub split_lines : Bytes → List Bytes
unfolding split_where
split_lines s = split_where is_feed s

unfoldable pub fields : Bytes → List Bytes
unfolding split_where
fields s = select is_word (split_where is_blank s)

-- The lines that a reader gets up to each line feed and the end.
abbrev drop_end : List Bytes → List Bytes
drop_end [] = []
drop_end ([] ∷ []) = []
drop_end ((x ∷ s) ∷ []) = (x ∷ s) ∷ []
drop_end (l ∷ m ∷ ls) = l ∷ drop_end (m ∷ ls)

unfoldable pub lines_of : Bytes → List Bytes
unfolding split_lines
lines_of s = drop_end (split_lines s)

abbrev pub max_int64 : ℕ
max_int64 = 9223372036854775807

digits : ℕ → Bytes → Option ℕ
digits n [] = some n
digits n (x ∷ s) =
    let rest = digits (n * 10 + (x - 48)) s in if leb 48 x && leb x 57 then rest else none

-- A parsed integer, with its value even on an error, and 0 for a negative one.
pub record ParsedInt : Type 0 where
  pub value : ℕ
  pub is_ok : Bool

abbrev bad_int : ParsedInt
bad_int = record { value = 0; is_ok = false }

abbrev in_range : (negative : Bool) → Option ℕ → ParsedInt
in_range negative none = bad_int
in_range true (some n) = record { value = 0; is_ok = leb n (max_int64 + 1) }
in_range false (some n) =
    if leb n max_int64
    then record { value = n; is_ok = true }
    else record { value = max_int64; is_ok = false }

unsigned : Bool → Bytes → ParsedInt
unfolding digits
unsigned negative [] = bad_int
unsigned negative (x ∷ s) = in_range negative (digits 0 (x ∷ s))

unfoldable pub parse_int : Bytes → ParsedInt
unfolding unsigned
parse_int [] = bad_int
parse_int (x ∷ s) =
    if x == b'-'
    then unsigned true s
    else if x == b'+'
    then unsigned false s
    else unsigned false (x ∷ s)
