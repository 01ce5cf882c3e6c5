-- ===== src/Mirror/Control.antt =====
-- mirror/control.go: the reader of apt control files. The input is its lines, without their line feeds,
-- so that an end without one is a last line as any other.
pub mod Laws
use repo_sync.Base.{
  ℕ, Bool, true, false, ◌||◌, Option, none, some, List, [], ◌∷◌, ◌++◌, ◌==◌, nat_eq, list_eq,
  if◌then◌else◌,
}
use repo_sync.Base.Bytes.{Bytes, lit, cut, trim_space}
use repo_sync.Base.Dict.{Dict, lookup, insert}

abbrev pub Stanza : Type 0
Stanza = Dict Bytes Bytes

-- `Get`: the first of the names that the stanza has, or nothing.
unfoldable pub get : Stanza → List Bytes → Bytes
unfolding lookup
get s [] = []
get s (name ∷ names) = let rest = get s names in elim (lookup name s) [ none ↦ rest | some v ↦ v ]

abbrev is_break : ℕ → Bool
is_break x = x == 13 || x == 10

abbrev push_line : ℕ → Bytes → Bytes
push_line x [] = if is_break x then [] else x ∷ []
push_line x (y ∷ r) = x ∷ y ∷ r

-- `strings.TrimRight(line, "\r\n")`.
unfoldable pub trim_line : Bytes → Bytes
trim_line [] = []
trim_line (x ∷ s) = push_line x (trim_line s)

-- The cases of the switch on a line.
pub data Line : Type 0 where
  blank other : Line
  continued : Bytes → Line
  field : Bytes → Bytes → Line

abbrev pub indented : Bytes → Bool
indented [] = false
indented (x ∷ s) = x == 32 || x == 9

unfoldable pub line_of : Bytes → Line
unfolding trim_space cut
line_of line =
    if trim_space line == []
    then blank
    else if indented line
    then continued (trim_space line)
    else elim (cut line (lit ":")) [
      | none ↦ other
      | some (name, value) ↦ field name (trim_space value)
    ]

abbrev text_or : Option Bytes → Bytes
text_or none = []
text_or (some t) = t

-- A continuation line, with its line feed, on the field before it.
unfoldable pub continue_field : Bytes → Bytes → Stanza → Stanza
unfolding lookup insert
continue_field last text s =
    if last == [] then s else insert last (text_or (lookup last s) ++ (10 ∷ text)) s

abbrev pub is_empty : Stanza → Bool
is_empty [] = true
is_empty (f ∷ s) = false

-- `readStanza` from the stanza so far and the name of its last field: `none` is the end of the input.
unfoldable pub read_from : Stanza → Bytes → List Bytes → Option Stanza × List Bytes
unfolding trim_line line_of continue_field insert
read_from s last [] = (if is_empty s then none else some s, [])
read_from s last (line ∷ lines) = elim (line_of (trim_line line)) [
  | blank ↦ if is_empty s then read_from s last lines else (some s, lines)
  | continued text ↦ read_from (continue_field last text s) last lines
  | field name value ↦ read_from (insert name value s) name lines
  | other ↦ read_from s last lines
]

unfoldable pub read_stanza : List Bytes → Option Stanza × List Bytes
unfolding read_from
read_stanza lines = read_from [] [] lines
