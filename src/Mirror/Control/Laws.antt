-- ===== src/Mirror/Control/Laws.antt =====
-- mirror/control.go: a stanza that is written is read back.
use repo_sync.Base.{
  ◌≡◌, refl, ◌∙◌, false, some, List, [], ◌∷◌, ◌++◌, ◌==◌, nat_eq, list_eq, arith, All, contains,
}
use repo_sync.Base.Bytes.{Bytes, lit, cut, strip_prefix, trim_space}
use repo_sync.Base.Dict.{insert}
use repo_sync.Mirror.Control.{
  Stanza, trim_line, field, indented, line_of, is_empty, read_from, read_stanza,
}

-- A field as a line.
abbrev pub print_field : Bytes × Bytes → Bytes
print_field (name, value) = name ++ (58 ∷ 32 ∷ value)

cut_name :
    (name value : Bytes)
    → contains name 58 ≡ false
    → cut (name ++ (58 ∷ value)) (lit ":") ≡ some (name, value)
unfolding cut strip_prefix
cut_name [] value h = ground arith
cut_name (x ∷ name) value h = ground (arith, cut_name name value)

-- A field on one line: the line is not blank and neither starts with a space nor ends in a line break,
-- the name has no colon, and the value no spaces around it.
pub record IsPlain (f : Bytes × Bytes) : Type 0 where
  pub name : contains f.0 58 ≡ false
  pub value : trim_space (32 ∷ f.1) ≡ f.1
  pub ended : trim_line (print_field f) ≡ print_field f
  pub text : (trim_space (print_field f) == []) ≡ false
  pub margin : indented (print_field f) ≡ false

line_of-print_field :
    (f : Bytes × Bytes) → IsPlain f → line_of (trim_line (print_field f)) ≡ field f.0 f.1
unfolding line_of
line_of-print_field (name, value) h = ground (arith, h, cut_name name (32 ∷ value))

-- The fields in order, a later one of a name in place of an earlier one.
unfoldable pub insert_all : List (Bytes × Bytes) → Stanza → Stanza
insert_all [] s = s
insert_all ((name, value) ∷ fs) s = insert_all fs (insert name value s)

unfoldable pub print_stanza : List (Bytes × Bytes) → List Bytes → List Bytes
print_stanza [] rest = [] ∷ rest
print_stanza (f ∷ fs) rest = print_field f ∷ print_stanza fs rest

read_field :
    (s : Stanza) (last line name value : Bytes) (lines : List Bytes)
    → line_of (trim_line line) ≡ field name value
    → read_from s last (line ∷ lines) ≡ read_from (insert name value s) name lines
unfolding read_from
read_field s last line name value lines h = rw (h, read_from) refl

insert_full : (name value : Bytes) (s : Stanza) → is_empty (insert name value s) ≡ false
unfolding insert
insert_full name value [] = refl
insert_full name value ((j, w) ∷ d) = ground arith

read_blank :
    (s : Stanza) (last : Bytes) (rest : List Bytes)
    → is_empty s ≡ false
    → read_from s last ([] ∷ rest) ≡ (some s, rest)
unfolding read_from line_of trim_line trim_space nat_eq list_eq
read_blank s last rest h = rw h refl

read_from-print_stanza :
    (fs : List (Bytes × Bytes)) (s : Stanza) (last : Bytes) (rest : List Bytes)
    → All IsPlain fs
    → is_empty s ≡ false
    → read_from s last (print_stanza fs rest) ≡ (some (insert_all fs s), rest)
unfolding print_stanza insert_all
read_from-print_stanza [] s last rest plain full = read_blank s last rest full
read_from-print_stanza ((name, value) ∷ fs) s last rest (p, plain) full =
    read_field s last (print_field (name, value)) name value (print_stanza fs rest)
      (line_of-print_field (name, value) p)
    ∙ read_from-print_stanza fs (insert name value s) name rest plain (insert_full name value s)

-- A stanza of plain fields is read back from its lines: the reader gives its fields, a later one of a
-- name in place of an earlier one, and goes on behind the blank line after it.
pub read_stanza-print_stanza :
    (f : Bytes × Bytes) (fs : List (Bytes × Bytes)) (rest : List Bytes)
    → All IsPlain (f ∷ fs)
    → read_stanza (print_stanza (f ∷ fs) rest) ≡ (some (insert_all (f ∷ fs) []), rest)
unfolding read_stanza print_stanza insert_all
read_stanza-print_stanza (name, value) fs rest (p, plain) =
    read_field [] [] (print_field (name, value)) name value (print_stanza fs rest)
      (line_of-print_field (name, value) p)
    ∙ read_from-print_stanza fs (insert name value []) name rest plain (insert_full name value [])
