-- ===== src/Mirror/Deb/Index/Laws.antt =====
-- mirror/deb.go: `parseIndexFile` comes to the end of every index.
use repo_sync.Base.{ap}
use repo_sync.Mirror.Control.Laws.{IsPlain, print_stanza, insert_all, read_stanza-print_stanza}
use repo_sync.Mirror.Deb.Index.{next_files, insert}
use repo_sync.Base.{
  All, ◌++◌, ℕ, zero, suc, nat_eq, list_eq, ◌<◌, ◌≡◌, refl, ◌∙◌, true, Option, none, some, List, [],
  ◌∷◌, length, arith, ◌≤◌,
}
use repo_sync.Base.Bytes.{Bytes, is_some}
use repo_sync.Base.Dict.{insert}
use repo_sync.Mirror.Control.{
  Stanza, Line, blank, other, continued, field, line_of, trim_line, continue_field, read_from,
  read_stanza,
}
use repo_sync.Mirror.Deb.Release.{DebFile}
use repo_sync.Mirror.Control.Laws.{IsPlain, print_stanza, insert_all, read_stanza-print_stanza}
use repo_sync.Mirror.Deb.Index.{next_files, read_index, parse_index, stanza_files}

line_shrinks :
    (s : Stanza) (last line : Bytes) (lines : List Bytes) (l : Line)
    → line_of (trim_line line) ≡ l
    → ((s : Stanza) (last : Bytes) → length ((read_from s last lines).1) ≤ length lines)
    → length ((read_from s last (line ∷ lines)).1) ≤ length lines
unfolding read_from
line_shrinks s last line lines blank h less = rw (h, read_from) (ground (arith, less s last))
line_shrinks s last line lines (continued text) h less =
    rw (h, read_from) (less (continue_field last text s) last)
line_shrinks s last line lines (field name value) h less =
    rw (h, read_from) (less (insert name value s) name)
line_shrinks s last line lines other h less = rw (h, read_from) (less s last)

read_from_shrinks :
    (lines : List Bytes) (s : Stanza) (last : Bytes)
    → length ((read_from s last lines).1) ≤ length lines
unfolding read_from
read_from_shrinks [] s last = omega arith
read_from_shrinks (line ∷ lines) s last = omega (
  arith,
  line_shrinks s last line lines (line_of (trim_line line)) refl (read_from_shrinks lines),
)

next_ends :
    (o : Option Stanza) (files : Stanza → List DebFile) (rest : Option (List DebFile))
    → is_some rest ≡ true
    → is_some (elim o [ none ↦ some [] | some st ↦ next_files (files st) rest ]) ≡ true
next_ends none files rest h = refl
next_ends (some st) files (some fs) h = refl
next_ends (some st) files none h = h

-- Each stanza takes a line at least, so the lines of an index are enough fuel.
read_index_ends :
    (order : List (Bytes × Bytes)) (kind : Bytes) (fuel : ℕ) (lines : List Bytes)
    → length lines < fuel
    → is_some (read_index fuel order kind lines) ≡ true
unfolding read_index read_stanza read_from
read_index_ends order kind zero lines h = ground arith
read_index_ends order kind (suc fuel) [] h = refl
read_index_ends order kind (suc fuel) (line ∷ lines) h =
    next_ends ((read_stanza (line ∷ lines)).0) (λ st. stanza_files order kind st)
      (read_index fuel order kind ((read_stanza (line ∷ lines)).1))
      (read_index_ends order kind fuel ((read_stanza (line ∷ lines)).1) (
        omega (
          arith,
          h,
          line_shrinks [] [] line lines (line_of (trim_line line)) refl (read_from_shrinks lines),
        )))

-- `parseIndexFile` comes to the end of an index of any lines: the loop never runs out of the fuel of
-- one round for each line and one more.
pub parse_index_ends :
    (order : List (Bytes × Bytes)) (kind : Bytes) (lines : List Bytes)
    → is_some (parse_index order kind lines) ≡ true
unfolding parse_index
parse_index_ends order kind lines =
    read_index_ends order kind (suc (length lines)) lines (omega arith)

abbrev pub print_index : List ((Bytes × Bytes) × List (Bytes × Bytes)) → List Bytes
print_index [] = []
print_index ((f, fs) ∷ sts) = print_stanza (f ∷ fs) (print_index sts)

-- What the stanzas of an index name, in their order.
abbrev pub index_files :
    (order : List (Bytes × Bytes)) (kind : Bytes)
    → List ((Bytes × Bytes) × List (Bytes × Bytes))
    → List DebFile
index_files order kind [] = []
index_files order kind ((f, fs) ∷ sts) =
    stanza_files order kind (insert_all (f ∷ fs) []) ++ index_files order kind sts

print_stanza_longer :
    (fs : List (Bytes × Bytes)) (rest : List Bytes) → length rest < length (print_stanza fs rest)
unfolding print_stanza
print_stanza_longer [] rest = omega arith
print_stanza_longer (f ∷ fs) rest = omega (arith, print_stanza_longer fs rest)

abbrev pub ArePlain : List ((Bytes × Bytes) × List (Bytes × Bytes)) → Type 0
ArePlain [] = Unit
ArePlain ((f, fs) ∷ sts) = All IsPlain (f ∷ fs) × ArePlain sts

read_one :
    (order : List (Bytes × Bytes)) (kind : Bytes) (fuel : ℕ) (lines rest : List Bytes) (st : Stanza)
    → read_stanza lines ≡ (some st, rest)
    → read_index (suc fuel) order kind lines
      ≡ next_files (stanza_files order kind st) (read_index fuel order kind rest)
unfolding read_index
read_one order kind fuel lines rest st h =
    rw (h, read_index)
      (ap (λ p. next_files (stanza_files order kind st) (read_index fuel order kind (p.1))) h)

read_index-print_index :
    (order : List (Bytes × Bytes)) (kind : Bytes) (fuel : ℕ)
    (sts : List ((Bytes × Bytes) × List (Bytes × Bytes)))
    → length (print_index sts) < fuel
    → ArePlain sts
    → read_index fuel order kind (print_index sts) ≡ some (index_files order kind sts)
unfolding read_index
read_index-print_index order kind zero sts h plain = ground arith
read_index-print_index order kind (suc fuel) [] h plain = refl
read_index-print_index order kind (suc fuel) ((f, fs) ∷ sts) h (p, plain) =
    read_one order kind fuel (print_stanza (f ∷ fs) (print_index sts)) (print_index sts)
      (insert_all (f ∷ fs) []) (read_stanza-print_stanza f fs (print_index sts) p)
    ∙ ap (next_files (stanza_files order kind (insert_all (f ∷ fs) []))) (
        read_index-print_index order kind fuel sts
          (omega (arith, h, print_stanza_longer (f ∷ fs) (print_index sts))) plain)

pub parse_index-print_stanzas :
    (order : List (Bytes × Bytes)) (kind : Bytes)
    (sts : List ((Bytes × Bytes) × List (Bytes × Bytes)))
    → ArePlain sts
    → parse_index order kind (print_index sts) ≡ some (index_files order kind sts)
unfolding parse_index
parse_index-print_stanzas order kind sts plain =
    read_index-print_index order kind (suc (length (print_index sts))) sts (omega arith) plain
