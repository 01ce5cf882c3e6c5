-- ===== src/Tests/Parsing.antt =====
-- mirror/control.go at concrete inputs.
use repo_sync.Base.{◌≡◌, refl, some, [], ◌∷◌, nat_eq, list_eq}
use repo_sync.Base.Bytes.{Bytes, lit, trim_space}
use repo_sync.Base.Dict.{lookup}
use repo_sync.Mirror.Control.{read_stanza, trim_line}
use repo_sync.Mirror.Control.Laws.{IsPlain}

abbrev suite : Bytes × Bytes
suite = (lit "Suite", lit "stable")

suite-IsPlain : IsPlain suite
unfolding trim_space trim_line nat_eq list_eq
suite-IsPlain = record { name = refl; value = refl; ended = refl; text = refl; margin = refl }

-- A continuation line joins the field before it.
continues :
    read_stanza (lit "SHA256:" ∷ lit " a 1 f" ∷ [])
    ≡ (some ((lit "SHA256", 10 ∷ lit "a 1 f") ∷ []), [])
unfolding read_stanza nat_eq list_eq lookup
continues = refl
