-- ===== src/Tests/Debian.antt =====
-- mirror/deb.go, and the lock of mirror/sync.go, at concrete inputs.
use repo_sync.Base.Counts.{set_elem}
use repo_sync.Base.{
  ℕ, ◌≡◌, refl, Bool, true, false, Option, none, some, List, [], ◌∷◌, ◌++◌, nat_eq, list_eq,
  get_elem?,
}
use repo_sync.Base.Bytes.{Bytes, lit}
use repo_sync.Mirror.RunLock.{
  idle, working, System, initial, Reach, start, later, begin, opens, locks, holds, at, trying,
  opened, locked, open_file, take_lock, same_file,
}
use mathlib.Core.Path.{subst}
use repo_sync.Base.{some_inj}
use repo_sync.Base.Clock.{Time}
use repo_sync.Base.Bytes.{trim_space}
use repo_sync.Base.Dict.{lookup}
use repo_sync.Fetch.Download.{Digest, Slot, Request, body, refused, not_found}
use repo_sync.Fetch.Missing.{written}
use repo_sync.Mirror.Control.{trim_line}
use repo_sync.Mirror.Signatures.{signature_required, mode_or_off}
use repo_sync.Mirror.Deb.Release.{DebFile, release_sum_fields}
use repo_sync.Mirror.Deb.Index.{source_sum_fields, parse_index}
use repo_sync.Mirror.Deb.Index.Laws.{print_index}
use repo_sync.Mirror.Deb.Index.Packages.{
  Package, IsWritten, stanzas, deb_files, parse_index-print_index,
}
use repo_sync.Base.{◌==◌}
use repo_sync.Base.Words.{parse_int}
use repo_sync.Base.Bytes.{to_lower}
use repo_sync.Base.Paths.{clean}
use repo_sync.Mirror.Deb.ByHash.{LinkDisk, Links, made, add_by_hash, link_path}
use repo_sync.Mirror.Deb.ByHash.Laws.{ArePlain, OnlyLinks, add_by_hash-OnlyLinks}
use repo_sync.Mirror.Deb.Stage.{Signatures, DebRequests, DebSet, stage_deb_release}
use repo_sync.Mirror.Deb.Stage.Pair.{SameLive, has_failed, Vouched}
use repo_sync.Mirror.Deb.Stage.Laws.{stage_deb_release-Vouched}
use repo_sync.Mirror.Deb.Sync.{DebOptions, DebRun, DebState, sync_deb}
use repo_sync.Mirror.Deb.Sync.Docs.{has_error}
use repo_sync.Mirror.Deb.Sync.Laws.{IsSigned, sync_deb-IsSigned}
use repo_sync.Mirror.RunLock.Laws.{run_excludes}

abbrev two_idle : System
two_idle = initial none 0 (idle ∷ idle ∷ [])

abbrev begun : System
begun = at 0 (trying 0) two_idle.file two_idle

abbrev with_file : System
with_file = at 0 (opened 0 0) (open_file begun.file).1 begun

abbrev with_lock : System
with_lock = at 0 (locked 0 0) (take_lock 0 with_file.file) with_file

abbrev at_work : System
at_work = at 0 (working 0) with_lock.file with_lock

at_work-Reach : Reach at_work
unfolding open_file take_lock set_elem same_file nat_eq
at_work-Reach =
    later
      (later
        (later
          (later (start none 0 (idle ∷ idle ∷ []) (λ n e. absurd (cc)) (refl, (refl, tt)))
            (begin 0 refl))
          (opens 0 0 refl))
        (locks 0 0 0 refl refl))
      (holds 0 0 0 refl refl)

works : get_elem? at_work.runs 0 ≡ some (working 0)
unfolding set_elem
works = refl

run_excludes_example : ◌≡◌ {A = ℕ} 0 0
run_excludes_example = run_excludes at_work 0 0 0 0 at_work-Reach works works

abbrev a_package : Package
a_package = record {
  name = lit "pool/./a.deb";
  size = lit "3";
  sum = lit "AB";
  others = (lit "Package", lit "a") ∷ [];
}

a_package-IsWritten : IsWritten a_package
unfolding trim_space trim_line nat_eq list_eq
a_package-IsWritten = record {
  name = λ e. absurd (cc);
  sum = λ e. absurd (cc);
  plain = (
    record { name = refl; value = refl; ended = refl; text = refl; margin = refl },
    (
      record { name = refl; value = refl; ended = refl; text = refl; margin = refl },
      (
        record { name = refl; value = refl; ended = refl; text = refl; margin = refl },
        (record { name = refl; value = refl; ended = refl; text = refl; margin = refl }, tt),
      ),
    ),
  );
  others = ((refl, (refl, (refl, (refl, (refl, (refl, (refl, tt))))))), tt);
}

no_sources : (lit "Packages" == lit "Sources") ≡ false
unfolding nat_eq list_eq
no_sources = refl

parse_index-print_index_example :
    parse_index source_sum_fields (lit "Packages") (print_index (stanzas (a_package ∷ [])))
    ≡ some (deb_files (a_package ∷ []))
parse_index-print_index_example =
    parse_index-print_index source_sum_fields (lit "Packages") (a_package ∷ []) no_sources
      (a_package-IsWritten, tt)

one_package :
    deb_files (a_package ∷ [])
    ≡ record { path = lit "pool/a.deb"; size = 3; sums = (lit "sha256", lit "ab") ∷ [] } ∷ []
unfolding clean parse_int to_lower nat_eq list_eq
one_package = refl

abbrev a_deb : DebFile
a_deb = record { path = lit "a.deb"; size = 3; sums = [] }

abbrev empty_slot : Slot
empty_slot = record { dst = none; staged = none; partial = none }

abbrev index_file : DebFile
index_file = record { path = lit "main/Packages"; size = 3; sums = (lit "sha256", lit "new") ∷ [] }

abbrev links : LinkDisk
links = record { has_dir = λ path. true; link = λ path. made }

abbrev no_links : Links
no_links = (λ path. empty_slot, none)

abbrev a_link : Bytes
a_link = lit "/m/dists/s/main/by-hash/SHA256/new"

index_file-ArePlain :
    (f : DebFile)
    → lookup (lit "main/Packages") ((lit "main/Packages", index_file) ∷ []) ≡ some f
    → ArePlain f.sums
unfolding lookup nat_eq list_eq
index_file-ArePlain f e =
    subst (λ (f : DebFile). ArePlain f.sums) (some_inj e)
      (record { not_empty = λ e. cc; not_dot = λ e. cc; not_dots = λ e. cc; no_slash = refl }, tt)

add_by_hash-OnlyLinks_example :
    OnlyLinks
      (lit "/m/dists/s/main/Packages")
      a_link
      no_links.0
      (add_by_hash links
        (lit "/m/dists/s/main/Packages")
        (lit "main/Packages")
        ((lit "main/Packages", index_file) ∷ [])
        no_links).0
add_by_hash-OnlyLinks_example =
    add_by_hash-OnlyLinks links (lit "/m/dists/s/main/Packages") (lit "main/Packages")
      ((lit "main/Packages", index_file) ∷ []) no_links a_link index_file-ArePlain

abbrev identity : Digest
identity algo content = content

abbrev serves : Bytes → Bool → Request
serves content fresh since from = body false content true true 9

abbrev lacks : Bool → Request
lacks fresh since from = refused not_found

abbrev in_release : Bytes
in_release =
    lit "Acquire-By-Hash: yes" ++ (10 ∷ (lit "SHA256:" ++ (10 ∷ lit " new 3 main/Packages")))

abbrev signatures : Signatures
signatures = record { clearsigned = λ t. some t; detached = λ f s. true }

abbrev requests : DebRequests
requests = record { in_release = serves in_release; release = lacks; gpg = lacks }

abbrev no_docs : DebSet
no_docs = record {
  in_release = empty_slot;
  release = empty_slot;
  gpg = empty_slot;
  no_in_release = false;
  no_release = false;
  no_gpg = false;
  payload = [];
  authenticated = false;
}

stage_deb_release-Vouched_example :
    let x = stage_deb_release identity true requests signature_required (some signatures) no_docs in
    SameLive no_docs x.1
    × (has_failed x.0 ≡ false → Vouched (mode_or_off signature_required) signatures x.1)
stage_deb_release-Vouched_example =
    stage_deb_release-Vouched identity true requests signature_required signatures no_docs

abbrev deb_options : DebOptions
deb_options = record {
  repo_dest = λ path. some path;
  components = [];
  architectures = [];
  dry_run = false;
  verify = false;
  prune = false;
  mode = signature_required;
}

abbrev one_end : List (Time × ℕ)
one_end = (5, 0) ∷ []

abbrev deb_run : DebRun
deb_run = record {
  transfers = record {
    digest = identity;
    ask = λ path. serves (lit "new") false;
    again = λ path. serves (lit "new") true;
    live = true;
    verify = true;
  };
  ask = requests;
  verifier = some signatures;
  read = λ name f. some (lit "Filename: pool/a.deb" ∷ lit "Size: 3" ∷ []);
  release_fields = release_sum_fields;
  source_fields = source_sum_fields;
  index_order = one_end;
  pool_order = one_end;
  write = written;
  disk = λ path. true;
  links = links;
}

abbrev deb_state : DebState
deb_state = record {
  set = no_docs;
  tree = λ path. empty_slot;
  keep = none;
  miss = none;
  missing_file = none;
  planned = record { unchanged = 0; planned = 0; planned_bytes = 0 };
}

required_mode : mode_or_off signature_required ≡ signature_required
unfolding mode_or_off nat_eq list_eq
required_mode = refl

sync_deb-IsSigned_example :
    let x = sync_deb deb_options deb_run (lit "/m/dists/s") deb_state in
    (has_error x.0 ≡ true → SameLive no_docs x.1.set)
    × (has_error x.0 ≡ false → IsSigned signatures x.1.set)
sync_deb-IsSigned_example =
    sync_deb-IsSigned deb_options deb_run signatures (λ dest name e. refl) required_mode refl refl
      (lit "/m/dists/s") deb_state

abbrev a_run : Option Bytes
a_run =
    let x = sync_deb deb_options deb_run (lit "/m/dists/s") deb_state in
    elim x.0 [
      | some e ↦ none
      | none ↦ elim (x.1.tree a_link).dst [ none ↦ none | some f ↦ some f.content ]
    ]

-- The run links its index by its hash.
links_index : a_run ≡ some (lit "new")
unfolding sync_deb nat_eq list_eq lookup
links_index = refl

-- A digest that is not the name of a file leads out of the archive.
escapes : link_path (lit "/m/main") (lit "MD5Sum") (lit "../../../../etc/x") ≡ lit "/etc/x"
unfolding link_path nat_eq list_eq
escapes = refl
