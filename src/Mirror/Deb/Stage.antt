-- ===== src/Mirror/Deb/Stage.antt =====
-- mirror/deb.go: `stageDebRelease` with `fetch` and `selectData`. The mirror's answers and the checks of
-- signatures are parameters.
pub mod Pair
pub mod Laws
use repo_sync.Base.{
  Bool, true, false, not, ◌&&◌, Option, none, some, [], ◌==◌, nat_eq, list_eq, if◌then◌else◌,
}
use repo_sync.Base.Bytes.{Bytes}
use repo_sync.Fetch.Download.{Digest, LocalFile, Slot, FetchError, Outcome, Request}
use repo_sync.Fetch.Promote.{staged_or_final}
use repo_sync.Mirror.Signatures.{SignatureMode, signature_off, signature_required, mode_or_off}
use repo_sync.Mirror.Staging.{missing_of, error_of, stage_file}

pub data DebError : Type 0 where
  no_verifier unreadable bad_in_release bad_gpg gpg_alone release_lost no_release unsigned :
      DebError
  fetch_failed : FetchError → DebError

-- `debReleaseSet`, with the files instead of their names.
pub record DebSet : Type 0 where
  pub in_release : Slot
  pub release : Slot
  pub gpg : Slot
  pub no_in_release : Bool
  pub no_release : Bool
  pub no_gpg : Bool
  pub payload : Bytes
  pub authenticated : Bool

abbrev pub unstaged : Slot → Slot
unstaged slot = record slot { staged = none }

unfoldable pub cleanup : DebSet → DebSet
cleanup r = record r {
  in_release = unstaged r.in_release;
  release = unstaged r.release;
  gpg = unstaged r.gpg;
}

-- The answers to a name, at first and fresh.
pub record DebRequests : Type 0 where
  pub in_release : Bool → Request
  pub release : Bool → Request
  pub gpg : Bool → Request

-- The checks of a clearsigned document, which gives its payload, and of a detached signature.
pub record Signatures : Type 0 where
  pub clearsigned : Bytes → Option Bytes
  pub detached : Option LocalFile → Option LocalFile → Bool

abbrev pub Staged : Type 0
Staged = Option DebError × DebSet

abbrev pub fail : DebError → DebSet → Staged
fail e r = (some e, cleanup r)

-- What a fetch of a name makes of the set: an error, or whether the name is missing.
abbrev pub set_in : Slot → Bool → DebSet → DebSet
set_in slot b r = record r { in_release = slot; no_in_release = b }

abbrev pub set_release : Slot → Bool → DebSet → DebSet
set_release slot b r = record r { release = slot; no_release = b }

abbrev pub set_gpg : Slot → Bool → DebSet → DebSet
set_gpg slot b r = record r { gpg = slot; no_gpg = b }

-- A document that is read and checked.
pub data Clear : Type 0 where
  no_file bad : Clear
  good : Bytes → Clear

module _ (digest : Digest) (live : Bool) (ask : DebRequests) (mode : SignatureMode)
    (check : Signatures) where
  unfoldable pub read_clear : DebSet → Clear
  unfolding staged_or_final
  read_clear r = elim (staged_or_final r.in_release) [
    | none ↦ no_file
    | some f ↦ elim (check.clearsigned f.content) [ none ↦ bad | some text ↦ good text ]
  ]

  unfoldable pub is_signed : DebSet → Bool
  unfolding staged_or_final
  is_signed r = check.detached (staged_or_final r.release) (staged_or_final r.gpg)

  abbrev pub read_release : Option LocalFile → DebSet → Staged
  read_release none r = fail unreadable r
  read_release (some f) r = (none, record r { payload = f.content })

  -- The end: without InRelease the data are those of Release.
  unfoldable pub finish : DebSet → Staged
  unfolding cleanup staged_or_final
  finish r =
      if not r.no_in_release
      then (none, r)
      else if r.no_release
      then fail no_release r
      else if r.no_gpg && mode == signature_required
      then fail unsigned r
      else read_release (staged_or_final r.release) r

  abbrev pub accept_gpg : DebSet → DebSet
  accept_gpg r = if r.no_in_release then record r { authenticated = true } else r

  -- The second attempt at the pair.
  unfoldable pub gpg_second : DebSet → Staged
  unfolding is_signed finish cleanup
  gpg_second r =
      if r.no_release
      then fail release_lost r
      else if r.no_gpg
      then finish r
      else if is_signed r
      then finish (accept_gpg r)
      else fail bad_gpg r

  abbrev pub after_gpg : Option Bool → FetchError → Slot → DebSet → Staged
  after_gpg none e slot r = fail (fetch_failed e) (record r { gpg = slot })
  after_gpg (some b) e slot r = gpg_second (set_gpg slot b r)

  unfoldable pub refetch_gpg : DebSet → Staged
  unfolding missing_of stage_file gpg_second cleanup
  refetch_gpg r =
      let (o, slot) = stage_file digest live true (ask.gpg true) r.gpg in
      after_gpg (missing_of o) (error_of o) slot r

  abbrev pub after_release : Option Bool → FetchError → Slot → DebSet → Staged
  after_release none e slot r = fail (fetch_failed e) (record r { release = slot })
  after_release (some b) e slot r = refetch_gpg (set_release slot b r)

  unfoldable pub refetch_pair : DebSet → Staged
  unfolding missing_of stage_file refetch_gpg cleanup
  refetch_pair r =
      let (o, slot) = stage_file digest live true (ask.release true) r.release in
      after_release (missing_of o) (error_of o) slot r

  -- The detached signature.
  unfoldable pub check_gpg : DebSet → Staged
  unfolding is_signed finish refetch_pair cleanup
  check_gpg r =
      if r.no_gpg
      then finish r
      else if r.no_release
      then fail gpg_alone r
      else if is_signed r
      then finish (accept_gpg r)
      else refetch_pair r

  abbrev pub accept_in : Bytes → DebSet → DebSet
  accept_in text r = record r { payload = text; authenticated = true }

  -- The second attempt at InRelease.
  abbrev pub in_second : Clear → DebSet → Staged
  in_second no_file r = fail unreadable r
  in_second bad r = fail bad_in_release r
  in_second (good text) r = check_gpg (accept_in text r)

  abbrev pub after_in : Option Bool → FetchError → Slot → DebSet → Staged
  after_in none e slot r = fail (fetch_failed e) (record r { in_release = slot })
  after_in (some true) e slot r = check_gpg (set_in slot true r)
  after_in (some false) e slot r =
      in_second (read_clear (set_in slot false r)) (set_in slot false r)

  unfoldable pub refetch_in : DebSet → Staged
  unfolding missing_of stage_file check_gpg read_clear cleanup
  refetch_in r =
      let (o, slot) = stage_file digest live true (ask.in_release true) r.in_release in
      after_in (missing_of o) (error_of o) slot r

  abbrev pub in_first : Clear → DebSet → Staged
  in_first no_file r = fail unreadable r
  in_first bad r = refetch_in r
  in_first (good text) r = check_gpg (accept_in text r)

  unfoldable pub check_in : DebSet → Staged
  unfolding check_gpg read_clear refetch_in cleanup
  check_in r = if r.no_in_release then check_gpg r else in_first (read_clear r) r

  abbrev pub read_selected : Option LocalFile → DebSet → Staged
  read_selected none r = fail unreadable r
  read_selected (some f) r = (none, record r { payload = f.content; authenticated = false })

  -- `selectData`, without signatures.
  unfoldable pub select_data : DebSet → Staged
  unfolding cleanup staged_or_final
  select_data r =
      if not r.no_in_release
      then read_selected (staged_or_final r.in_release) r
      else if r.no_release
      then fail no_release r
      else read_selected (staged_or_final r.release) r

  unfoldable pub check_release : (has_verifier : Bool) → DebSet → Staged
  unfolding select_data check_in cleanup
  check_release has_verifier r =
      if mode == signature_off
      then select_data r
      else if has_verifier
      then check_in r
      else fail no_verifier r

  -- The first fetches, which on an error clean up what they have come to.
  abbrev pub first_gpg : (has_verifier : Bool) → Option Bool → FetchError → Slot → DebSet → Staged
  first_gpg v none e slot r = fail (fetch_failed e) (record r { gpg = slot })
  first_gpg v (some b) e slot r = check_release v (set_gpg slot b r)

  abbrev pub first_release :
      (has_verifier : Bool) → Option Bool → FetchError → Slot → DebSet → Staged
  first_release v none e slot r = (
    some (fetch_failed e),
    record r { in_release = unstaged r.in_release; release = unstaged slot },
  )
  first_release v (some b) e slot r =
      let (o, next) = stage_file digest live false (ask.gpg false) r.gpg in
      first_gpg v (missing_of o) (error_of o) next (set_release slot b r)

  abbrev pub first_in : (has_verifier : Bool) → Option Bool → FetchError → Slot → DebSet → Staged
  first_in v none e slot r = (some (fetch_failed e), record r { in_release = unstaged slot })
  first_in v (some b) e slot r =
      let (o, next) = stage_file digest live false (ask.release false) r.release in
      first_release v (missing_of o) (error_of o) next (set_in slot b r)

  unfoldable pub stage_set : (has_verifier : Bool) → DebSet → Staged
  unfolding missing_of stage_file check_release cleanup
  stage_set v r =
      let (o, slot) = stage_file digest live false (ask.in_release false) r.in_release in
      first_in v (missing_of o) (error_of o) slot r

-- A set of which nothing is known but the files.
abbrev pub new_set : DebSet → DebSet
new_set r = record r {
  no_in_release = false;
  no_release = false;
  no_gpg = false;
  payload = [];
  authenticated = false;
}

-- `stageDebRelease`, from the files as they are.
unfoldable pub stage_deb_release :
    Digest → (live : Bool) → DebRequests → SignatureMode → Option Signatures → DebSet → Staged
unfolding stage_set mode_or_off
stage_deb_release digest live ask mode verifier r =
    let m = mode_or_off mode in
    let nothing : Signatures = record { clearsigned = λ t. none; detached = λ f s. false } in
    elim verifier [
      | none ↦ stage_set digest live ask m nothing false (new_set r)
      | some check ↦ stage_set digest live ask m check true (new_set r)
    ]
