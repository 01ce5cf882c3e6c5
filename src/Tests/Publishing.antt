-- ===== src/Tests/Publishing.antt =====
-- fetch/fetch.go (`Many`) and mirror/rpm.go at concrete inputs.
use repo_sync.Fetch.Download.{make_expect}
use repo_sync.Base.Dict.{insert}
use repo_sync.Mirror.Rpm.Publish.Laws.{SameTexts}
use repo_sync.Fetch.Missing.{written}
use repo_sync.Mirror.Rpm.Select.{RepoFile, file_jobs, job_at}
use repo_sync.Mirror.Rpm.Sync.{RpmOptions, RpmRun, RpmState, sync_rpm}
use repo_sync.Mirror.Rpm.Sync.Root.{has_failed}
use repo_sync.Mirror.Rpm.Sync.Laws.{IsLive, sync_rpm-IsLive}
use repo_sync.Base.Bytes.{has_prefix}
use repo_sync.Base.Paths.{join, clean}
use repo_sync.Base.{ℕ, ◌≡◌, refl, true, false, none, some, List, [], ◌∷◌}
use repo_sync.Base.{nat_eq, list_eq, inl}
use repo_sync.Base.Bytes.{Bytes, lit}
use repo_sync.Base.Clock.{Time}
use repo_sync.Base.Dict.{lookup}
use repo_sync.Fetch.Download.{Expect, Digest, LocalFile, Slot, refused, body, not_found, Request}
use repo_sync.Fetch.Jobs.{Job, Transfers, Pool, many}
use repo_sync.Fetch.Jobs.Laws.{OldOrFetched, many-OldOrFetched}
use repo_sync.Fetch.Jobs.Complete.{IsComplete, many-IsComplete}
use repo_sync.Mirror.Rpm.Publish.{RpmRoot, RootFiles, DiskOk, PublishDisk, publish_rpm_root}
use repo_sync.Mirror.Signatures.{signature_required, mode_or_off}
use repo_sync.Mirror.Rpm.Stage.{RootRequests, Verify}
use repo_sync.Mirror.Rpm.Commit.{CommitDisk, Ready, commit}
use repo_sync.Mirror.Rpm.Commit.Laws.{Atomic, CanUndo, commit-Atomic}

abbrev file_of : Bytes → LocalFile
file_of content = record { content = content; modified = 7 }

abbrev empty_slot : Slot
empty_slot = record { dst = none; staged = none; partial = none }

abbrev slot_of : Bytes → Bytes → Slot
slot_of old new = record { dst = some (file_of old); staged = some (file_of new); partial = none }

abbrev identity : Digest
identity algo content = content

abbrev serves : Bytes → Request
serves content since from = body false content true true 9

abbrev lacks : Request
lacks since from = refused not_found

abbrev a_rpm : Bytes
a_rpm = lit "/m/a.rpm"

abbrev wants : Expect
wants = record { size = some 3; sums = [] }

abbrev a_job : Job
a_job = record {
  req_path = lit "a.rpm";
  dst = a_rpm;
  want = some wants;
  optional = false;
  stage = false;
}

abbrev transfers : Transfers
transfers = record {
  digest = identity;
  ask = λ path. serves (lit "new");
  again = λ path. serves (lit "new");
  live = true;
  verify = true;
}

abbrev idle : Pool
idle = record {
  tree = λ path. empty_slot;
  keep = some [];
  miss = none;
  states = [];
  missing_count = 0;
  error = none;
}

abbrev one_end : List (Time × ℕ)
one_end = (5, 0) ∷ []

many-OldOrFetched_example :
    OldOrFetched identity
      (a_job ∷ [])
      a_rpm
      none
      ((many transfers (a_job ∷ []) one_end idle).tree a_rpm).dst
many-OldOrFetched_example =
    many-OldOrFetched transfers (a_job ∷ []) one_end idle a_rpm ((wants, refl), tt)

fetches_one : (many transfers (a_job ∷ []) one_end idle).error ≡ none
unfolding many nat_eq list_eq lookup
fetches_one = refl

many-IsComplete_example : IsComplete a_job 0 (many transfers (a_job ∷ []) one_end idle)
many-IsComplete_example =
    many-IsComplete transfers (a_job ∷ []) one_end idle 0 a_job (inl refl) refl refl refl (λ e. cc)
      fetches_one

abbrev root : RpmRoot
root = record {
  repomd_dst = lit "/m/repodata/repomd.xml";
  sig_dst = lit "/m/repodata/repomd.xml.asc";
  key_dst = lit "/m/repodata/repomd.xml.key";
  sig_missing = false;
  key_missing = true;
  authenticated = true;
}

abbrev generation : RootFiles
generation = record {
  repomd = slot_of (lit "old") (lit "new");
  sig = slot_of (lit "old sig") (lit "new sig");
  key = empty_slot;
}

abbrev all_well : DiskOk
all_well = record { repomd = true; sig = true; key = true }

-- The disk fails the last renaming.
abbrev breaks_last : PublishDisk
breaks_last = record {
  readable = true;
  publish = record all_well { repomd = false };
  restore = all_well;
}

rolls_back : (publish_rpm_root root false 20 breaks_last generation none).0 ≡ (
  false,
  record generation {
    repomd = record (slot_of (lit "old") (lit "new")) {
      dst = some (record (file_of (lit "old")) { modified = 20 });
    };
    sig = record empty_slot { dst = some (record (file_of (lit "old sig")) { modified = 20 }) };
  },
)
unfolding publish_rpm_root
rolls_back = refl

abbrev ready : Ready
ready = record {
  root = root;
  files = generation;
  jobs = a_job ∷ [];
  states = [];
  packages = record {
    tree = λ path. record empty_slot { dst = some (file_of (lit "bad")) };
    hidden = λ path. none;
  };
  keep = none;
}

abbrev commit_disk : CommitDisk
commit_disk = record { hide = λ path. true; finish = λ path. true; publish = breaks_last }

can_undo : CanUndo commit_disk
can_undo = record { files = refl; packages = λ path. refl }

commit-Atomic_example : Atomic ready (commit false 20 commit_disk ready)
commit-Atomic_example = commit-Atomic 20 commit_disk ready can_undo

abbrev requests : RootRequests
requests = record { repomd = serves (lit "md"); sig = serves (lit "sig"); key = lacks }

-- Accepts any two files that are there.
abbrev accepts : Verify
accepts (some f) (some s) key = true
accepts none sig key = false
accepts (some f) none key = false

abbrev repo_file : Bytes → RepoFile
repo_file href = record { href = href; size = 3; sum_type = []; sum = [] }

abbrev rpm_options : RpmOptions
rpm_options = record {
  dest = lit "/m";
  dry_run = false;
  verify = false;
  prune = true;
  mode = signature_required;
}

abbrev well : CommitDisk
well = record commit_disk { publish = record breaks_last { publish = all_well } }

abbrev rpm_run : RpmRun
rpm_run = record {
  transfers = transfers;
  verifier = some accepts;
  first = requests;
  second = requests;
  read_repomd = λ f. some (record { type = lit "primary"; file = repo_file (lit "p.xml") } ∷ []);
  read_primary = λ name f. some (repo_file (lit "a.rpm") ∷ []);
  read_deltas = λ name f. none;
  metadata_order = one_end;
  package_order = one_end;
  write = written;
  now = 20;
  disk = well;
}

abbrev rpm_state : RpmState
rpm_state = record {
  files = record { repomd = empty_slot; sig = empty_slot; key = empty_slot };
  packages = record { tree = λ path. empty_slot; hidden = λ path. none };
  keep = none;
  miss = none;
  missing_file = none;
  planned = record { unchanged = 0; planned = 0; planned_bytes = 0 };
}

required_mode : mode_or_off signature_required ≡ signature_required
unfolding mode_or_off nat_eq list_eq
required_mode = refl

syncs : (sync_rpm rpm_options rpm_run rpm_state).0 ≡ none
unfolding sync_rpm nat_eq list_eq lookup make_expect insert
syncs = refl

absolute : has_prefix (lit "/m") (lit "/") ≡ true
unfolding has_prefix nat_eq
absolute = refl

one_job :
    file_jobs (lit "/m") (repo_file (lit "a.rpm") ∷ [])
    ≡ some (job_at (repo_file (lit "a.rpm")) false a_rpm ∷ [])
unfolding file_jobs join clean has_prefix nat_eq list_eq
one_job = refl

sync_rpm-IsLive_example :
    let x = sync_rpm rpm_options rpm_run rpm_state in
    (has_failed x.0 ≡ false → IsLive accepts x.1.files)
    × (has_failed x.0 ≡ true → SameTexts rpm_state.files x.1.files)
sync_rpm-IsLive_example =
    sync_rpm-IsLive rpm_options rpm_run accepts refl
      (record { files = refl; packages = λ path. refl }) rpm_state required_mode refl
