-- ===== src/Mirror/Staging.antt =====
-- mirror/rpm.go and mirror/deb.go: the staging of one file without a checksum, where a file that the
-- mirror does not serve is not an error.
pub mod Laws
use repo_sync.Base.{Bool, true, false, Option, none, some}
use repo_sync.Fetch.Download.{
  Digest, Slot, FetchError, not_found, forbidden, Outcome, done, failed, Request, fetch_file,
}

-- Whether an optional file is missing; `none` for any other error.
unfoldable pub missing_of : Outcome → Option Bool
missing_of (done s) = some false
missing_of (failed not_found) = some true
missing_of (failed forbidden) = some true
missing_of (failed e) = none

abbrev pub error_of : Outcome → FetchError
error_of (done s) = not_found
error_of (failed e) = e

-- `File`, or `FileFresh` in a second attempt.
unfoldable pub stage_file :
    Digest → (live : Bool) → (fresh : Bool) → Request → Slot → Outcome × Slot
unfolding fetch_file
stage_file digest live fresh request slot =
    fetch_file digest request request live none true false fresh slot
