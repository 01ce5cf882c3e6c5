-- ===== src/Fetch/Promote.antt =====
-- fetch/fetch.go: `StagedOrFinal`, `PromoteStaged` and `PromoteOrDiscard`, on the
-- files at and beside one destination. `disk_ok` says that `os.MkdirAll` and `os.Rename` succeed.
use repo_sync.Base.{Bool, true, false, Option, none, some, if◌then◌else◌}
use repo_sync.Fetch.Download.{LocalFile, Slot}

unfoldable pub staged_or_final : Slot → Option LocalFile
staged_or_final slot = elim slot.staged [ none ↦ slot.dst | some f ↦ some f ]

-- Whether it succeeds, and the files.
unfoldable pub promote_staged : Bool → Slot → Bool × Slot
promote_staged disk_ok slot = elim slot.staged [
  | none ↦ (true, slot)
  | some f ↦ if disk_ok then (true, record slot { staged = none; dst = some f }) else (false, slot)
]

unfoldable pub promote_or_discard : (dry_run disk_ok : Bool) → Slot → Bool × Slot
unfolding promote_staged
promote_or_discard dry_run disk_ok slot =
    if dry_run then (true, record slot { staged = none }) else promote_staged disk_ok slot
