-- ===== src/Server/Failures.antt =====
-- server/failure_cache.go: recent upstream failures by resource key. Each method runs under the
-- cache's lock, so it is one step.
pub mod Laws
use repo_sync.Base.{ℕ, ◌+◌, Bool, not, Option, none, some, List, [], ◌∷◌, nat_eq, list_eq}
use repo_sync.Base.{if◌then◌else◌}
use repo_sync.Base.Bytes.{Bytes}
use repo_sync.Base.Clock.{Time, Duration, before}
use repo_sync.Base.Dict.{Dict, lookup, insert, erase, retain}

pub record FailureEntry : Type 0 where
  pub status : ℕ
  pub expires : Time

abbrev pub FailureCache : Type 0
FailureCache = Dict Bytes FailureEntry

unfoldable pub hit : Bytes → Time → FailureCache → Option ℕ × FailureCache
hit key now c = elim (lookup key c) [
  | none ↦ (none, c)
  | some e ↦ if not (before now e.expires) then (none, erase key c) else (some e.status, c)
]

unfoldable pub add : Bytes → ℕ → Time → Duration → FailureCache → FailureCache
add key status now ttl c = insert key (record { status = status; expires = now + ttl }) c

unfoldable pub sweep : Time → FailureCache → FailureCache
sweep now c = retain (λ _ e. before now e.expires) c
