-- ===== src/Fetch/Stats.antt =====
-- fetch/stats.go: the counters of a synchronization. Counts stay below 2^63.
use repo_sync.Base.{ℕ}

pub record Counters : Type 0 where
  pub fetched : ℕ
  pub fetched_bytes : ℕ
  pub unchanged : ℕ
  pub pruned : ℕ
  pub planned : ℕ
  pub planned_bytes : ℕ
  pub missing : ℕ

-- `Reset`.
abbrev pub no_counts : Counters
no_counts = record {
  fetched = 0;
  fetched_bytes = 0;
  unchanged = 0;
  pruned = 0;
  planned = 0;
  planned_bytes = 0;
  missing = 0;
}
