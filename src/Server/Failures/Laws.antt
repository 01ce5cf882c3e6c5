-- ===== src/Server/Failures/Laws.antt =====
-- server/failure_cache.go: a failure is remembered for its lifetime, and pruning shows nowhere.
use repo_sync.Base.{ℕ, ◌+◌, ◌≤◌, ◌≡◌, refl, Option, none, some, List, [], ◌∷◌, arith, ◌==◌}
use repo_sync.Base.{nat_eq, list_eq, if◌then◌else◌, ltb}
use repo_sync.Base.Bytes.{Bytes}
use repo_sync.Base.Clock.{Time, Duration, before}
use repo_sync.Base.Dict.{
  lookup, NodupKeys, lookup-insert, lookup-erase, lookup-retain, insert-NodupKeys, erase-NodupKeys,
  retain-NodupKeys,
}
use repo_sync.Server.Failures.{FailureEntry, FailureCache, hit, add, sweep}

-- What `Hit` answers: the status of an entry that has not expired.
abbrev live : Time → Option FailureEntry → Option ℕ
live now none = none
live now (some e) = if before now e.expires then some e.status else none

abbrev pub answer : Bytes → Time → FailureCache → Option ℕ
answer key now c = (hit key now c).0

answer-eq-live :
    (key : Bytes) (now : Time) (c : FailureCache) → answer key now c ≡ live now (lookup key c)
unfolding hit
answer-eq-live key now c = ground arith

-- The calls of the server between two looks at the cache, each at its time.
pub data Call : Type 0 where
  hits : Bytes → Time → Call
  sweeps : Time → Call

unfoldable pub call : Call → FailureCache → FailureCache
call (hits key now) c = (hit key now c).1
call (sweeps now) c = sweep now c

abbrev pub time_of : Call → Time
time_of (hits key now) = now
time_of (sweeps now) = now

unfoldable pub call_all : List Call → FailureCache → FailureCache
unfolding call
call_all [] c = c
call_all (x ∷ xs) c = call_all xs (call x c)

abbrev pub AllBefore : Time → List Call → Type 0
AllBefore now [] = Unit
AllBefore now (x ∷ xs) = (time_of x ≤ now) × AllBefore now xs

call-NodupKeys : (x : Call) (c : FailureCache) → NodupKeys c → NodupKeys (call x c)
unfolding call hit sweep
call-NodupKeys (hits key now) c u = ground (arith, erase-NodupKeys key c u)
call-NodupKeys (sweeps now) c u = retain-NodupKeys _ c u

live-call :
    (key : Bytes) (now : Time) (x : Call) (c : FailureCache)
    → time_of x ≤ now
    → NodupKeys c
    → live now (lookup key (call x c)) ≡ live now (lookup key c)
unfolding call hit sweep
live-call key now (hits k t) c h u = ground (arith, lookup-erase key k c)
live-call key now (sweeps t) c h u =
    ground (arith, lookup-retain (λ _ e. before t e.expires) key c u)

live-call_all :
    (key : Bytes) (now : Time) (xs : List Call) (c : FailureCache)
    → AllBefore now xs
    → NodupKeys c
    → live now (lookup key (call_all xs c)) ≡ live now (lookup key c)
unfolding call_all
live-call_all key now [] c h u = refl
live-call_all key now (x ∷ xs) c h u = ground (
  arith,
  live-call_all key now xs (call x c) h.1 (call-NodupKeys x c u),
  live-call key now x c h.0 u,
)

-- After a failure is added, a look at a later time finds its status exactly until the lifetime is
-- over, and a look at another key finds what it found before, whatever looks and sweeps come between.
pub answer-add :
    (key k : Bytes) (status : ℕ) (then_ now : Time) (ttl : Duration) (xs : List Call)
    (c : FailureCache)
    → NodupKeys c
    → AllBefore now xs
    → answer k now (call_all xs (add key status then_ ttl c))
      ≡ (if k == key then (if ltb now (then_ + ttl) then some status else none) else answer k now c)
unfolding add
answer-add key k status then_ now ttl xs c u h =
    let e : FailureEntry = record { status = status; expires = then_ + ttl } in
    ground (
      arith,
      answer-eq-live k now (call_all xs (add key status then_ ttl c)),
      answer-eq-live k now c,
      live-call_all k now xs (add key status then_ ttl c) h (insert-NodupKeys key e c u),
      lookup-insert k key e c,
    )
