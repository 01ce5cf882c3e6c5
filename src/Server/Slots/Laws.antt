-- ===== src/Server/Slots/Laws.antt =====
-- server/crawl_loop.go: crawls of one resource are dispatched one at a time, and slots bound all crawls.
use repo_sync.Base.{inl, inr, Bool-cases}
use repo_sync.Base.{Bool-cases}
use repo_sync.Base.{
  ℕ, ◌≡◌, ◌≤◌, ◌<◌, refl, Bool, true, false, ◌==◌, list_eq, nat_eq, some, get_elem?, arith,
}
use repo_sync.Base.Bytes.{Bytes}
use repo_sync.Base.Counts.{bit, count, count-set_elem}
use repo_sync.Server.Slots.{
  Phase, queued, running, released, asking, serving, ended, Crawls, start_crawl, end_crawl,
  acquire_crawl_slot, release_crawl_slot, Acquires, Releases, Step, dispatch, protect, acquire,
  release, finish, reload, Reach, start, later,
}

-- A goroutine that holds a slot.
abbrev pub has_slot : Phase → Bool
has_slot (queued key) = false
has_slot (running key) = true
has_slot (released key) = false
has_slot asking = false
has_slot serving = true
has_slot ended = false

-- A goroutine that a crawl of a key was dispatched to.
abbrev pub crawls : Bytes → Phase → Bool
crawls key (queued k) = k == key
crawls key (running k) = k == key
crawls key (released k) = k == key
crawls key asking = false
crawls key serving = false
crawls key ended = false

record IsSound (most : ℕ) (s : Crawls) : Type 0 where
  limit : s.limit ≤ most
  bound : s.slots_in_use ≤ most
  slots : s.slots_in_use ≡ count has_slot s.threads
  inflight : (key : Bytes) → bit (s.inflight key) ≡ count (crawls key) s.threads

module _ (most : ℕ) (s : Crawls) (h : IsSound most s) where
  acquire-IsSound :
      (i : ℕ) (p q : Phase)
      → get_elem? s.threads i ≡ some p
      → Acquires p q
      → s.slots_in_use < s.limit
      → IsSound most (acquire_crawl_slot i q s)
  unfolding acquire_crawl_slot
  acquire-IsSound i p q at (Acquires.crawl key) free =
      let c = count-set_elem has_slot i (running key) (queued key) s.threads at in
      record {
        limit = h.limit;
        bound = omega (arith, h.limit);
        slots = omega (arith, h.slots);
        inflight = λ k. ground (
          arith,
          h.inflight k,
          count-set_elem (crawls k) i (running key) (queued key) s.threads at,
        );
      }
  acquire-IsSound i p q at Acquires.request free =
      let c = count-set_elem has_slot i serving asking s.threads at in
      record {
        limit = h.limit;
        bound = omega (arith, h.limit);
        slots = omega (arith, h.slots);
        inflight = λ k.
            ground (arith, h.inflight k, count-set_elem (crawls k) i serving asking s.threads at);
      }

  release-IsSound :
      (i : ℕ) (p q : Phase)
      → get_elem? s.threads i ≡ some p
      → Releases p q
      → IsSound most (release_crawl_slot i q s)
  unfolding release_crawl_slot
  release-IsSound i p q at (Releases.crawl key) =
      let c = count-set_elem has_slot i (released key) (running key) s.threads at in
      record {
        limit = h.limit;
        bound = omega (arith, h.bound);
        slots = omega (arith, h.slots);
        inflight = λ k. ground (
          arith,
          h.inflight k,
          count-set_elem (crawls k) i (released key) (running key) s.threads at,
        );
      }
  release-IsSound i p q at Releases.request =
      let c = count-set_elem has_slot i ended serving s.threads at in
      record {
        limit = h.limit;
        bound = omega (arith, h.bound);
        slots = omega (arith, h.slots);
        inflight = λ k.
            ground (arith, h.inflight k, count-set_elem (crawls k) i ended serving s.threads at);
      }

  finish-IsSound :
      (i : ℕ) (key : Bytes)
      → get_elem? s.threads i ≡ some (released key)
      → IsSound most (end_crawl i key s)
  unfolding end_crawl
  finish-IsSound i key at = record {
    limit = h.limit;
    bound = h.bound;
    slots = ground (arith, h.slots, count-set_elem has_slot i ended (released key) s.threads at);
    inflight = λ k. ground (
      arith,
      h.inflight k,
      h.inflight key,
      count-set_elem (crawls k) i ended (released key) s.threads at,
    );
  }

  start_crawl-IsSound : (key : Bytes) → IsSound most (start_crawl key s)
  unfolding start_crawl count
  start_crawl-IsSound key = elim (Bool-cases (s.inflight key)) [
    | inl known ↦ rw known h
    | inr new ↦ simp new (record {
      limit = h.limit;
      bound = h.bound;
      slots = ground (arith, h.slots);
      inflight = λ k. ground (arith, h.inflight k, h.inflight key);
    })
  ]

  step-IsSound : (t : Crawls) → Step most s t → IsSound most t
  unfolding count
  step-IsSound t (dispatch key) = start_crawl-IsSound key
  step-IsSound t protect = record {
    limit = h.limit;
    bound = h.bound;
    slots = ground (arith, h.slots);
    inflight = λ k. ground (arith, h.inflight k);
  }
  step-IsSound t (acquire i p q at a free) = acquire-IsSound i p q at a free
  step-IsSound t (release i p q at r) = release-IsSound i p q at r
  step-IsSound t (finish i key at) = finish-IsSound i key at
  step-IsSound t (reload n fits) = record {
    limit = fits;
    bound = h.bound;
    slots = h.slots;
    inflight = h.inflight;
  }

Reach-IsSound : (most : ℕ) (s : Crawls) → Reach most s → IsSound most s
unfolding count
Reach-IsSound most s (start limit fits) = record {
  limit = fits;
  bound = omega arith;
  slots = refl;
  inflight = λ key. refl;
}
Reach-IsSound most s (later {s = r} before step) =
    step-IsSound most r (Reach-IsSound most r before) s step

-- However goroutines interleave and whichever limits up to `most` reloads set, at most that many crawls
-- and requests hold a slot, and at most one dispatched crawl of each resource exists.
pub crawls_bounded :
    (most : ℕ) (s : Crawls) (key : Bytes)
    → Reach most s
    → (count has_slot s.threads ≤ most) × (count (crawls key) s.threads ≤ 1)
crawls_bounded most s key reach =
    let h = Reach-IsSound most s reach in
    (omega (arith, h.bound, h.slots), ground (arith, h.inflight key))
