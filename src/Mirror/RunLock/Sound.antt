-- ===== src/Mirror/RunLock/Sound.antt =====
-- mirror/sync.go: what the steps of `lockDestination` and `release` keep.
use repo_sync.Base.{
  ℕ, ◌≡◌, ◌≤◌, ◌<◌, refl, sym, ◌∙◌, Bool, true, false, Option, none, some, ◌==◌, nat_eq, get_elem?,
  arith, some_inj, dec_eq,
}
use repo_sync.Base.Counts.{bit, count, count-set_elem, get_elem-set_elem, count_two}
use repo_sync.Mirror.RunLock.{
  Phase, idle, opened, locked, trying, working, removed, gave_up, System, open_at, take_lock,
  close_file, same_file, remove_file, at, lock_of,
}

abbrev has : ℕ → Option ℕ → Bool
has n none = false
has n (some m) = m == n

abbrev pub owns : ℕ → Phase → Bool
owns n p = has n (lock_of p)

abbrev pub works : Phase → Option ℕ
works (working n) = some n
works idle = none
works (opened a n) = none
works (locked a n) = none
works (trying a) = none
works (removed n) = none
works gave_up = none

abbrev pub opens_at : Phase → Option ℕ
opens_at (opened a n) = some n
opens_at (working n) = none
opens_at idle = none
opens_at (locked a n) = none
opens_at (trying a) = none
opens_at (removed n) = none
opens_at gave_up = none

-- Each lock has the one run that took it, a run at work has the lock of the file at the path, and
-- inodes to come are not in use.
pub record IsSound (s : System) : Type 0 where
  pub owner : (n : ℕ) → bit (s.file.is_locked n) ≡ count (owns n) s.runs
  pub work :
      (i n : ℕ) (p : Phase) → get_elem? s.runs i ≡ some p → works p ≡ some n → s.file.path ≡ some n
  pub path : (n : ℕ) → s.file.path ≡ some n → n < s.file.fresh
  pub seen :
      (i n : ℕ) (p : Phase) → get_elem? s.runs i ≡ some p → opens_at p ≡ some n → n < s.file.fresh
  pub unused : (n : ℕ) → s.file.fresh ≤ n → s.file.is_locked n ≡ false

works-owns : (p : Phase) (n : ℕ) → works p ≡ some n → owns n p ≡ true
works-owns (working m) n w = ground arith
works-owns idle n w = absurd (cc)
works-owns (opened a m) n w = absurd (cc)
works-owns (locked a m) n w = absurd (cc)
works-owns (trying a) n w = absurd (cc)
works-owns (removed m) n w = absurd (cc)
works-owns gave_up n w = absurd (cc)

module _ (s : System) (h : IsSound s) (i : ℕ) where
  pub works_excludes :
      (j n m : ℕ) (p : Phase)
      → get_elem? s.runs i ≡ some (working n)
      → get_elem? s.runs j ≡ some p
      → works p ≡ some m
      → i ≡ j
  works_excludes j n m p here there w =
      let same : n ≡ m = some_inj (sym (h.work i n (working n) here refl) ∙ h.work j m p there w) in
      elim (dec_eq i j) [
        | yes e ↦ e
        | no other ↦
            let c =
              count_two (owns n) i j (working n) p s.runs here there (works-owns (working n) n refl)
                (rw same (works-owns p m w)) other in
            absurd (ground (arith, h.owner n))
      ]

  -- A step that leaves the file alone, to a phase that owns nothing.
  pub rests-IsSound :
      (q p : Phase)
      → get_elem? s.runs i ≡ some q
      → lock_of q ≡ none
      → lock_of p ≡ none
      → works p ≡ none
      → opens_at p ≡ none
      → IsSound (at i p s.file s)
  rests-IsSound q p here lq lp wp op = record {
    owner = λ n. ground (arith, h.owner n, count-set_elem (owns n) i p q s.runs here);
    work = λ j n r e w. ground (arith, h.work j n r, get_elem-set_elem i j p q s.runs here);
    path = h.path;
    seen = λ j n r e w. ground (arith, h.seen j n r, get_elem-set_elem i j p q s.runs here);
    unused = h.unused;
  }

  pub opens-IsSound :
      (a : ℕ) (o : Option ℕ)
      → get_elem? s.runs i ≡ some (trying a)
      → s.file.path ≡ o
      → IsSound (at i (opened a (open_at o s.file).0) (open_at o s.file).1 s)
  opens-IsSound a none here e =
      let p = opened a s.file.fresh in
      record {
        owner = λ n. ground (arith, h.owner n, count-set_elem (owns n) i p (trying a) s.runs here);
        work = λ j n r t w.
            ground (arith, h.work j n r, get_elem-set_elem i j p (trying a) s.runs here);
        path = λ n t. ground arith;
        seen = λ j n r t w.
            ground (arith, h.seen j n r, get_elem-set_elem i j p (trying a) s.runs here);
        unused = λ n t. ground (arith, h.unused n);
      }
  opens-IsSound a (some m) here e =
      let p = opened a m in
      record {
        owner = λ n. ground (arith, h.owner n, count-set_elem (owns n) i p (trying a) s.runs here);
        work = λ j n r t w.
            ground (arith, h.work j n r, get_elem-set_elem i j p (trying a) s.runs here);
        path = h.path;
        seen = λ j n r t w.
            ground (arith, h.path m, h.seen j n r, get_elem-set_elem i j p (trying a) s.runs here);
        unused = h.unused;
      }

  pub locks-IsSound :
      (a n : ℕ)
      → get_elem? s.runs i ≡ some (opened a n)
      → s.file.is_locked n ≡ false
      → IsSound (at i (locked a n) (take_lock n s.file) s)
  unfolding take_lock
  locks-IsSound a n here free =
      let p = locked a n in
      let q = opened a n in
      record {
        owner = λ m. ground (arith, h.owner m, count-set_elem (owns m) i p q s.runs here);
        work = λ j m r t w. ground (arith, h.work j m r, get_elem-set_elem i j p q s.runs here);
        path = h.path;
        seen = λ j m r t w. ground (arith, h.seen j m r, get_elem-set_elem i j p q s.runs here);
        unused = λ m t. ground (arith, h.unused m, h.seen i n q here refl);
      }

  pub holds-IsSound :
      (a n : ℕ)
      → get_elem? s.runs i ≡ some (locked a n)
      → same_file n s.file ≡ true
      → IsSound (at i (working n) s.file s)
  unfolding same_file
  holds-IsSound a n here same =
      let p = working n in
      let q = locked a n in
      record {
        owner = λ m. ground (arith, h.owner m, count-set_elem (owns m) i p q s.runs here);
        work = λ j m r t w. ground (arith, h.work j m r, get_elem-set_elem i j p q s.runs here);
        path = h.path;
        seen = λ j m r t w. ground (arith, h.seen j m r, get_elem-set_elem i j p q s.runs here);
        unused = h.unused;
      }

  -- The file that a run locked is closed.
  pub closes-IsSound :
      (n : ℕ) (q p : Phase)
      → get_elem? s.runs i ≡ some q
      → lock_of q ≡ some n
      → lock_of p ≡ none
      → works p ≡ none
      → opens_at p ≡ none
      → IsSound (at i p (close_file n s.file) s)
  unfolding close_file
  closes-IsSound n q p here lq lp wp op = record {
    owner = λ m. ground (
      arith,
      h.owner m,
      h.owner n,
      count-set_elem (owns m) i p q s.runs here,
      count-set_elem (owns n) i p q s.runs here,
    );
    work = λ j m r t w. ground (arith, h.work j m r, get_elem-set_elem i j p q s.runs here);
    path = h.path;
    seen = λ j m r t w. ground (arith, h.seen j m r, get_elem-set_elem i j p q s.runs here);
    unused = λ m t. ground (arith, h.unused m);
  }

  pub removes-IsSound :
      (n : ℕ) (disk_ok : Bool)
      → get_elem? s.runs i ≡ some (working n)
      → IsSound (at i (removed n) (remove_file disk_ok s.file) s)
  unfolding remove_file
  removes-IsSound n disk_ok here =
      let p = removed n in
      let q = working n in
      record {
        owner = λ m. ground (arith, h.owner m, count-set_elem (owns m) i p q s.runs here);
        work = λ j m r t w.
            ground (arith, works_excludes j n m r here, get_elem-set_elem i j p q s.runs here);
        path = λ m t. ground (arith, h.path m);
        seen = λ j m r t w. ground (arith, h.seen j m r, get_elem-set_elem i j p q s.runs here);
        unused = λ m t. ground (arith, h.unused m);
      }
