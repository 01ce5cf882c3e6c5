-- ===== src/Fetch/Jobs/Complete.antt =====
-- fetch/fetch.go: a pool without an error has each file that it had to fetch.
use mathlib.Core.Path.{subst}
use repo_sync.Fetch.Jobs.{set_slot}
use repo_sync.Base.{
  some_inj, ap, ◌∙◌, ℕ, ◌≡◌, ◌≢◌, ◌⊎◌, inl, inr, true, false, Option, none, some, List, [], ◌∷◌,
  nat_eq, list_eq, get_elem?, arith,
}
use repo_sync.Base.Bytes.{Bytes}
use repo_sync.Base.Clock.{Time}
use repo_sync.Base.Dict.{lookup, lookup-insert}
use repo_sync.Fetch.Prune.{keep_add, keep_has}
use repo_sync.Fetch.Missing.{tolerate_opt}
use repo_sync.Fetch.Download.{Outcome, done, failed}
use repo_sync.Fetch.Jobs.{
  Job, Transfers, Pool, job_missing, job_done, job_end, job_file, many_step, many,
}

-- What later ends of jobs keep of a pool without a tracker of missing files.
record Keeps (p q : Pool) : Type 0 where
  miss : p.miss ≡ none → q.miss ≡ none
  keep : p.keep ≢ none → q.keep ≢ none
  unkept : q.keep ≢ none → p.keep ≢ none
  kept : (path : Bytes) → keep_has p.keep path ≡ true → keep_has q.keep path ≡ true
  state : (i : ℕ) → lookup i p.states ≢ none → lookup i q.states ≢ none
  error : q.error ≡ none → p.error ≡ none

job_done-Keeps :
    (now : Time) (idx : ℕ) (job : Job) (o : Outcome) (p : Pool) → Keeps p (job_done now idx job o p)
unfolding job_done job_missing tolerate_opt keep_add keep_has
job_done-Keeps now idx job (done s) p = record {
  miss = λ h. h;
  keep = λ h. ground arith;
  unkept = λ h. ground arith;
  kept = λ path h. ground arith;
  state = λ i h. ground (arith, lookup-insert i idx s p.states);
  error = λ h. h;
}
job_done-Keeps now idx job (failed e) p = record {
  miss = λ h. ground arith;
  keep = λ h. ground arith;
  unkept = λ h. ground arith;
  kept = λ path h. ground arith;
  state = λ i h. ground arith;
  error = λ h. ground arith;
}

Keeps-refl : (p : Pool) → Keeps p p
Keeps-refl p = record {
  miss = λ h. h;
  keep = λ h. h;
  unkept = λ h. h;
  kept = λ a h. h;
  state = λ i h. h;
  error = λ h. h;
}

Keeps-trans : (p q r : Pool) → Keeps p q → Keeps q r → Keeps p r
Keeps-trans p q r h k = record {
  miss = λ m. k.miss (h.miss m);
  keep = λ m. k.keep (h.keep m);
  unkept = λ m. h.unkept (k.unkept m);
  kept = λ a m. k.kept a (h.kept a m);
  state = λ i m. k.state i (h.state i m);
  error = λ m. h.error (k.error m);
}

-- A file that had to be fetched is in the keep set, and the pool has its state.
pub record IsComplete (job : Job) (idx : ℕ) (p : Pool) : Type 0 where
  pub has_state : lookup idx p.states ≢ none
  pub is_kept : keep_has p.keep job.dst ≡ true

-- The pool has the file's state, and the keep set, if there is one, has the file.
pub record HasEnded (job : Job) (idx : ℕ) (p : Pool) : Type 0 where
  pub has_state : lookup idx p.states ≢ none
  pub is_kept : p.keep ≢ none → keep_has p.keep job.dst ≡ true

job_done-HasEnded :
    (now : Time) (idx : ℕ) (job : Job) (o : Outcome) (p : Pool)
    → p.miss ≡ none
    → job.optional ≡ false
    → (job_done now idx job o p).error ≡ none
    → HasEnded job idx (job_done now idx job o p)
unfolding job_done job_missing tolerate_opt keep_add keep_has
job_done-HasEnded now idx job (done s) p m r e = record {
  has_state = ground (arith, lookup-insert idx idx s p.states);
  is_kept = λ k. ground arith;
}
job_done-HasEnded now idx job (failed e) p m r h = absurd (ground arith)

module _ (t : Transfers) (jobs : List Job) where
  many_step-Keeps :
      (now : Time) (idx : ℕ) (o : Option Job) (p : Pool) → Keeps p (many_step t now idx o p)
  unfolding many_step job_end
  many_step-Keeps now idx none p = Keeps-refl p
  many_step-Keeps now idx (some job) p =
      let r = job_file t job p.tree in
      let h = job_done-Keeps now idx job r.0 (record p { tree = set_slot job.dst r.1 p.tree }) in
      record {
        miss = h.miss;
        keep = h.keep;
        unkept = h.unkept;
        kept = h.kept;
        state = h.state;
        error = h.error;
      }

  many-Keeps : (order : List (Time × ℕ)) (p : Pool) → Keeps p (many t jobs order p)
  unfolding many
  many-Keeps [] p = Keeps-refl p
  many-Keeps ((now, idx) ∷ order) p =
      let q = many_step t now idx (get_elem? jobs idx) p in
      Keeps-trans p q (many t jobs order q) (many_step-Keeps now idx (get_elem? jobs idx) p)
        (many-Keeps order q)

  many_step-HasEnded :
      (now : Time) (idx : ℕ) (o : Option Job) (job : Job) (p : Pool)
      → o ≡ some job
      → p.miss ≡ none
      → job.optional ≡ false
      → (many_step t now idx o p).error ≡ none
      → HasEnded job idx (many_step t now idx o p)
  unfolding many_step job_end
  many_step-HasEnded now idx none job p at m r e = absurd (cc)
  many_step-HasEnded now idx (some j) job p at m r e =
      subst (λ (i : Job). HasEnded i idx (many_step t now idx (some j) p)) (some_inj at)
        (let f = job_file t j p.tree in
          let c =
            job_done-HasEnded now idx j f.0 (record p { tree = set_slot j.dst f.1 p.tree }) m
              (rw (some_inj at) r) e in
          record { has_state = c.has_state; is_kept = c.is_kept })

  abbrev pub Ended : List (Time × ℕ) → ℕ → Type 0
  Ended [] idx = ⊥
  Ended ((now, i) ∷ order) idx = (i ≡ idx) ⊎ Ended order idx

  -- The same of a pool that may have no keep set: the job has its state, and a keep set has its file.
  pub many-HasEnded :
      (order : List (Time × ℕ)) (p : Pool) (idx : ℕ) (job : Job)
      → Ended order idx
      → get_elem? jobs idx ≡ some job
      → job.optional ≡ false
      → p.miss ≡ none
      → (many t jobs order p).error ≡ none
      → HasEnded job idx (many t jobs order p)
  unfolding many
  many-HasEnded [] p idx job ended at r m e = absurd ended
  many-HasEnded ((now, i) ∷ order) p idx job (inr ended) at r m e =
      let q = many_step t now i (get_elem? jobs i) p in
      let h = many_step-Keeps now i (get_elem? jobs i) p in
      many-HasEnded order q idx job ended at r (h.miss m) e
  many-HasEnded ((now, i) ∷ order) p idx job (inl same) at r m e =
      let q = many_step t now i (get_elem? jobs i) p in
      let rest = many-Keeps order q in
      let c =
        many_step-HasEnded now i (get_elem? jobs i) job p (ap (get_elem? jobs) same ∙ at) m r
          (rest.error e) in
      subst (λ n. HasEnded job n (many t jobs order q)) same
        (record {
          has_state = rest.state i c.has_state;
          is_kept = λ k. rest.kept job.dst (c.is_kept (rest.unkept k));
        })

  -- Without a tracker of missing files, a pool that reports no error has fetched or found each file
  -- that is not optional and whose job ended, and the keep set has it.
  pub many-IsComplete :
      (order : List (Time × ℕ)) (p : Pool) (idx : ℕ) (job : Job)
      → Ended order idx
      → get_elem? jobs idx ≡ some job
      → job.optional ≡ false
      → p.miss ≡ none
      → p.keep ≢ none
      → (many t jobs order p).error ≡ none
      → IsComplete job idx (many t jobs order p)
  many-IsComplete order p idx job ended at r m k e =
      let c = many-HasEnded order p idx job ended at r m e in
      record { has_state = c.has_state; is_kept = c.is_kept ((many-Keeps order p).keep k) }
