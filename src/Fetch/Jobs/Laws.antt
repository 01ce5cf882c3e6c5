-- ===== src/Fetch/Jobs/Laws.antt =====
-- fetch/fetch.go: what a pool of transfers leaves behind.
use repo_sync.Base.{Bool, true, false}
use repo_sync.Fetch.Jobs.{set_slot, many_step}
use repo_sync.Fetch.Download.{unchanged, fetched, staged}
use mathlib.Core.Path.{subst}
use repo_sync.Base.{zero, some_inj, sym, ap}
use repo_sync.Base.{
  ℕ, suc, ◌≡◌, ◌⊎◌, inl, inr, refl, ◌∙◌, false, Option, none, some, List, [], ◌∷◌, nat_eq, list_eq,
  get_elem?, arith, All, dec_eq,
}
use repo_sync.Base.Bytes.{Bytes}
use repo_sync.Base.Clock.{Time}
use repo_sync.Fetch.Download.{Expect, Digest, LocalFile, Slot, Outcome, done, failed, fetch_file}
use repo_sync.Fetch.Download.Laws.{Matches, Published, cleared_slot, fetch_file-Published}
use repo_sync.Fetch.Jobs.{
  Job, Tree, Transfers, Pool, job_missing, job_done, job_file, job_end, many,
}

-- The file at a path is the one that some job transferred there, and matches what that job wants.
pub record IsFetched (digest : Digest) (jobs : List Job) (path : Bytes) (f : LocalFile)
    : Type 0 where
  pub at : ℕ
  pub job : Job
  pub listed : get_elem? jobs at ≡ some job
  pub here : job.dst ≡ path
  pub want : Expect
  pub wanted : job.want ≡ some want
  pub matches : Matches digest want f

-- What is in place is the file of before, or one that was fetched.
abbrev pub OldOrFetched : Digest → List Job → Bytes → Option LocalFile → Option LocalFile → Type 0
OldOrFetched digest jobs path old new =
    (new ≡ old) ⊎ ((f : LocalFile) × (new ≡ some f) × IsFetched digest jobs path f)

job_done_tree :
    (now : Time) (idx : ℕ) (job : Job) (o : Outcome) (p : Pool)
    → (job_done now idx job o p).tree ≡ p.tree
unfolding job_done job_missing
job_done_tree now idx job (done s) p = refl
job_done_tree now idx job (failed e) p = ground arith

pub set_slot_self : (dst : Bytes) (slot : Slot) (tree : Tree) → set_slot dst slot tree dst ≡ slot
set_slot_self dst slot tree = ground arith

module _ (t : Transfers) (jobs : List Job) where
  -- Each job wants something known of its file.
  abbrev pub AreWanted : List Job → Type 0
  AreWanted js = All (λ (job : Job). (want : Expect) × (job.want ≡ some want)) js

  get_wanted :
      (js : List Job) (i : ℕ) (job : Job)
      → AreWanted js
      → get_elem? js i ≡ some job
      → (want : Expect) × (job.want ≡ some want)
  get_wanted [] i job h e = absurd (cc)
  get_wanted (j ∷ js) zero job h e = rw⁻¹ (some_inj e) (h.0)
  get_wanted (j ∷ js) (suc i) job h e = get_wanted js i job h.1 e

  abbrev Fetched : Bytes → Option LocalFile → Option LocalFile → Type 0
  Fetched path old new = OldOrFetched t.digest jobs path old new

  cleared_dst :
      (want : Expect) (stage : Bool) (slot : Slot)
      → (cleared_slot t.digest want stage slot).dst ≡ slot.dst
  cleared_dst want true slot = refl
  cleared_dst want false slot = refl

  of_Published :
      (want : Expect) (o : Outcome) (path : Bytes) (old new : Slot)
      → ((f : LocalFile) → Matches t.digest want f → IsFetched t.digest jobs path f)
      → Published t.digest want old new o
      → Fetched path old.dst new.dst
  of_Published want (failed e) path old new found h = inl h.0
  of_Published want (done unchanged) path old new found h = inl h.0
  of_Published want (done fetched) path old new found (f, at, still, m) = inr (f, at, found f m)
  of_Published want (done staged) path old new found (f, at, same, m) = inl same

  job_file-Fetched :
      (i : ℕ) (job : Job) (tree : Tree) (want : Expect)
      → get_elem? jobs i ≡ some job
      → job.want ≡ some want
      → Fetched job.dst (tree job.dst).dst ((job_file t job tree).1).dst
  unfolding job_file
  job_file-Fetched i job tree want at wanted =
      let slot = tree job.dst in
      let run = λ (w : Option Expect).
        fetch_file t.digest (t.ask job.req_path) (t.again job.req_path) t.live w job.stage t.verify
          false slot in
      subst (λ (r : Outcome × Slot). Fetched job.dst slot.dst (r.1).dst) (sym (ap run wanted))
        (subst (λ (d : Option LocalFile). Fetched job.dst d ((run (some want)).1).dst)
          (cleared_dst want job.stage slot)
          (of_Published want (run (some want)).0 job.dst (cleared_slot t.digest want job.stage slot)
            (run (some want)).1
            (λ f m. record {
              at = i;
              job = job;
              listed = at;
              here = refl;
              want = want;
              wanted = wanted;
              matches = m;
            })
            (fetch_file-Published t.digest want (t.ask job.req_path) (t.again job.req_path) t.live
              job.stage t.verify false slot)))

  job_end_tree :
      (now : Time) (idx : ℕ) (job : Job) (p : Pool)
      → (job_end t now idx job p).tree ≡ set_slot job.dst (job_file t job p.tree).1 p.tree
  unfolding job_end
  job_end_tree now idx job p = job_done_tree now idx job _ _

  job_end-Fetched :
      (now : Time) (idx : ℕ) (job : Job) (p : Pool) (path : Bytes)
      → AreWanted jobs
      → get_elem? jobs idx ≡ some job
      → Fetched path (p.tree path).dst ((job_end t now idx job p).tree path).dst
  job_end-Fetched now idx job p path wanted at =
      let (want, w) = get_wanted jobs idx job wanted at in
      let new = (job_file t job p.tree).1 in
      let slot_of = λ (tree : Tree). Fetched path (p.tree path).dst (tree path).dst in
      subst slot_of (sym (job_end_tree now idx job p)) (elim (dec_eq path job.dst) [
        | yes here ↦
            subst (λ q. Fetched q (p.tree q).dst (set_slot job.dst new p.tree q).dst) (sym here)
              (subst (λ (s : Slot). Fetched job.dst (p.tree job.dst).dst s.dst)
                (sym (set_slot_self job.dst new p.tree))
                (job_file-Fetched idx job p.tree want at w))
        | no other ↦ inl (ground arith)
      ])

  many_step-Fetched :
      (now : Time) (idx : ℕ) (o : Option Job) (p : Pool) (path : Bytes)
      → AreWanted jobs
      → get_elem? jobs idx ≡ o
      → Fetched path (p.tree path).dst ((many_step t now idx o p).tree path).dst
  unfolding many_step
  many_step-Fetched now idx none p path wanted at = inl refl
  many_step-Fetched now idx (some job) p path wanted at =
      job_end-Fetched now idx job p path wanted at

  Fetched-trans :
      (path : Bytes) (a b c : Option LocalFile)
      → Fetched path a b
      → Fetched path b c
      → Fetched path a c
  Fetched-trans path a b c h (inr k) = inr k
  Fetched-trans path a b c (inl h) (inl k) = inl (k ∙ h)
  Fetched-trans path a b c (inr (f, at, m)) (inl k) = inr (f, k ∙ at, m)

  -- Whatever the mirror sends, and in whatever order the jobs of a pool end: a file in place is the
  -- old one, or it was fetched for one of the jobs and matches what that job wants. Each job wants
  -- something known.
  pub many-OldOrFetched :
      (order : List (Time × ℕ)) (p : Pool) (path : Bytes)
      → AreWanted jobs
      → OldOrFetched t.digest jobs path (p.tree path).dst ((many t jobs order p).tree path).dst
  unfolding many
  many-OldOrFetched [] p path wanted = inl refl
  many-OldOrFetched ((now, idx) ∷ order) p path wanted =
      let q = many_step t now idx (get_elem? jobs idx) p in
      Fetched-trans path (p.tree path).dst (q.tree path).dst ((many t jobs order q).tree path).dst
        (many_step-Fetched now idx (get_elem? jobs idx) p path wanted refl)
        (many-OldOrFetched order q path wanted)
