-- ===== src/Mirror/Rpm/Select/Laws.antt =====
-- mirror/rpm.go: the metadata of a repository names no file outside its directory.
use mathlib.Core.Path.{subst}
use repo_sync.Base.{sym, ◌∙◌, Bool-cases, inl, inr}
use repo_sync.Base.{
  ◌≡◌, refl, Bool, true, false, Option, none, some, List, [], ◌∷◌, ◌++◌, ◌==◌, nat_eq, list_eq,
  arith, All, some_inj,
}
use repo_sync.Base.Bytes.{Bytes, lit, has_prefix}
use repo_sync.Base.Paths.{clean_segments, join_rooted}
use repo_sync.Base.Paths.Laws.{AreSegments}
use repo_sync.Fetch.LocalPath.{local_join}
use repo_sync.Fetch.LocalPath.Laws.{local_join_lem, below}
use repo_sync.Fetch.Jobs.{Job}
use repo_sync.Mirror.Rpm.Select.{
  RepoFile, RepoData, job_at, add_job, file_jobs, metadata_jobs, add_metadata, is_named, is_parsed,
}

-- A path of the root's segments and then some without dots.
abbrev pub IsUnder : Bytes → Bytes → Type 0
IsUnder dest path =
    (segs : List Bytes) × (path ≡ join_rooted (clean_segments true dest ++ segs)) × AreSegments segs

abbrev pub AreUnder : Bytes → List Job → Type 0
AreUnder dest jobs = All (λ (job : Job). IsUnder dest job.dst) jobs

module _ (dest : Bytes) (absolute : has_prefix dest (lit "/") ≡ true) where
  joined-IsUnder : (rel path : Bytes) → local_join dest rel ≡ some path → IsUnder dest path
  joined-IsUnder rel path h =
      let j = local_join_lem dest rel absolute in
      (below dest rel absolute, some_inj (sym h ∙ j.0), j.2)

  add_job-AreUnder :
      (f : RepoFile) (o : Option Bytes) (stage : Bool) (rest : Option (List Job)) (jobs : List Job)
      → ((path : Bytes) → o ≡ some path → IsUnder dest path)
      → ((js : List Job) → rest ≡ some js → AreUnder dest js)
      → add_job o f stage rest ≡ some jobs
      → AreUnder dest jobs
  add_job-AreUnder f none stage rest jobs here h e = absurd (cc)
  add_job-AreUnder f (some dst) stage none jobs here h e = absurd (cc)
  add_job-AreUnder f (some dst) stage (some js) jobs here h e =
      subst (AreUnder dest) (some_inj e) (here dst refl, h js refl)

  -- The jobs of packages and deltas.
  pub file_jobs-AreUnder :
      (files : List RepoFile) (jobs : List Job)
      → file_jobs dest files ≡ some jobs
      → AreUnder dest jobs
  unfolding file_jobs
  file_jobs-AreUnder [] jobs e = subst (AreUnder dest) (some_inj e) tt
  file_jobs-AreUnder (f ∷ fs) jobs e = elim (Bool-cases (f.href == [])) [
    | inl empty ↦ file_jobs-AreUnder fs jobs (ground (arith, e, empty))
    | inr named ↦
        add_job-AreUnder f (local_join dest f.href) false (file_jobs dest fs) jobs
          (joined-IsUnder f.href) (file_jobs-AreUnder fs) (ground (arith, e, named))
  ]

  abbrev BothUnder : List Job × List Job → Type 0
  BothUnder r = AreUnder dest r.0 × AreUnder dest r.1

  add_metadata-BothUnder :
      (dry : Bool) (d : RepoData) (o : Option Bytes) (rest : Option (List Job × List Job))
      (r : List Job × List Job)
      → ((path : Bytes) → o ≡ some path → IsUnder dest path)
      → ((s : List Job × List Job) → rest ≡ some s → BothUnder s)
      → add_metadata dry d o rest ≡ some r
      → BothUnder r
  add_metadata-BothUnder dry d none rest r here h e = absurd (cc)
  add_metadata-BothUnder dry d (some dst) none r here h e = absurd (cc)
  add_metadata-BothUnder false d (some dst) (some (jobs, planned)) r here h e =
      let (k, l) = h (jobs, planned) refl in subst BothUnder (some_inj e) ((here dst refl, k), l)
  add_metadata-BothUnder true d (some dst) (some (jobs, planned)) r here h e =
      let (k, l) = h (jobs, planned) refl in
      elim (Bool-cases (is_parsed d)) [
        | inl parsed ↦
            let same : some (job_at d.file true dst ∷ jobs, planned) ≡ some r =
              ground (arith, e, parsed) in
            subst BothUnder (some_inj same) ((here dst refl, k), l)
        | inr counted ↦
            let same : some (jobs, job_at d.file false dst ∷ planned) ≡ some r =
              ground (arith, e, counted) in
            subst BothUnder (some_inj same) (k, (here dst refl, l))
      ]

  -- The jobs of the metadata itself.
  pub metadata_jobs-BothUnder :
      (dry : Bool) (ds : List RepoData) (r : List Job × List Job)
      → metadata_jobs dry dest ds ≡ some r
      → BothUnder r
  unfolding metadata_jobs
  metadata_jobs-BothUnder dry [] r e = subst BothUnder (some_inj e) (tt, tt)
  metadata_jobs-BothUnder dry (d ∷ ds) r e = elim (Bool-cases (is_named d)) [
    | inr empty ↦ metadata_jobs-BothUnder dry ds r (ground (arith, e, empty))
    | inl named ↦
        add_metadata-BothUnder dry d (local_join dest d.file.href) (metadata_jobs dry dest ds) r
          (joined-IsUnder d.file.href) (metadata_jobs-BothUnder dry ds) (ground (arith, e, named))
  ]
