-- ===== src/Server/Upstream/Laws.antt =====
-- server/serve.go: a retrieval on demand loses no copy.
use repo_sync.Fetch.Download.{again_after}
use mathlib.Core.Path.{subst}
use repo_sync.Fetch.Jobs.Laws.{set_slot_self}
use repo_sync.Base.{
  ◌≡◌, refl, sym, Bool, true, false, Option, none, some, nat_eq, list_eq, if◌then◌else◌, arith,
}
use repo_sync.Base.Bytes.{Bytes}
use repo_sync.Config.{Config, MountConfig, mount_for}
use repo_sync.Fetch.Download.{
  Digest, LocalFile, Slot, Reply, refused, not_modified, body, Outcome, done, failed, Request,
  fetch_file, download, receive, place, settle, resume_offset, revalidate,
}
use repo_sync.Fetch.Jobs.{Tree}
use repo_sync.Server.Upstream.{
  is_there, serve_local, Upstreams, ServeError, error_of, fetch_from, fetch_through, fetch_upstream,
  behind_mount,
}

abbrev pub is_error : Option ServeError → Bool
is_error none = false
is_error (some e) = true

-- An error changes no file, and a file that was there still is.
pub record IsKept (old new : Option LocalFile) (error : Option ServeError) : Type 0 where
  pub failed : is_error error ≡ true → new ≡ old
  pub kept : is_there old ≡ true → is_there new ≡ true

receive-IsKept :
    (digest : Digest) (slot : Slot) (r : Reply)
    → let x = receive digest none false 0 slot r in IsKept slot.dst (x.1).dst (error_of x.0)
unfolding receive place settle
receive-IsKept digest slot (refused e) = record { failed = λ h. refl; kept = λ h. h }
receive-IsKept digest slot not_modified = record { failed = λ h. refl; kept = λ h. h }
receive-IsKept digest slot (body part bytes false ok t) = record {
  failed = λ h. refl;
  kept = λ h. h;
}
receive-IsKept digest slot (body part bytes true false t) = record {
  failed = λ h. refl;
  kept = λ h. h;
}
receive-IsKept digest slot (body part bytes true true t) = record {
  failed = λ h. absurd (ground arith);
  kept = λ h. refl;
}

no_again : (live : Bool) (o : Outcome) → again_after 0 live o ≡ false
no_again live (done s) = refl
no_again live (failed e) = ground arith

abbrev pub Kept : Slot → Outcome × Slot → Type 0
Kept slot x = IsKept slot.dst (x.1).dst (error_of x.0)

second_choice :
    (slot : Slot) (c : Bool) (x y : Outcome × Slot)
    → c ≡ false
    → Kept slot y
    → Kept slot (if c then x else y)
second_choice slot true x y h k = absurd (cc)
second_choice slot false x y h k = k

file-IsKept :
    (digest : Digest) (ask again : Request) (slot : Slot)
    → Kept slot (fetch_file digest ask again true none false false false slot)
unfolding fetch_file download resume_offset
file-IsKept digest ask again slot =
    second_choice slot _ _ _ (no_again true _)
      (receive-IsKept digest slot (ask (revalidate none false slot) 0))

abbrev pub KeptAt : Bytes → Tree → Option ServeError × Tree → Type 0
KeptAt local tree x = IsKept (tree local).dst (x.1 local).dst x.0

fetch_from-IsKept :
    (u : Upstreams) (mount : MountConfig) (rel dst : Bytes) (tree : Tree)
    → KeptAt dst tree (fetch_from u mount rel dst tree)
unfolding fetch_from
fetch_from-IsKept u mount rel dst tree =
    let run =
      fetch_file u.digest (u.ask mount.upstream rel) (u.again mount.upstream rel) true none false
        false false (tree dst) in
    subst (λ (s : Slot). IsKept (tree dst).dst s.dst (error_of run.0))
      (sym (set_slot_self dst run.1 tree))
      (file-IsKept u.digest (u.ask mount.upstream rel) (u.again mount.upstream rel) (tree dst))

fetch_through-IsKept :
    (u : Upstreams) (o : Option MountConfig) (root req_path local : Bytes) (tree : Tree)
    → serve_local root req_path false ≡ some local
    → KeptAt local tree (fetch_through u o root req_path false tree)
fetch_through-IsKept u none root req_path local tree at = record {
  failed = λ h. refl;
  kept = λ h. h;
}
fetch_through-IsKept u (some mount) root req_path local tree at =
    rw at (fetch_from-IsKept u mount (behind_mount mount req_path false) local tree)

-- For the local file of the request.
pub fetch_upstream-IsKept :
    (u : Upstreams) (conf : Config) (root req_path local : Bytes) (tree : Tree)
    → serve_local root req_path false ≡ some local
    → KeptAt local tree (fetch_upstream u conf root req_path false tree)
unfolding fetch_upstream
fetch_upstream-IsKept u conf root req_path local tree at =
    fetch_through-IsKept u (mount_for conf req_path) root req_path local tree at
