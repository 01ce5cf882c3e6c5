-- ===== src/Server/Handler/Laws.antt =====
-- server/serve.go: what a request for an entry point is served under a signature policy.
use repo_sync.Base.{◌∷◌}
use repo_sync.Config.{DomainConfig, role_online}
use repo_sync.Server.Classify.{classify_request}
use repo_sync.Server.Serve.{not_found_error}
use repo_sync.Base.Paths.{clean}
use repo_sync.Base.Bytes.{trim_prefix, has_suffix}
use repo_sync.Server.Handler.{serve_domain, serve_role}
use repo_sync.Server.Serve.{not_found_error}
use repo_sync.Server.Classify.{classify_request}
use repo_sync.Config.{DomainConfig}
use repo_sync.Base.Bytes.{has_suffix}
use repo_sync.Base.{
  ◌≡◌, Bool, true, false, ◌||◌, Option, none, some, ◌==◌, nat_eq, list_eq, if◌then◌else◌, arith,
}
use repo_sync.Base.Bytes.{Bytes, lit}
use repo_sync.Base.Clock.{Time}
use repo_sync.State.{kind_generic}
use repo_sync.Server.Classify.{Resource}
use repo_sync.Server.Upstream.{serve_local}
use repo_sync.Server.Protect.{is_protected, protected_repository_kind}
use repo_sync.Server.Serve.{Response, World, Site}
use repo_sync.Server.Serve.Generic.Laws.{is_file}
use repo_sync.Server.Serve.Online.{handle_online, handle_local}
use repo_sync.Server.Serve.Online.Laws.{Verified, serve_entry_point-Verified}

protected_kind :
    (kind : Bytes) → protected_repository_kind kind ≡ true → (kind == kind_generic) ≡ false
unfolding protected_repository_kind nat_eq list_eq
protected_kind kind h = ground arith

module _ (c : Site) (now : Time) (root req_path : Bytes) (res : Resource) (w : World) where
  choose_entry :
      (generic : Bool) (x y : Response × World)
      → generic ≡ false
      → (is_file y.0 ≡ true → Verified c res w.tree y.1)
      → let a = if generic then x else y in is_file a.0 ≡ true → Verified c res w.tree a.1
  choose_entry true x y h k file = absurd (cc)
  choose_entry false x y h k file = k file

  handle_local-Verified :
      (o : Option Bytes)
      → is_protected c.conf res.kind ≡ true
      → let a = handle_local c now root req_path false res o w in
        is_file a.0 ≡ true → Verified c res w.tree a.1
  unfolding is_protected
  handle_local-Verified none active file = absurd (cc)
  handle_local-Verified (some local) active file =
      let generic = protected_kind res.kind (ground arith) in
      choose_entry _ _ _ generic (serve_entry_point-Verified c now root req_path res local w active)
        file

  handle_online-Verified :
      (dir : Bool)
      → dir ≡ false
      → is_protected c.conf res.kind ≡ true
      → let a = handle_online c now root req_path dir res w in
        is_file a.0 ≡ true → Verified c res w.tree a.1
  unfolding handle_online
  handle_online-Verified true h active file = absurd (cc)
  handle_online-Verified false h active file =
      handle_local-Verified (serve_local root req_path false) active file

  choose_online :
      (online : Bool) (x y : Response × World)
      → online ≡ true
      → (is_file x.0 ≡ true → Verified c res w.tree x.1)
      → let a = if online then x else y in is_file a.0 ≡ true → Verified c res w.tree a.1
  choose_online true x y h k file = k file
  choose_online false x y h k file = absurd (cc)

-- What a request is cleaned to, and whether it is for a directory.
abbrev pub req_path_of : Bytes → Bytes
req_path_of url_path = clean (b'/' ∷ trim_prefix url_path (lit "/"))

abbrev pub is_dir_of : Bytes → Bool
is_dir_of url_path = has_suffix url_path (lit "/") || req_path_of url_path == lit "/"

module _ (c : Site) (now : Time) (domain : DomainConfig) (url_path : Bytes) (w : World) where
  abbrev Safe : Response × World → Type 0
  Safe a = is_file a.0 ≡ true → Verified c (classify_request (req_path_of url_path)) w.tree a.1

  choose_file :
      (internal dir : Bool) (x y : Response × World)
      → dir ≡ false
      → Safe y
      → Safe (if internal then (not_found_error, w) else if dir then x else y)
  choose_file true dir x y h k file = absurd (cc)
  choose_file false true x y h k file = absurd (cc)
  choose_file false false x y h k file = k file

  -- A request to a domain of the online role, for a file, whose path classifies as an entry point of a
  -- repository that the signature policy protects, is answered with a file only if the state records the
  -- active policy for the repository, and the files are those of before and hold the entry points that
  -- the policy needs, or they are what a crawl of this request left that ended without an error.
  pub serve_domain-Verified :
      domain.role ≡ role_online
      → is_dir_of url_path ≡ false
      → is_protected c.conf (classify_request (req_path_of url_path)).kind ≡ true
      → let a = serve_domain c now domain url_path w in
        is_file a.0 ≡ true → Verified c (classify_request (req_path_of url_path)) w.tree a.1
  unfolding serve_domain serve_role
  serve_domain-Verified online file active =
      let req_path = req_path_of url_path in
      let res = classify_request req_path in
      choose_file _ (is_dir_of url_path) _ _ file (
        choose_online c now domain.root req_path res w (domain.role == role_online) _ _
          (ground arith)
          (handle_online-Verified c now domain.root req_path res w (is_dir_of url_path) file
            active))
