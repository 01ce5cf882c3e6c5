-- ===== src/Server/Serve/Online/Laws.antt =====
-- server/serve.go: what is served under a signature policy.
use repo_sync.Base.{
  ◌≡◌, ◌⊎◌, inl, inr, refl, sym, Bool, true, false, ◌&&◌, Option, none, some, ◌==◌, nat_eq, list_eq,
  if◌then◌else◌, arith, Bool-cases, Option-cases,
}
use repo_sync.Base.Bytes.{Bytes}
use repo_sync.Base.Clock.{Time}
use repo_sync.Base.Dict.{lookup, lookup-insert}
use repo_sync.State.{
  Entry, Store, mark_requested, mark_crawled, mark_signature_policy, entry, crawled,
}
use repo_sync.Fetch.Jobs.{Tree}
use repo_sync.Server.Classify.{Resource}
use repo_sync.Server.Upstream.{regular_file}
use repo_sync.Server.Protect.{
  SignatureSettings, load_signature_settings, is_protected, is_verified,
  signature_policy_artifacts_present, CrawlError, text_of, mark_verified, crawl_with,
  crawl_protected_repository,
}
use repo_sync.Server.Serve.{Response, World, Site, write_fetch_error, set_store}
use repo_sync.Server.Serve.Generic.Laws.{is_file}
use repo_sync.Server.Serve.Online.{
  crawl_for, crawl_outcome, finish_entry, after_contact, succeeded, mode_of, policy_is,
  serve_protected, serve_entry_point,
}

-- The state records a policy as verified for a resource.
abbrev pub HasPolicy : Bytes → Bytes → Store → Type 0
HasPolicy key policy s =
    (e : Entry) × (lookup key s.entries ≡ some e) × (e.signature_policy ≡ policy)

-- The state records the active policy for the repository, as an earlier crawl or that of this request
-- left it, and the entry points of before are still there, or the crawl of this request succeeded.
pub record Verified (c : Site) (res : Resource) (old : Tree) (w : World) : Type 0 where
  pub settings : SignatureSettings
  pub loaded : load_signature_settings c.conf c.keys ≡ some settings
  pub policy : HasPolicy res.key settings.policy w.store
  pub files :
      ((w.tree ≡ old)
        × (signature_policy_artifacts_present c.online_root res settings.mode old ≡ true))
      ⊎ (((c.dispatch res settings old).0 ≡ none) × (w.tree ≡ (c.dispatch res settings old).1))

lookup-mark_crawled :
    (c : Site) (key : Bytes) (now : Time) (error : Option Bytes) (s : Store) (e : Entry)
    → lookup key s.entries ≡ some e
    → lookup key (mark_crawled c.conf key now error s).entries ≡ some (crawled c.conf now error e)
unfolding mark_crawled
lookup-mark_crawled c key now error s e at =
    ground (arith, lookup-insert key key (crawled c.conf now error e) s.entries)

mark-HasPolicy :
    (key policy : Bytes) (s : Store) (e : Entry)
    → lookup key s.entries ≡ some e
    → HasPolicy key policy (mark_signature_policy key policy s)
unfolding mark_signature_policy
mark-HasPolicy key policy s e at =
    let e' = record e { signature_policy = policy } in
    elim (Bool-cases (e.signature_policy == policy)) [
      | inl same ↦ (e, ground arith, ground arith)
      | inr other ↦ (e', ground (arith, lookup-insert key key e' s.entries), refl)
    ]

entry-HasPolicy :
    (key policy : Bytes) (s : Store)
    → is_verified policy (entry key s) ≡ true
    → HasPolicy key policy s
unfolding entry
entry-HasPolicy key policy s h = elim (Option-cases (lookup key s.entries)) [
  | inl none_ ↦ absurd (ground arith)
  | inr (e, at) ↦ (e, at, ground arith)
]

marked-HasPolicy :
    (c : Site) (key policy : Bytes) (now : Time) (error : Option CrawlError) (s : Store) (e : Entry)
    → lookup key s.entries ≡ some e
    → succeeded error ≡ true
    → HasPolicy key policy
        (mark_verified error key policy (mark_crawled c.conf key now (text_of error) s))
marked-HasPolicy c key policy now none s e at h =
    mark-HasPolicy key policy (mark_crawled c.conf key now none s) (crawled c.conf now none e)
      (lookup-mark_crawled c key now none s e at)
marked-HasPolicy c key policy now (some x) s e at h = absurd (cc)

succeeded-none : (error : Option CrawlError) → succeeded error ≡ true → error ≡ none
succeeded-none none h = refl
succeeded-none (some e) h = absurd (cc)

module _ (c : Site) (now : Time) (res : Resource) (w : World) where
  abbrev Outcome : Type 0
  Outcome = Option CrawlError × (Tree × Store)

  abbrev world_of : Outcome → World
  world_of r = record w { tree = (r.1).0; store = (r.1).1 }

  module _ (st : SignatureSettings) (loaded : load_signature_settings c.conf c.keys ≡ some st)
      (e : Entry) (at : lookup res.key w.store.entries ≡ some e) where
    crawl_with-Verified :
        let r = crawl_with c.conf c.dispatch now res st w.tree w.store in
        succeeded r.0 ≡ true → Verified c res w.tree (world_of r)
    unfolding crawl_with
    crawl_with-Verified h =
        let error = (c.dispatch res st w.tree).0 in
        record {
          settings = st;
          loaded = loaded;
          policy = marked-HasPolicy c res.key st.policy now error w.store e at h;
          files = inr (succeeded-none error h, refl);
        }

    choose-Verified :
        (present earlier : Bool) (x : Outcome)
        → present ≡ signature_policy_artifacts_present c.online_root res st.mode w.tree
        → earlier ≡ is_verified st.policy (entry res.key w.store)
        → (succeeded x.0 ≡ true → Verified c res w.tree (world_of x))
        → let r = if earlier && present then (none, (w.tree, w.store)) else x in
          succeeded r.0 ≡ true → Verified c res w.tree (world_of r)
    choose-Verified true true x p v h ok = record {
      settings = st;
      loaded = loaded;
      policy = entry-HasPolicy res.key st.policy w.store (sym v);
      files = inl (refl, sym p);
    }
    choose-Verified false true x p v h ok = h ok
    choose-Verified true false x p v h ok = h ok
    choose-Verified false false x p v h ok = h ok

  -- A protected crawl that reports success, with the settings and the artifacts as they are.
  crawl_for-Verified :
      (o : Option SignatureSettings) (e : Entry)
      → load_signature_settings c.conf c.keys ≡ o
      → lookup res.key w.store.entries ≡ some e
      → let present = signature_policy_artifacts_present c.online_root res (mode_of o) w.tree in
        let r = crawl_for c now res present o w in succeeded r.0 ≡ true → Verified c res w.tree r.1
  unfolding crawl_for crawl_protected_repository
  crawl_for-Verified none e loaded at h = absurd (cc)
  crawl_for-Verified (some st) e loaded at h =
      choose-Verified st loaded e at
        (signature_policy_artifacts_present c.online_root res st.mode w.tree)
        (is_verified st.policy (entry res.key w.store))
        (crawl_with c.conf c.dispatch now res st w.tree w.store) refl refl
        (crawl_with-Verified st loaded e at) h

  abbrev Served : Response × World → Type 0
  Served a = is_file a.0 ≡ true → Verified c res w.tree a.1

  Verified-started :
      (need : Bool) (local : Bytes) (old : Tree) (v : World)
      → Verified c res old v
      → Verified c res old (finish_entry local res need v).1
  Verified-started true local old v h = record {
    settings = h.settings;
    loaded = h.loaded;
    policy = h.policy;
    files = h.files;
  }
  Verified-started false local old v h = h

  after_contact-Served :
      (local : Bytes) (tracked : Bool) (error : Option CrawlError) (exists : Bool) (v : World)
      → (succeeded error ≡ true → Verified c res w.tree v)
      → Served
          (after_contact local res tracked (succeeded error) false (crawl_outcome error exists) v)
  unfolding write_fetch_error
  after_contact-Served local tracked none true v h file = h refl
  after_contact-Served local tracked none false v h file = absurd (ground arith)
  after_contact-Served local tracked (some x) exists v h file = absurd (ground arith)

  if-Served :
      (b : Bool) (x y : Response × World)
      → (b ≡ true → Served x)
      → Served y
      → Served (if b then x else y)
  if-Served true x y h k = h refl
  if-Served false x y h k = k

  earlier-Verified :
      (o : Option SignatureSettings) (e : Entry) (present : Bool)
      → load_signature_settings c.conf c.keys ≡ o
      → lookup res.key w.store.entries ≡ some e
      → present ≡ signature_policy_artifacts_present c.online_root res (mode_of o) w.tree
      → (policy_is e.signature_policy o && present) ≡ true
      → Verified c res w.tree w
  earlier-Verified none e present loaded at p h = absurd (cc)
  earlier-Verified (some st) e present loaded at p h = record {
    settings = st;
    loaded = loaded;
    policy = (e, at, ground arith);
    files = inl (refl, ground arith);
  }

  serve_protected-Served :
      (local : Bytes) (tracked need : Bool) (e : Entry)
      → lookup res.key w.store.entries ≡ some e
      → Served (serve_protected c now res local tracked need e.signature_policy w)
  unfolding serve_protected regular_file
  serve_protected-Served local tracked need e at =
      let o = load_signature_settings c.conf c.keys in
      let present = signature_policy_artifacts_present c.online_root res (mode_of o) w.tree in
      let r = crawl_for c now res present o w in
      if-Served _ (finish_entry local res need w) _
        (λ t file.
          Verified-started need local w.tree w
            (earlier-Verified o e present refl at refl (ground arith)))
        (after_contact-Served local tracked r.0 (regular_file local r.1.tree) r.1
          (crawl_for-Verified o e refl at))

-- Under an active signature policy, an entry point of a repository is served only if the files in place
-- were verified under that policy, by an earlier crawl or by that of the request: the files are those
-- of before or those that a successful crawl left, and the state has the policy.
pub serve_entry_point-Verified :
    (c : Site) (now : Time) (root req_path : Bytes) (res : Resource) (local : Bytes) (w : World)
    → is_protected c.conf res.kind ≡ true
    → let a = serve_entry_point c now root req_path res local w in
      is_file a.0 ≡ true → Verified c res w.tree a.1
unfolding serve_entry_point mark_requested
serve_entry_point-Verified c now root req_path res local w active =
    let m = mark_requested res.kind res.key res.path res.root now w.store in
    let e = (m.0).0 in
    rw active (
      serve_protected-Served c now res (set_store m.1 w) local (m.0).1 _ e
        (ground (arith, lookup-insert res.key res.key e w.store.entries)))
