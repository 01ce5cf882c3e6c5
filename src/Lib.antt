-- ===== src/Lib.antt =====
-- repo-sync: package repository synchronization and a caching mirror (Go).
--
-- The program mirrors rpm, deb, arch and apk repositories into a local tree (packages fetch and
-- mirror), and serves such a tree while it crawls the repositories that clients ask for (packages
-- server, state and config). This library models its own logic; the operating system, HTTP, the
-- decoders and OpenPGP are parameters or are stated below to be taken as given.
--
-- Base: shared names. Go strings are lists of bytes (Base/Bytes), maps are association lists
--   (Base/Dict), text is cut into lines and words by Base/Words, times and durations are nanosecond
--   counts (Base/Clock), and paths are cleaned as by package path (Base/Paths). Bytes are compared and
--   trimmed as ASCII.
-- Fetch/Missing: fetch/missing.go. The tracker of files that an upstream lists and does not serve.
--   Its state file is what `load` reads back; run counts stay below 2^63.
-- Fetch/LocalPath: fetch/fetch.go, `LocalJoin`.
-- Fetch/Source: fetch/source.go, a repository's mirrors and the failover between them. The HTTP
--   client is the parameter `ask`, fixed during a request; loops run over the list of mirrors.
-- Fetch/Download: fetch/fetch.go, one file on its way from a mirror to its place. Replies and hash
--   functions are parameters; a call holds the file's lock, so it is one step.
-- Fetch/Promote: fetch/fetch.go, the promotion of staged files, with whether the disk plays along as
--   a parameter.
-- Fetch/Prune: fetch/fetch.go, `KeepSet` and `PruneTree`. The files that the walk reaches, the clock
--   and whether a file can be removed are parameters. A record is dropped where the walk does not meet
--   its file; `os.Stat`, which the code asks, follows links and sees directories as well.
-- Fetch/Jobs: fetch/fetch.go, `Many` and `PlanJobs`. A pool of workers is the order in which the jobs
--   that were handed out end, which a theorem that needs every job to end says; a destination's lock
--   makes the end of a job one step.
-- Config: config/config.go, the index of domains and mounts and the lookup of both. `url.Parse`
--   on a mount's upstream is the parameter `ok` of `index_mounts`, `net.SplitHostPort` is one of
--   `domain_for`.
-- State: state/state.go. Each method of the store is a step on its entries and its dirty flag,
--   `Save` works on a disk where each step can fail, and `Load` reads what is there. The YAML coder is
--   taken to give entries back, so its errors and what it loses are outside the model.
-- Server/Failures: server/failure_cache.go.
-- Server/Schedule: server/crawl_loop.go, when the schedulers crawl a resource and give it up.
-- Server/Classify: server/classify.go. Server/Eviction: server/crawl_loop.go, the removal of a stale
--   resource, which is one step under its lock, and the trees that a crawl may prune.
-- Server/Locks, Server/Slots: server/crawl_loop.go, `lockResource`, and `startCrawl` with the crawl
--   slots, as steps of goroutines that interleave. Server/Protect: the same file, crawls under a
--   signature policy; a synchronization and the reading of keys are parameters.
-- Server/Upstream, Server/Serve, Server/Handler: server/serve.go. Each handler is a function from a
--   request to its answer, the files, the state and the failure cache; upstreams are parameters.
-- Mirror/Targets, Mirror/DiscoverCache: mirror/discover_cache.go, the record of what each crawl
--   found. Crawls are parameters; a sort by insertion stands for `sort.Slice`.
-- Mirror/Discover: mirror/discover.go, the breadth-first crawl. The listing of a directory, the
--   matching of patterns and the escaping of names are parameters; the fuel of the loop is the
--   number of directories within the depth, which the theorem on its end shows to be enough.
-- Mirror/Signatures: mirror/signature.go, the signature modes; verification is a parameter.
-- Mirror/Control: mirror/control.go, the reader of apt control files on the lines of its input.
-- Mirror/Staging: the fetch of one optional document, which rpm.go and deb.go share.
-- Mirror/Deb: mirror/deb.go. Sync is a run on the path of a URL, with replies, the reader of compressed
--   files and the order in which transfers end as parameters. Stage authenticates the release
--   documents, Release and Index parse what they list, Jobs makes jobs of it, and ByHash links indexes
--   by their checksums. Go iterates a map in any order, so the order of checksum fields is a parameter.
--   The loop over an index has one round of fuel for each line and one more, which is enough as each
--   stanza takes a line.
-- Fetch/Stats: fetch/stats.go, the counters. Mirror/Run: mirror/sync.go, a whole run. The run of a
--   repository and that of the loose files are parameters, on a state that they share.
-- Mirror/Resolve, Fetch/Mirrors: mirror/resolve.go, mirror/options.go and fetch/source.go: the type, the
--   mirrors and the destination of a URL, whose parts and answers are parameters.
-- Mirror/Apk: mirror/apk.go. The lines of the index in an archive, which libraries unpack, and replies
--   are parameters of a run.
-- Mirror/RunLock: mirror/sync.go, the lock of a destination, as steps of runs that interleave. Inodes
--   are numbers that are not used again, and an advisory lock goes with the descriptor that took it.
-- Mirror/Rpm: mirror/rpm.go. Sync is a run, with decoders, replies and the order in which transfers
--   end as parameters; Select makes jobs of what the metadata names. Stage authenticates the root
--   metadata, Publish puts it in place with a roll back, and Commit does so at the end of a run, with
--   the withdrawal of stale packages. What the disk allows is a parameter of each step.
-- Tests: runs of the code at concrete inputs, and the theorems applied to them.
--
-- Release documents and root metadata are kept apart from the tree of the other files, so a path in the
-- metadata that names one of them overwrites nothing here.
-- Methods that run under one lock are one step. Configured durations are not negative, which the
-- validation of the configuration and of the command line enforces.
-- Not modelled: log messages; the parsing of directory indexes, the synchronization of arch
-- repositories, steps of other requests between those of a handler, generated pages, OpenPGP and traces;
-- the recording of single transfers in the counters; the command line.
pub mod Base
pub mod Fetch
pub mod Config
pub mod State
pub mod Server
pub mod Mirror
mod Tests
