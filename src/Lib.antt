-- ===== src/Lib.antt =====
-- The Rust client of the Dragonfly SDK, client-request/rust: a library that downloads files and images
-- through the seed peers of a Dragonfly cluster.
--
-- A request names a url. Its task id is computed from the url (client-request/rust/src/id_generator.rs,
-- over the canonical url of url.rs and the digests of digest.rs). The selector (selector.rs) keeps the
-- seed peers that the scheduler lists and a hash ring over their names, and picks from the ring the
-- replicas that serve the task. The proxy (lib.rs) sends a GET to their proxies in turn, through a pool
-- of clients (pool.rs), with retries (retry.rs) that follow the table of transient errors (errors.rs);
-- a middleware tells the selector which proxies fail to connect, and these are ejected for a while. A
-- preheat or a delete calls every selected seed peer at once and retries each on its own. A preheat or a
-- delete of an image (oci.rs, lib.rs) asks the registry for its manifest, and preheats or deletes the
-- manifest and each blob as one task. A service of the selector lists the seed peers again at every tick,
-- until a signal (shutdown.rs) ends it.
--
-- Modules and sources, in client-request/rust/src:
-- Base has lists, texts as bytes, maps, integers and cutting of texts, shared by all.
-- Errors and Errors.Convert are errors.rs (`Error`, `is_retryable`, `from_status`, `from_response`).
-- Http is http.rs, Net net.rs, Digest digest.rs, Url url.rs, and Ids id_generator.rs.
-- Pool is pool.rs over plain entries; `entry` is split where it awaits the factory. Pool.Shared is the same
--   over entries whose clones share the instant of last use in a cell, and Pool.Calls the steps of calls
--   of `entry` that run at the same time.
-- Retry is retry.rs (`delays`, `sleep`, `run`, `run_with_endpoints`).
-- Selector and Selector.Ejections are selector.rs (`SeedPeers`, `update`, `refresh`, `select`,
--   `select_all`, and the table of ejections). Selector.Ejections.Races has the steps of answers and
--   failures that are recorded at the same time.
-- Shutdown is shutdown.rs. Selector.Service is the loop of selector.rs (`run`), which waits for a tick or
--   for a signal, and the steps of refreshes and updates that run at the same time. Scheduler is the
--   `SchedulerClient` of selector.rs.
-- Oci is oci.rs, the urls, platforms and blob digests of an image; Oci.Images is what `preheat_image` and
--   `delete_image` of lib.rs ask the registry.
-- Requests has the request types of lib.rs, their defaults, checks and proxy headers.
-- Proxy is the rest of lib.rs: Proxy.Lookup has `lookup_endpoints`, Proxy.Send one request with the
--   middleware and the client factory, Proxy.Download `get` and `get_into`, Proxy.Download.Sequence such
--   calls one after another, Proxy.Fanout `preheat` and `delete` with their gRPC clients in
--   Proxy.Dfdaemon, Proxy.Images `preheat_image` and `delete_image`, Proxy.StatImage `stat_image`,
--   Proxy.Builders the builders, Proxy.Builders.Endpoints `ProxyWithEndpoints`, Proxy.Builders.Setters
--   the setters, and Proxy.Builders.Scheduled `ProxyBuilder::build`.
-- Tests has simple implementations of the external code, and the theorems at concrete inputs.
-- The other modules below these hold proofs, and are named for what they prove.
--
-- A function of the source is a function of the same name. State is passed in and out: the seed peers
-- with their ring, the pool, the table of ejections, the external world. A lock that the source holds
-- over a section is an atomic step. Instants and durations are natural numbers of nanoseconds, and each
-- reading of a clock is an argument. Failing calls return `Result`, with the message that the code
-- formats. Casts of integers are written out.
--
-- Other crates are arguments: `HashRing` (dragonfly_hashring), `Retrier` (backon and rand), `HttpApi`
-- (http), `UrlApi` (url), `RegexApi` (regex), `IdApi` (sha2 and hex), `Env` (reqwest), `Dfdaemon`,
-- `SchedulerApi` and `StatApi` (tonic and the join set of tokio), `OciApi` and `Registry` (oci_client,
-- oci_spec, and the semaphore and join set of tokio). What the theorems assume of them is in records of
-- laws: `RingLaws`, `RetrierLaws`, `JoinLaws`, `JoinedLaws`, `FinishedLaws`, `HttpLaws`, and for urls in
-- `Encodes` and `SameButQuery`. The tasks of a preheat or a delete each run over what the network
-- answers to them, and over the seed peers that the selector has then; the join set gives their results
-- in any order, and a panic of a task is left out.
--
-- Fuel: the loop that doubles the window of virtual nodes has one unit more than the ring has nodes. A
-- window that starts at two or more and doubles passes the length of the ring before that, and then the
-- loop stops; `none` is a call that does not return. Decimal digits have as much fuel as the number.
--
-- Not modelled: tracing; a listener for a signal that cannot be registered, at which the process panics; a
-- call that is dropped before it ends; a panic of a task; a stream of a download task or a call of an
-- external client that never ends, so that a theorem that a call returns is about runs in which these do;
-- the memory that a buffer reserves; the Go client, a second client in another
-- language; and the examples, benchmarks and tests.
pub mod Base
pub mod Errors
pub mod Http
pub mod Net
pub mod Digest
pub mod Url
pub mod Ids
pub mod Pool
pub mod Retry
pub mod Shutdown
pub mod Selector
pub mod Scheduler
pub mod Requests
pub mod Oci
pub mod Proxy
pub mod Tests
