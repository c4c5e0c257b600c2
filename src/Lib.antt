-- ===== src/Lib.antt =====
-- A verification library for an MCP server in Go that gives tools access to upstream HTTP services
-- and to a wiki on disk. It models the parts that keep state or decide on access, and proves what
-- makes them correct.
--
-- The parts, and how they interact. A request reaches the server over HTTP. It is authenticated,
-- with the results of the remote verification in a cache (internal/auth/cache.go, Auth), and the
-- context that it gets carries its trace id, its user and its origin (internal/trace/trace.go,
-- Trace). Its MCP session is bound to the identity that opened it (cmd/server/main.go, Server). A
-- tool answers from its memory cache (internal/tools/cache.go, Tools), from the wiki directory that
-- the router picks for the user (internal/wiki/local_router.go, Wiki), or from an upstream service
-- through retries behind a circuit breaker (internal/client, Client). The file tools read a shared
-- directory (internal/service/file_service.go, Files).
--
-- The files.
-- Prelude: shared names, Boolean tests, lists, keys with a decidable equality, strings as lists of
--   code points with strings.TrimSpace and strings.HasPrefix, and the sign of Go's int.
-- Lru: the idiom that the two caches and the session bindings share, a map from keys to elements
--   of a container/list list. A Table has the map `items` (keys to addresses), the list `lru` (nodes
--   with address, key and value, the most recently used first) and the next address `fresh`, so that
--   map and list can disagree; Linked says that they do not. `find` is a map lookup with the value
--   behind the pointer, `remove` and `push_front` change both, `move_to_front` and `assign` the list,
--   `evict` is the loop that removes the back, `sweep` the loop that removes what is stale. The
--   theorems read a table as the list of its `entries` in order of use: Laws, Evict, Sweep, Put.
-- Auth/Cache: verificationCache. `get`, `set`, `size` and `new_verification_cache` are Get, Set,
--   Len and newVerificationCache. Laws and Runs have the proofs.
-- Auth/Address: ClientIP, securityClientIP and ParseCIDRs of internal/auth/auth.go, as all that follows
--   of Auth; net.IP and net.IPNet are a Net. Forged has the proofs.
-- Auth/Limiter: tenantLimiter and ipRateLimiterPool, over a Float for float64. `allow` is also
--   allowRemoteCallLocked, the same code on other fields. Bursts and Pool have the proofs.
-- Auth/Rpc: inspectRPC and bindPrincipal, over a Json for encoding/json. Bound has the proofs.
-- Auth/Serve: readRequestBody and serveAuthenticated; a request that is passed on is `served`, with
--   the context and the body that the handler gets. Governed has the proofs.
-- Auth/Remote: verifyRemote and doRemoteCall, with the endpoint as a function. Reuse has the proofs.
-- Auth/Gate: Middleware, with the tenants, the cache and the limiters as its state. Evidence has the
--   proofs.
-- Auth/Start: New, hostAllowed and both Enabled. Registered has the proofs.
-- Auth/Samples: an exact codec, amounts and addresses for the tests.
-- Tools/Cache: MemoryCache. `get`, `set`, `delete`, `delete_prefix`, `size`, `stop`,
--   `delete_expired` and `janitor_tick` are Get, Set, Delete, DeletePrefix, Len, Stop, deleteExpired
--   and one turn of the loop of janitor, which may take a tick after Stop and returns at last. The
--   values are of any type. Laws, Runs and Latest have the proofs.
-- Client/Breaker: CircuitBreaker (breaker.go). `allow`, `record_success`, `record_failure`,
--   `transition_locked` and `reset` are the methods of these names; what the metrics are told of
--   transitions is part of the state. Invariant, Calls and Recovery have the proofs.
-- Client/Retry: doRequestWithRetry and what it calls (client.go). `do_request_with_retry_inner` is
--   the loop, whose body is `attempts`, `pause`, `send` and `receive`. The network, the context's end
--   and the random numbers are a World. `do_request_with_retry_amid` has the calls of other requests
--   that lock the breaker between Allow and the report as an argument; `do_request_with_retry` has none.
--   Attempts, Settles, Guarded and Outage have the proofs.
-- Trace: trace.go, one function for each function of the file, with a context as a record of the
--   values of the package's keys. Users has the proofs.
-- Wiki/Router: LocalRouter.searcher, with the searchers as a parameter. Access has the proofs.
-- Server/Sessions: sessionBindings (main.go). `bind`, `matches`, `delete`, `delete_expired` and
--   `size` are bind, matches, delete, deleteExpired and len; `close_removed` is the list of calls
--   that close what an operation removed. Access, Runs, Holders and Held have the proofs.
-- Server/Streamable: streamableBindingWriter and its middleware (main.go). `write_header`, `write`,
--   `flush` and `middleware` are WriteHeader, Write, Flush and streamableSessionBindingMiddleware;
--   what reaches the client is the list `sent`. Silence has the proofs.
-- Server/Sse: sseEndpointBindingWriter (main.go). `write` collects the first event, `end_event` binds
--   the session that it names, and `enter_post` and `finish` are what the middleware does before and
--   after the handler. Opens has the proofs.
-- Files/Preview: ReadFilePreview and cleanFilePath (internal/service/file_service.go).
--   `read_file_preview` tests the range, `preview_lines` opens the file, `scan` is the loop over its
--   lines and `conclude` what follows it. Range and Success have the proofs.
-- Files/Walk: the walk that the searches of file_service.go share: a directory is a tree of `Nodes`,
--   `visits` lists the calls of the callback, and `walk` makes them. Collect has the lemmas.
-- Files/Find: SearchFileNames. Names has the proofs.
-- Files/Content: SearchFileContent and readSearchFile. Hits has the proofs.
-- Files/Ranked: Search without a tokenizer, fileMarkdownTitle and fileSearchSnippetAt. `position` is
--   sort.Search, for results that are in order. Order, Insert and Best have the proofs.
-- Files/Index: buildFileSearchIndex and fileSearchDocumentMatches. Has has the lemmas.
-- Files/Tokenized: searchTokenized over an index. Complete and Best have the proofs.
-- Files/Tokens: the tokenizer over gse, which is a parameter. Full has the lemmas.
-- Files/Refresh: ensureFileSearchIndex and loadFileSearchDocument. Built and Search have the proofs.
-- The Tests modules run the theorems on small examples.
--
-- Conventions. Times are nanoseconds in ℕ, counted from Go's zero time, and the clock is an argument
-- of the operation that reads it. A method that holds a mutex throughout is one step, so that
-- concurrent callers are sequences of steps. A `none` is a nil, a missing result or a refusal, as
-- said where it is used. Maps are association lists; a range over a map is a loop over its list, and
-- what is proved of it does not depend on the order. Durations do not overflow here: the source's
-- are below 2^63 nanoseconds.
--
-- Bounds and fuel. `evict` has the length of the list as fuel, which is enough, as each round
-- removes one element (Lru/Evict). The loop of attempts recurs on the attempts that are left, three
-- or one. All else is structural recursion.
--
-- Not modelled: the wiki's files, the tools' handlers, the clients' encodings, logging, metrics and start-up. They call libraries that are not part of the
-- repository (net/http, encoding/json, the MCP SDK) or wait for a model of those. Of internal/auth, what
-- is only logged (deny, reject, mask, Format) is left out, and of file_service.go GetFileInfo, the
-- opening of the root and the loading of the dictionaries of gse.
pub mod Prelude
pub mod Lru
pub mod Auth
pub mod Client
pub mod Tools
pub mod Trace
pub mod Wiki
pub mod Server
pub mod Files
