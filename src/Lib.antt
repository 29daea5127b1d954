-- ===== src/Lib.antt =====
-- codex-proxy-rs is a proxy in front of the Codex API. In router mode it forwards each request to one
-- of several pods, each with an account of its own, and keeps a conversation on its account; in proxy
-- mode it rewrites a request and turns the upstream's event stream into chat-completion chunks. This
-- library models the core of both and proves what makes it correct.
--
-- Parts and files. Operations have the source's names in lower case; state is passed on explicitly.
--   Base: shared names, Boolean tests, lists, maps, text as lists of code points, bytes as numbers.
--   Pool (src/router.rs, `AccountPool`): parsing of the account list, cooldowns, pins, selection;
--     Pool/Pinned takes cooldowns and pins together.
--   Router (src/router.rs, `proxy`): the handler as a function of the router's state; Router/Attempt
--     has the request to one pod and the classification of its answer. It uses Pool, Affinity for
--     the pins, Conversation for the key of a conversation, and Http for answers and errors.
--   Affinity (src/affinity.rs): the store of pins as a record of operations, the contract of a store
--     that is up, and the in-memory store; Affinity/Redis has the Redis store, and Affinity/Agreement
--     sets the two side by side.
--   Conversation (src/conversation.rs, and the extractors of src/request.rs): the conversation key.
--   Http (src/server/error.rs, src/server/stream.rs): responses, header filtering, error answers.
--   Request (src/request.rs): the model and the reasoning settings of a request; Request/Input and
--     Request/Body make the upstream's body of a chat request, Request/Responses rewrites a
--     Responses request.
--   Model (src/model.rs): model names and reasoning efforts.
--   Sse, Relay (src/relay.rs): the event reader and the rewriting relay; Relay/PassThrough is the
--     relay that copies, Relay/Outcome describes how a rewritten stream ends, and Sse/Trim is about
--     trimming bytes. The rewriting relay runs any transformer; Transform gives the one of
--     src/transform/mod.rs, with Transform/Upstream and Transform/Openai for the files
--     src/transform/upstream.rs and src/transform/openai.rs.
--   Buffered, Buffered/Chat (src/buffered.rs): streams collected into one answer, over Sse and the
--     transformer.
--   Credentials (src/credentials): the types and the static store; Credentials/Storage writes a file
--     through the calls of the file system, Credentials/File is fs.rs, Credentials/Oauth is oauth.rs
--     and Credentials/Refresher is refresher.rs, whose operations are one step each.
--   Upstream (src/upstream.rs): the request to the upstream and its retry, over any credentials
--     fetcher; Upstream/Served joins it with the fetcher of Credentials/Refresher.
--   Server (src/server): Auth is the gate of middleware.rs, Admin is admin.rs, Stream has the answers
--     of stream.rs, and Handlers the data plane of chat.rs and responses.rs, over Request, Upstream,
--     Buffered and Stream.
--   RateLimit (src/ratelimit.rs): the quota windows read from response headers.
--   Json: JSON values and the accessors that the source uses.
--   Checks: runs at concrete inputs.
--
-- Bounds. No function needs fuel: `pick` makes as many rounds as there are accounts, and the relay
-- and the reader recur on their input. The counter of `pick` and those of the transformer wrap around
-- at 64 bits. Times are nanoseconds without an upper bound.
--
-- Outside code is a parameter: the reader and writer of JSON text with its error messages, the URL
-- parser, the digest of a conversation's head, the answers of pods and the store of pins. JSON text
-- is read into a value first, so an object that names a key twice has its last value. The file
-- system, the token endpoint, the HTTP client, the clock and the uuid library are parameters too; of
-- the file system the theorems assume that a failed rename leaves its target, that a successful one
-- gives it the content of its source, and that other calls leave a file alone that they do not name.
-- Time passes only with the calls that change the world.
--
-- Concurrency. A run of the handler is one atomic step here: the locks of the pool and the store are
-- not modelled, nor are the runs of two requests interleaved. In the relay the timers are looked at
-- at given points of the input. A failed write leaves no bytes.
--
-- Not modelled: the route table and the static answers, configuration, start-up, metrics and logging
-- other than `log_route`. The pipe from a relay to the body of its answer is left to the relay's own
-- model. `i64` subtraction wraps around, as it does without overflow checks.
pub mod Base
pub mod Model
pub mod Affinity
pub mod Pool
pub mod Json
pub mod Buffered
pub mod Conversation
pub mod Credentials
pub mod Http
pub mod Router
pub mod Server
pub mod Sse
pub mod RateLimit
pub mod Relay
pub mod Request
pub mod Transform
pub mod Upstream
pub mod Checks
