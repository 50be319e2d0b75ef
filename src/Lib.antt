-- ===== src/Lib.antt =====
-- antigravity2api: a proxy that serves OpenAI, Claude and Gemini requests from a pool of accounts.
--
-- The scheduler of server/internal/pool lends accounts to requests; server/internal/convert chooses
-- the model and translates; server/internal/httpapi sends the request upstream and tries again, with
-- the same account or another, when that fails.
--
-- Pool.antt and its children: server/internal/pool/scheduler.go. Pool/State is the state under
-- `p.mu`; Pool/Slots the reservations, with the counters in a heap since release closures keep
-- pointers to them; Pool/View is modelViewLocked; Pool/Limits is MarkLimited, ClearLimited and
-- ClearLimitedBefore; Pool/Bounded the eviction that the maps of limits and sessions share;
-- Pool/Scan the loop over the accounts and Pool/Select one round of selectAccount; Pool/Snapshot is
-- loadSnapshot; Pool/System adds the release closures and runs the critical sections in any order.
-- Pool/Acquire: selectAccount and Acquire of server/internal/pool/scheduler.go, which compose the critical
-- sections of Pool/System with Pool/Refresh; other requests run in between. Its loops are recursions on
-- the lists of what they are answered, and a list that is too short leaves the request waiting.
-- Convert/Catalog: server/internal/convert/models.go.
-- Convert/Signatures: server/internal/convert/signature_cache.go, the signatures of Claude's and
-- Gemini's thoughts that clients do not send back.
-- Convert/Mix and Convert/Variants: server/internal/convert/mix.go and variants.go.
-- Convert/Values and Convert/Usage: how the converters read decoded JSON, and counts of tokens, in
-- server/internal/convert/openai.go, claude.go, wrap.go and request_helpers.go.
-- Convert/Generation, Convert/Contents and Convert/Inner: normalizeInner of
-- server/internal/convert/wrap.go, the part of every request that is translated, with the clamps on
-- tokens and the messages, which mergeContents of request_helpers.go joins. The sum of a budget and
-- the tokens of an answer wraps at int64.
-- Convert/Stream: server/internal/convert/stream.go. Stream/Walk is walkGeminiStream over the payloads
-- that the decoder gives, Stream/Tools the registry of tool calls with the parts it
-- retains, Convert/ClaudeStream WriteClaudeSSE as
-- steps on its variables, each of which may fail; ClaudeStream/Protocol is the order of events that the
-- protocol allows, as an automaton that is described apart from the code.
-- Pool/Refresh: ensureFresh, ensureProject, InvalidateToken and RefreshToken of
-- server/internal/pool/lifecycle.go, with the rows of accounts that the statements of
-- server/internal/store/scheduling.go read and change. Store/Edits is what others change in those rows
-- without the gate that a refresh holds (an administrator, the proxy, the writer); a run of ensureFresh
-- or ensureProject names the changes that come while the upstream is asked and before the row is read
-- again, any number of them.
-- Config: server/internal/config/config.go.
-- Httpapi/Retry: retryPolicy and rateLimitCategory of server/internal/httpapi/retry.go; what
-- upstreamRetryHint reads (floats, regular expressions) and the random margin are arguments.
-- Httpapi/Proxy: the retry loop of Server.proxy in server/internal/httpapi/proxy.go. Each turn is
-- fed with what the pool, the upstream, the clock and the context answer in it, and what the loop
-- asks of them is a trace. The loop is a recursion on the list of answers; how many are enough is
-- proved. activeRelease, which gives a slot back after a panic, is left out, and so are log lines and
-- what is written to the client but for the status and Retry-After.
-- Httpapi/Admission: limitProxy of server/internal/httpapi/runtime.go, with its two channels.
-- Httpapi/History: responseHistory of server/internal/httpapi/responses.go. Making room is a loop with one
-- turn for each entry, since each turn removes one.
-- Store/Writer: server/internal/store/writer.go, the queue of request logs and its worker.
--
-- Texts are lists of code points, and lower case is that of ASCII. Instants are natural numbers of
-- nanoseconds since the zero time, and a clock reading is an argument of each operation. The counter
-- `sequence` wraps at 2 ^ 64; other counters are bounded by the number of requests in flight.
--
-- Simplified: the two deferred receives of limitProxy are one step, as are its count, answer and
-- release for a request that is turned away. time.Until saturates at 292 years and is exact here, and
-- the seconds of Retry-After are rounded up exactly, where the code divides in float64. The
-- conversion of a JSON number beyond int64 is left as the number.
--
-- Not modelled: WriteOpenAISSE, CollectGeminiJSON and the decoder of lines in
-- server/internal/convert/stream.go, and the translations of requests and schemas of that package,
-- which rewrite JSON before and after the parts above; the handlers, the store's SQL, the OAuth and
-- Cloud Code clients and the transports, which call the network and the database, and whose answers
-- are arguments here; the health loop, which repeats the modelled refresh on timers.
pub mod Base
pub mod Strings
pub mod Time
pub mod Accounts
pub mod Json
pub mod Config
pub mod Convert
pub mod Pool
pub mod Store
pub mod Httpapi
pub mod Examples
