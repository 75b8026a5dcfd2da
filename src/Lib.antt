-- ===== src/Lib.antt =====
-- cc-gateway: a proxy that takes requests of the Anthropic Messages API and sends them to accounts
-- of several upstream providers.
--
-- A request is authenticated, the router selects an account for its model, the account's provider
-- translates it, and the provider's stream of events is converted back into the events of the
-- Messages API. The result is recorded in the account's circuit breaker.
--
-- Files and the code they model:
--   Domain.antt, Domain/Models.antt: internal/domain (Account, CanServeModel, ResolveModel,
--     matchAlias). Domain/Glob.antt is path.Match of the standard library, which matchGlob calls:
--     a pattern is read chunk by chunk, and the loop over chunks and start positions runs on fuel,
--     the length of the pattern, of which each round uses up at least one character.
--     Domain/Value.antt holds the values of decoded JSON.
--   Breaker.antt: internal/breaker/breaker.go. The state "open" is the constructor `tripped`. A
--     method that changes the breaker returns the new one; the time is an argument.
--   Balancer.antt: internal/router/balancer.go. The atomic counter of RoundRobin and Weighted is a
--     natural number that wraps at 2 ^ 64; the sum of the weights wraps as an int64.
--   Router.antt: internal/router/router.go. The maps of the Router are association lists, whose
--     order stands for the order in which Go iterates; breakers, balancers and counters, which the
--     source holds by pointer from one map each, are values in the map. A method returns the new
--     router. time.ParseDuration is a parameter.
--   KeyStore.antt: internal/proxy/auth.go. Entries of keys and semaphores of accounts stand in two
--     heaps, since requests keep pointers to them across a reload; the maps hold addresses.
--     KeyStore/Slots.antt takes apart Acquire with its loop on CompareAndSwap: goroutines take turns in any
--     order. hashKey and the current month are arguments.
--   Handler.antt, Handler/Response.antt, Handler/StopReason.antt, Handler/Attempts.antt,
--     Handler/Serve.antt: internal/proxy/handler.go. ServeHTTP is a chain of functions, one for
--     each of its steps and early returns, that pass on a record of its variables, the router, the
--     key store and the response. The providers' Stream, json, the clock, the context and the
--     connection are the fields of an Environment. The two loops run on the attempts and the
--     retries that are left.
--   Accounting/Cost.antt, Accounting/Recorder.antt: internal/accounting/cost.go and recorder.go. The
--     channel of the recorder is a list of at most 1000 records; a send that panics is `none`.
--   Retry.antt: internal/proxy/retry.go. The regular expression is a search for its fixed part
--     and digits; the random number and time.ParseDuration are arguments; the delay is scaled with
--     the wrap-around of an int64, and multiplied with the random factor without the rounding of
--     float64.
--   Sse/Writer.antt, Sse/Reader.antt: pkg/sse. Bytes and code points are numbers; whether the
--     connection takes bytes is an argument; a scanner is the list of its lines up to the
--     first that its buffer of a mebibyte does not hold.
--   Anthropic.antt: the events that formatAnthropicEvent writes; Anthropic/Client.antt: an
--     acceptor for their order, the specification of the converters. The converter of OpenAI streams
--     is held to a client that takes a delta also for a block that has stopped.
--   OpenAi/Events.antt, OpenAi/Stream.antt, OpenAi/Stream/Handlers.antt:
--     internal/provider/openai/stream.go, each case of ProcessEvent a function, and the loop of
--     Adapter.Stream in internal/provider/openai/adapter.go. The decoding of an event's JSON is a
--     parameter, a record of functions that may fail.
--   Gemini/Stream/Events.antt, Gemini/Stream/Deltas.antt, Gemini/Stream.antt:
--     internal/provider/gemini/stream.go, each case of the switch over a part a function, and the
--     loop of Adapter.Stream in internal/provider/gemini/adapter.go. The decoding of JSON, the
--     marshalling of arguments and the clock are parameters.
--   Gemini/Schema.antt: the schemas of tools in internal/provider/gemini/translate.go; a map is a list
--     of fields.
--   Base.antt and Base/: tests, lists, maps, signed integers and decimal digits. The other files
--     beside a component hold its theorems, and Tests.antt the examples.
--
-- Integers of type int and int64 have no bound, but for the counter and the weights of the balancers,
-- the tokens that a key has used and the delay of a retry. Each operation that holds a mutex
-- throughout is one step. Logging and metrics are left out.
--
-- Not modelled: HTTP, the database and its cleaner, configuration files, the admin API and its pages,
-- the translation of requests but for these schemas, and the HTTP calls of the adapters.
mod Base
pub mod Domain
pub mod Breaker
pub mod Balancer
pub mod Router
pub mod Handler
pub mod KeyStore
pub mod Retry
pub mod Accounting
pub mod Sse
pub mod OpenAi
pub mod Gemini
pub mod Anthropic
