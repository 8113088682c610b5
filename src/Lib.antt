-- ===== src/Lib.antt =====
-- imagegen-bridge: image generation through interchangeable providers. A request (crates/core) is
-- negotiated against the capabilities that a provider declares, which yields an effective request and
-- a list of normalizations, or an error; the runtime (crates/runtime) then calls the provider behind
-- a bounded queue and a circuit breaker; the provider of crates/codex-responses decodes a stream of
-- server-sent events.
--
-- Prelude: names of the libraries, Boolean tests, lists, saturating words, texts, sorting and ordered maps.
--
-- Core.Error: crates/core/src/error.rs. `BridgeError` with its builders (`new` is `bridge_error`,
--   `retryable` is `with_retryable`), `default_suggestions`, and `Result` with its `?` as the bind of
--   a do block. A JSON value is one that the modelled code attaches to an error or a normalization.
-- Core.Parameters: crates/core/src/parameters.rs. The enumerations; Wire has the names that the macro
--   `string_enum` gives them and their equality, Decimal the decimal text of a `u32`, Sizes the
--   methods of `ImageSize`.
-- Core.Request: crates/core/src/request.rs. The request, its parts and their defaults.
-- Core.Response: crates/core/src/response.rs. What a provider returns, as data.
-- Core.Capabilities: crates/core/src/capabilities.rs. What a provider declares, and `validate`. A
--   `BTreeSet` is the list of its elements in ascending order. The floating-point numbers of
--   `max_aspect_ratio` are an interface, `Floats`.
-- Core.Negotiation: crates/core/src/negotiation.rs. `negotiate_request` is the checks, the stages and
--   the check of the revised prompt. A stage takes a `Draft`, the request with the list that the
--   source extends in place, to the next one. Checks, Stages, Values, SizeStage and Prompt have the
--   functions of the source, Recording what they share. Choice describes each stage by one relation,
--   Stage; Outcome joins the relations of all of them; Guarantees says what a caller may rely on.
--
-- Runtime.Circuit: crates/runtime/src/circuit_breaker.rs. The methods of `CircuitBreaker` take the
--   breaker to the next one, since each holds the mutex for its whole body; a `CircuitPermit` is its
--   kind. `System` has the breaker with the permits that are out, and a `Call` acquires a permit,
--   finishes one or drops one, so that a list of calls is an interleaving of any number of callers.
--   An `Instant` and a `Duration` are numbers of nanoseconds, and their sum does not overflow; the
--   reading of the clock is an argument. Invariant relates the counters to the permits that are out,
--   and Runs carries that through every history.
--
-- Runtime.Queue: crates/runtime/src/admission.rs, the bounded queue of `AdmissionGate`: `reserve_queue`
--   with its loop of compare and exchange and the drop of a `QueueReservation`, as atomic steps of any
--   number of callers in any order. The semaphore, the deadline and the cancellation of `acquire` are
--   not modelled.
--
-- Runtime.Idempotency: crates/runtime/src/idempotency.rs, the coordinator that lets one caller lead the
--   execution of a key and replays its response. Table has the `HashMap` as a list of its entries,
--   Entries the state with `remove` and `cleanup`, Capacity `make_capacity` and
--   `reserve_completed_bytes`, Completion `complete` of the state, Coordinator the methods and lists of
--   calls (`Event`, `history`). The value in the channel of an entry is a field of it; the digest of a
--   request and the JSON size of a response are a parameter, `Codec`. Bounds follows the limits, Stable
--   says what removals and writes of some keys keep, Flight follows the entry of a leader at work, and
--   Answers what callers are answered.
--
-- Runtime.Fanout: crates/runtime/src/fanout/mod.rs, which serves a request for many outputs by several
--   calls. Chunks has the cut of the outputs, Plan the configuration and the capabilities, Batch the
--   calls that are active (a `Completion` is the end of one, and they come in any order), Merge and
--   Aggregate the response, Serve `execute` after `validate_request`. The provider's answers and the
--   readings of the clock are arguments; the semaphore, the channels and `subrequest_id` are left out.
--   Coverage counts the images and failures of an output, Schedule follows the calls, Outputs, Ending
--   and Serve.Totals join the two.
--
-- Core.Validation: crates/core/src/validation.rs. Names has the texts that are accepted as names and
--   paths, Rules, Outputs and Inputs the rules, each as a function into the issues it reports, Report
--   `validation_issues` and `validate_request`. The closure `issue` becomes the cut of the list of all
--   calls. Bounds follows the length of the report, Sorted its elements and their order, Accepted what an
--   accepted request satisfies.
--
-- Runtime.Routing: crates/runtime/src/orchestrator.rs. Policy has what the runtime makes of an error,
--   Runtime.Routing the loop of `execute_leader` over the routes of a request; what `execute_route` and
--   `attach_metadata` come to is an argument, `Environment`. Fallback says which routes are tried,
--   Delivery what a caller gets of the one that succeeds and Unknown what follows an interrupted execution; Runtime.Circuit.Rerouting joins the breaker.
--
-- Codex.Sse: crates/codex-responses/src/sse.rs, which decodes the provider's event stream. A byte is a
--   number and a text the list of its bytes, tested by `from_utf8`; the field `data` is `pending`. The
--   methods take the decoder to the next one with the completed events; `push_all` is the loop of
--   crates/codex-responses/src/provider.rs that pushes every chunk. Feed has the automaton that reads
--   one byte at a time, Chunks compares ways to cut the stream, Bounds and Retention follow the limits.
--
-- Tests: runs on concrete inputs.
--
-- Four definitions take fuel. `show_onto`, which prints a number, has one unit more than the number, and
-- a step divides it by ten. `drain`, the loop of `push`, has one unit more than the buffer has bytes,
-- and a step takes a line with its newline off the buffer. `reserve_completed_bytes` has one unit more
-- than there are entries, and a step removes one. `chunks_from` has one for each output, and a step takes
-- an output or more where the provider serves one at all; with no fuel left it is none. Saturating counters
-- and the wrap-around of 8-bit indices are written out; a history of the breaker is taken short enough for
-- the 64-bit counters not to saturate.
--
-- Not modelled: serde and JSON Schema code, which is derived; HTTP, subprocess, file and database
-- access; the rest of the orchestrator and the other modules of crates/runtime, the providers, the
-- artifact store, the configuration, the server, the dashboard and the command line.
pub mod Prelude
pub mod Core
pub mod Runtime
pub mod Codex
pub mod Tests
