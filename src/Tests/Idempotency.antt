-- ===== src/Tests/Idempotency.antt =====
-- Examples for the theorems on crates/runtime/src/idempotency.rs.
use imagegen_bridge.Prelude.{
  none, true, ℕ, ◌+◌, String, ◌≡◌, ◌≤◌, ◌<◌, ◌⊎◌, refl, some, List, [], ◌∷◌, arith, length,
  any_char, text_len, All, lookup,
}
use imagegen_bridge.Core.Error.{Json, BridgeError, bridge_error, ErrorCode, ok, err}
use imagegen_bridge.Core.Request.{ImageRequest, generate_request}
use imagegen_bridge.Runtime.Idempotency.Table.{key_eq, find, update, delete, oldest}
use imagegen_bridge.Runtime.Idempotency.Table.Laws.{total}
use imagegen_bridge.Runtime.Idempotency.Entries.{
  IdempotencyConfig, IdempotencyToken, IdempotencyState, IdempotencyAction, new_coordinator,
  empty_state, take_out, remove, is_expired, stale_keys, expire, expire_all, cleanup,
}
use imagegen_bridge.Runtime.Idempotency.Capacity.{make_capacity, reserve_completed_bytes}
use imagegen_bridge.Runtime.Idempotency.Completion.{
  give_up, keep, is_current, complete_at, unreplayable_error,
}
use imagegen_bridge.Runtime.Idempotency.Coordinator.{
  Codec, validate_scope, response_weight, request_fingerprint, answer, join, lead, begin_locked,
  begin, complete, fail_current, fail, Event, handle, history, conflict_error,
}
use imagegen_bridge.Runtime.Idempotency.Bounds.Calls.{history-bounds}
use imagegen_bridge.Runtime.Idempotency.Flight.Calls.{IsQuiet}
use imagegen_bridge.Runtime.Idempotency.Answers.Waiting.{begin-in_flight}
use imagegen_bridge.Runtime.Idempotency.Answers.Replay.{begin-replays}
use imagegen_bridge.Runtime.Idempotency.Answers.Tombstone.{unknown_error, begin-after_unknown}

-- The prompt is the digest, and a response is its number of bytes.
abbrev codec : Codec ℕ
codec = record { digest = λ request. ok request.prompt; json_bytes = λ bytes. some bytes }

abbrev config : IdempotencyConfig
config = record {
  max_entries = 2;
  max_completed_bytes = 1_000;
  completed_ttl = 50;
  in_flight_ttl = 100;
  unknown_ttl = 200;
}

abbrev scope : String
scope = "tenant"

abbrev fox : ImageRequest
fox = generate_request "a fox"

abbrev owl : ImageRequest
owl = generate_request "an owl"

abbrev token_of : String → IdempotencyToken
token_of key = record { record_key = record { scope = scope; key = key }; fingerprint = "a fox" }

-- A key that has been completed, and another that has failed.
abbrev before : List (Event ℕ)
before =
    Event.begins scope "a" fox 0
    ∷ Event.completes (token_of "a") 300 1
    ∷ Event.begins scope "b" fox 2
    ∷ Event.fails (token_of "b") (bridge_error ErrorCode.upstream "no") 3
    ∷ []

-- Calls for other keys, and of the same key, while the leader is at work.
abbrev meanwhile : List (Event ℕ)
meanwhile =
    Event.begins scope "a" fox 20
    ∷ Event.begins scope "k" fox 30
    ∷ Event.completes (token_of "a") 200 40
    ∷ Event.begins scope "k" owl 45
    ∷ []

abbrev leading : IdempotencyState ℕ
leading = (begin codec config scope "k" fox 10 (history codec config (empty_state ℕ) before)).0

abbrev later : IdempotencyState ℕ
later = history codec config leading meanwhile

history-bounds_example :
    (total (λ e. e.retained_bytes) (history codec config (empty_state ℕ) before).entries
      ≤ (history codec config (empty_state ℕ) before).completed_bytes)
    × ((history codec config (empty_state ℕ) before).completed_bytes ≤ 1_000)
    × (length (history codec config (empty_state ℕ) before).entries ≤ 2)
unfolding new_coordinator
history-bounds_example = history-bounds config codec before refl (ground arith)

leads :
    (begin codec config scope "k" fox 10 (history codec config (empty_state ℕ) before)).1
    ≡ ok (IdempotencyAction.leader (token_of "k"))
unfolding validate_scope request_fingerprint begin begin_locked history text_len any_char find
    cleanup stale_keys is_expired expire_all expire take_out remove handle fail fail_current
    complete complete_at is_current give_up keep make_capacity oldest join lead answer key_eq
    response_weight reserve_completed_bytes update lookup bridge_error delete
leads = refl

quiet : All (IsQuiet config (record { scope = scope; key = "k" }) 10) meanwhile
unfolding key_eq
quiet = (ground arith, (ground arith, (refl, (ground arith, tt))))

begin-in_flight_example : (begin codec config scope "k" owl 60 later).1 ≡ err conflict_error
unfolding validate_scope request_fingerprint text_len any_char
begin-in_flight_example =
    begin-in_flight codec config before scope "k" fox 10 (token_of "k") leads meanwhile quiet owl 60
      (ground arith)

begin-replays_example :
    let result =
      (begin codec config scope "k" fox 70 (complete codec config (token_of "k") 400 65 later)).1 in
    (result ≡ ok (IdempotencyAction.cached 400))
    ⊎ ((result ≡ err unreplayable_error)
        × (1_000 < later.completed_bytes + response_weight codec 400))
unfolding validate_scope request_fingerprint text_len any_char
begin-replays_example =
    begin-replays codec config before scope "k" fox 10 (token_of "k") leads meanwhile quiet 400 65
      fox 70 refl (ground arith)

-- A provider that may still be at work.
abbrev lost : BridgeError
lost = record {
  code = ErrorCode.timeout;
  message = "late";
  retryable = true;
  provider = none;
  upstream_request_id = none;
  details = ("outcome", Json.text "unknown") ∷ [];
  suggestions = [];
}

begin-after_unknown_example :
    (begin codec config scope "k" fox 250 (fail codec config (token_of "k") lost 65 later)).1
    ≡ err (unknown_error lost)
unfolding validate_scope request_fingerprint text_len any_char lookup
begin-after_unknown_example =
    begin-after_unknown codec config before scope "k" fox 10 (token_of "k") leads meanwhile quiet
      lost 65 fox 250 refl refl (ground arith)

-- Two leaders of a key: the first is out of time when the second begins, and both report.
abbrev twice : IdempotencyState ℕ
twice = history codec config (empty_state ℕ) (
    Event.begins scope "k" fox 0
    ∷ Event.begins scope "k" fox 100
    ∷ Event.completes (token_of "k") 44 101
    ∷ Event.completes (token_of "k") 44 102
    ∷ [])

-- The bytes of the entry are counted twice.
counted_twice : (twice.completed_bytes ≡ 600) × (total (λ e. e.retained_bytes) twice.entries ≡ 300)
unfolding total validate_scope request_fingerprint begin begin_locked history text_len any_char find
    cleanup stale_keys is_expired expire_all expire take_out remove handle fail fail_current
    complete complete_at is_current give_up keep make_capacity oldest join lead answer key_eq
    response_weight reserve_completed_bytes update lookup bridge_error delete
counted_twice = (refl, refl)
