-- ===== src/Runtime/Idempotency/Coordinator.antt =====
-- The methods of `IdempotencyCoordinator` in crates/runtime/src/idempotency.rs, and histories of calls.
use imagegen_bridge.Prelude.{
  ℕ, ◌+◌, String, Bool, true, false, ◌||◌, Option, none, some, List, [], ◌∷◌, leb, ltb, ◌==◌,
  if◌then◌else◌, text_eq, text_len, any_char, is_control, lookup, u64_max, saturating_add_u64,
}
use imagegen_bridge.Core.Error.{
  ErrorCode, Json, BridgeError, bridge_error, with_retryable, with_detail, Result, ok, err, ◌>>◌,
}
use imagegen_bridge.Core.Request.{ImageRequest}
use imagegen_bridge.Runtime.Idempotency.Table.{RecordKey, find, update}
use imagegen_bridge.Runtime.Idempotency.Entries.{
  IdempotencyConfig, IdempotencyToken, EntryOutcome, Entry, IdempotencyState, IdempotencyAction,
  new_entry, take_out, dismiss, cleanup,
}
use imagegen_bridge.Runtime.Idempotency.Capacity.{make_capacity}
use imagegen_bridge.Runtime.Idempotency.Completion.{complete_at}

-- The calls of the libraries: the digest of the serialized request, and the bytes of the serialized
-- response, which `response_weight` counts on top of 256.
pub record Codec (R : Type 0) : Type 0 where
  pub digest : ImageRequest → Result String
  pub json_bytes : R → Option ℕ

unfoldable pub validate_scope : String → Result (Unit {0})
validate_scope scope =
    if text_len scope == 0 || ltb 256 (text_len scope) || any_char is_control scope
    then err (bridge_error ErrorCode.invalid_request "invalid idempotency scope")
    else ok tt

-- response_weight, where a serialization that fails counts as `usize::MAX`.
unfoldable pub response_weight : {R : Type 0} → Codec R → R → ℕ
response_weight codec response = elim (codec.json_bytes response) [
  | none ↦ u64_max
  | some bytes ↦ if leb (256 + bytes) u64_max then 256 + bytes else u64_max
]

-- The request without its key and its timeout, digested.
unfoldable pub request_fingerprint : {R : Type 0} → Codec R → ImageRequest → Result String
request_fingerprint codec request =
    codec.digest (record request { idempotency_key = none; timeout_ms = none })

abbrev pub conflict_error : BridgeError
conflict_error =
    bridge_error ErrorCode.idempotency_conflict
      "idempotency key was already used for a different request"

-- Whether the error says that the outcome is unknown.
abbrev pub is_unknown : BridgeError → Bool
is_unknown e = elim (lookup "outcome" e.details) [
  | some (Json.text outcome) ↦ text_eq outcome "unknown"
  | _ ↦ false
]

module _ {R : Type 0} (codec : Codec R) (c : IdempotencyConfig) where
  -- The answer about an entry of the same request.
  unfoldable pub answer : RecordKey → EntryOutcome R → Result (IdempotencyAction R)
  answer key (EntryOutcome.completed response) = ok (IdempotencyAction.cached response)
  answer key (EntryOutcome.failed e) = err e
  answer key (EntryOutcome.unknown e) = err e
  answer key EntryOutcome.pending = ok (IdempotencyAction.wait key)

  unfoldable pub join :
      RecordKey
      → String
      → ℕ
      → Entry R
      → IdempotencyState R
      → IdempotencyState R × Result (IdempotencyAction R)
  unfolding answer
  join key fingerprint access entry s =
      if text_eq entry.fingerprint fingerprint
      then (
        record s { entries = update key (record entry { last_access = access }) s.entries },
        answer key entry.outcome,
      )
      else (s, err conflict_error)

  -- A new entry, once there is room for it.
  unfoldable pub lead :
      RecordKey
      → String
      → ℕ
      → ℕ
      → IdempotencyState R × Result (Unit {0})
      → IdempotencyState R × Result (IdempotencyAction R)
  lead key fingerprint now access (s, err e) = (s, err e)
  lead key fingerprint now access (s, ok _) = (
    record s { entries = (key, new_entry fingerprint now access) ∷ s.entries },
    ok (IdempotencyAction.leader (record { record_key = key; fingerprint = fingerprint })),
  )

  -- `begin` with the mutex held.
  unfoldable pub begin_locked :
      RecordKey
      → String
      → ℕ
      → IdempotencyState R
      → IdempotencyState R × Result (IdempotencyAction R)
  unfolding join lead
  begin_locked key fingerprint now s =
      let cleaned = cleanup now c.in_flight_ttl s in
      let access = saturating_add_u64 cleaned.access_clock 1 in
      let s' = record cleaned { access_clock = access } in
      elim (find key s'.entries) [
        | some entry ↦ join key fingerprint access entry s'
        | none ↦ lead key fingerprint now access (make_capacity c.max_entries s')
      ]

  unfoldable pub begin :
      String
      → String
      → ImageRequest
      → ℕ
      → IdempotencyState R
      → IdempotencyState R × Result (IdempotencyAction R)
  unfolding begin_locked
  begin scope key request now s = elim (validate_scope scope >> request_fingerprint codec request) [
    | err e ↦ (s, err e)
    | ok fingerprint ↦ begin_locked (record { scope = scope; key = key }) fingerprint now s
  ]

  unfoldable pub complete : IdempotencyToken → R → ℕ → IdempotencyState R → IdempotencyState R
  complete token response now s =
      complete_at c now token response (response_weight codec response) s

  unfoldable pub fail_current :
      IdempotencyToken → BridgeError → ℕ → Entry R → IdempotencyState R → IdempotencyState R
  fail_current token e now entry s =
      if is_unknown e
      then record s {
        entries =
            update token.record_key
              (record entry {
                expires_at = some (now + c.unknown_ttl);
                uncertain = true;
                outcome =
                    EntryOutcome.unknown
                      (with_detail "outcome" (Json.text "unknown") (with_retryable false e));
              })
              s.entries;
      }
      else dismiss token.record_key (EntryOutcome.failed e) (take_out token.record_key entry s)

  unfoldable pub fail : IdempotencyToken → BridgeError → ℕ → IdempotencyState R → IdempotencyState R
  unfolding fail_current
  fail token e now s = elim (find token.record_key s.entries) [
    | none ↦ s
    | some entry ↦
        if text_eq entry.fingerprint token.fingerprint then fail_current token e now entry s else s
  ]

-- A call of a method, by any caller, at a reading of the clock.
pub data Event (R : Type 0) : Type 0 where
  begins : String → String → ImageRequest → ℕ → Event R
  completes : IdempotencyToken → R → ℕ → Event R
  fails : IdempotencyToken → BridgeError → ℕ → Event R

module _ {R : Type 0} (codec : Codec R) (c : IdempotencyConfig) where
  unfoldable pub handle : IdempotencyState R → Event R → IdempotencyState R
  handle s (begins scope key request now) = (begin codec c scope key request now s).0
  handle s (completes token response now) = complete codec c token response now s
  handle s (fails token e now) = fail codec c token e now s

  unfoldable pub history : IdempotencyState R → List (Event R) → IdempotencyState R
  history s [] = s
  history s (e ∷ events) = history (handle s e) events
