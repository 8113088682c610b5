-- ===== src/Runtime/Idempotency/Flight.antt =====
-- A leader of crates/runtime/src/idempotency.rs: its entry stays in the table while others call.
pub mod Calls
use imagegen_bridge.Prelude.{
  ℕ, zero, suc, ◌+◌, ◌-◌, ◌≤◌, ◌<◌, String, ◌≡◌, refl, ◌∙◌, Bool, true, false, Option, none, some,
  List, [], ◌∷◌, arith, length, Bool-cases, Option-cases, All, is_some, u64_max, inl, inr, ltb,
  text_eq, saturating_add_u64, saturating_sub,
}
use imagegen_bridge.Core.Error.{
  BridgeError, Result, Result-cases, Json, with_detail, with_retryable, ok, err, ◌>>◌,
}
use imagegen_bridge.Core.Request.{ImageRequest}
use imagegen_bridge.Runtime.Idempotency.Table.{RecordKey, key_eq, find, update, delete, oldest}
use imagegen_bridge.Runtime.Idempotency.Table.Laws.{
  total, total-delete, length-delete, total-update, length-update, oldest-is_some,
}
use imagegen_bridge.Runtime.Idempotency.Entries.{
  IdempotencyConfig, IdempotencyToken, EntryOutcome, Entry, IdempotencyState, IdempotencyAction,
  take_out, remove, dismiss, expire, expire_all, cleanup, is_expired, stale_keys, empty_state,
  new_coordinator,
}
use imagegen_bridge.Runtime.Idempotency.Capacity.{
  make_capacity, reserve_completed_bytes, is_settled, is_evictable,
}
use imagegen_bridge.Runtime.Idempotency.Completion.{
  unreplayable_error, give_up, keep, is_current, complete_at,
}
use imagegen_bridge.Runtime.Idempotency.Coordinator.{
  Codec, join, lead, begin_locked, begin, validate_scope, request_fingerprint, complete,
  response_weight, is_unknown, fail_current, fail, Event, handle, history,
}
use imagegen_bridge.Runtime.Idempotency.Stable.{
  Stability, remove-Holds, expire_all-Holds, make_capacity-Holds,
}
use imagegen_bridge.Runtime.Idempotency.Stable.Calls.{complete_at-Holds, fail-Holds}
use imagegen_bridge.Runtime.Idempotency.Table.Laws.{
  key_eq_iff, key_eq_refl, key_eq_ne, find-delete_ne, find-update_ne, find-update_self, oldest-find,
  Distinct, delete-Distinct, update-Distinct,
}
use imagegen_bridge.Runtime.Idempotency.Uniqueness.{
  cleanup-Distinct, make_capacity-absent, lead-Distinct,
}

-- An entry of a leader that has not reported.
pub record IsPending {R : Type 0} (started : ℕ) (owner : String) (entry : Entry R) : Type 0 where
  pub open_ended : entry.expires_at ≡ none
  pub created : entry.created_at ≡ started
  pub weightless : entry.retained_bytes ≡ 0
  pub owned : entry.fingerprint ≡ owner
  pub awaited : entry.outcome ≡ EntryOutcome.pending

-- The entry of a key is pending, and no key stands twice.
pub record IsInFlight {R : Type 0} (key : RecordKey) (started : ℕ) (owner : String)
    (table : List (RecordKey × Entry R)) : Type 0 where
  pub alone : Distinct table
  pub entry : Entry R
  pub found : find key table ≡ some entry
  pub pending : IsPending started owner entry

abbrev pub IsOther : RecordKey → RecordKey → Type 0
IsOther key j = key_eq key j ≡ false

module _ {R : Type 0} (key : RecordKey) (started : ℕ) (owner : String) where
  -- An entry that is settled or has bytes is of another key.
  pub other_of_settled :
      (k : RecordKey) (entry : Entry R) (table : List (RecordKey × Entry R))
      → IsInFlight key started owner table
      → oldest is_settled (λ e. e.last_access) table ≡ some (k, entry)
      → key_eq key k ≡ false
  other_of_settled k entry table f h =
      let there = oldest-find is_settled (λ e. e.last_access) k entry table f.alone h in
      elim (Bool-cases (key_eq key k)) [
        | inr other ↦ other
        | inl same ↦
            let e : key ≡ k = (key_eq_iff key k).0 same in
            let e' : f.entry ≡ entry = ground (arith, f.found, there.0, e) in
            absurd ground (arith, there.1, e', f.pending.open_ended)
      ]

  pub other_of_evictable :
      (exclude k : RecordKey) (entry : Entry R) (table : List (RecordKey × Entry R))
      → IsInFlight key started owner table
      → oldest (is_evictable exclude) (λ e. e.last_access) table ≡ some (k, entry)
      → key_eq key k ≡ false
  other_of_evictable exclude k entry table f h =
      let there = oldest-find (is_evictable exclude) (λ e. e.last_access) k entry table f.alone h in
      elim (Bool-cases (key_eq key k)) [
        | inr other ↦ other
        | inl same ↦
            let e : key ≡ k = (key_eq_iff key k).0 same in
            let e' : f.entry ≡ entry = ground (arith, f.found, there.0, e) in
            absurd ground (arith, there.1, e', f.pending.weightless)
      ]

  abbrev pub flight_law : Stability R
  flight_law = record {
    Allowed = IsOther key;
    Holds = IsInFlight key started owner;
    delete_holds = λ k table other f. record {
      alone = delete-Distinct k table f.alone;
      entry = f.entry;
      found = find-delete_ne key k table other ∙ f.found;
      pending = f.pending;
    };
    update_holds = λ k entry table other f. record {
      alone = update-Distinct k entry table f.alone;
      entry = f.entry;
      found = find-update_ne key k entry table other ∙ f.found;
      pending = f.pending;
    };
    settled_allowed = other_of_settled;
    evictable_allowed = other_of_evictable;
  }

  -- The entries of other keys alone go out of time.
  stale_keys-absent :
      (now ttl : ℕ) (table : List (RecordKey × Entry R))
      → find key table ≡ none
      → All (IsOther key) (stale_keys now ttl table)
  unfolding find stale_keys
  stale_keys-absent now ttl [] h = tt
  stale_keys-absent now ttl ((j, w) ∷ table) h = elim (Bool-cases (key_eq key j)) [
    | inl same ↦ absurd ground (arith, h, same)
    | inr other ↦
        let rest = stale_keys-absent now ttl table (ground (arith, h, other)) in
        elim (Bool-cases (is_expired now ttl w)) [
          | inl stale ↦ rw (stale, stale_keys) (other, rest)
          | inr fresh ↦ rw (fresh, stale_keys) rest
        ]
  ]

  pub stale_keys-IsOther :
      (now ttl : ℕ) (entry : Entry R) (table : List (RecordKey × Entry R))
      → Distinct table
      → find key table ≡ some entry
      → is_expired now ttl entry ≡ false
      → All (IsOther key) (stale_keys now ttl table)
  unfolding find stale_keys
  stale_keys-IsOther now ttl entry [] d h fresh = tt
  stale_keys-IsOther now ttl entry ((j, w) ∷ table) d h fresh = elim (Bool-cases (key_eq key j)) [
    | inl same ↦
        let e : key ≡ j = (key_eq_iff key j).0 same in
        let e' : w ≡ entry = ground (arith, h, same) in
        let rest = stale_keys-absent now ttl table (ground (arith, d.0, e)) in
        let fresh' : is_expired now ttl w ≡ false = ground (arith, e', fresh) in
        rw (fresh', stale_keys) rest
    | inr other ↦
        let rest = stale_keys-IsOther now ttl entry table d.1 (ground (arith, h, other)) fresh in
        elim (Bool-cases (is_expired now ttl w)) [
          | inl stale ↦ rw (stale, stale_keys) (other, rest)
          | inr fresh' ↦ rw (fresh', stale_keys) rest
        ]
  ]

  -- Its own entry is not out of time before the limit on leaders is over.
  pub cleanup-IsInFlight :
      (now ttl : ℕ) (s : IdempotencyState R)
      → now - started < ttl
      → IsInFlight key started owner s.entries
      → IsInFlight key started owner (cleanup now ttl s).entries
  unfolding cleanup is_expired
  cleanup-IsInFlight now ttl s early f =
      let p = f.pending in
      let fresh : is_expired now ttl f.entry ≡ false =
        ground (arith, p.open_ended, p.created, early) in
      expire_all-Holds flight_law (stale_keys now ttl s.entries) s
        (stale_keys-IsOther now ttl f.entry s.entries f.alone f.found fresh) f
