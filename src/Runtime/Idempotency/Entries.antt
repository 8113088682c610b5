-- ===== src/Runtime/Idempotency/Entries.antt =====
-- The state of crates/runtime/src/idempotency.rs, and the removal of entries that are out of time.
use imagegen_bridge.Prelude.{
  ℕ, ◌-◌, String, Bool, true, false, ◌||◌, Option, none, some, List, [], ◌∷◌, leb, ◌==◌,
  if◌then◌else◌, saturating_sub, is_some,
}
use imagegen_bridge.Core.Error.{
  ErrorCode, BridgeError, bridge_error, with_retryable, Result, ok, err,
}
use imagegen_bridge.Runtime.Idempotency.Table.{RecordKey, find, delete}

pub record IdempotencyConfig : Type 0 where
  pub max_entries : ℕ
  pub max_completed_bytes : ℕ
  pub completed_ttl : ℕ
  pub in_flight_ttl : ℕ
  pub unknown_ttl : ℕ

-- IdempotencyConfig::default
abbrev pub default_idempotency : IdempotencyConfig
default_idempotency = record {
  max_entries = 10_000;
  max_completed_bytes = 268_435_456;
  completed_ttl = 86_400_000_000_000;
  in_flight_ttl = 1_860_000_000_000;
  unknown_ttl = 86_400_000_000_000;
}

-- IdempotencyCoordinator::new, which keeps the configuration.
unfoldable pub new_coordinator : IdempotencyConfig → Result IdempotencyConfig
new_coordinator c =
    if c.max_entries == 0
      || c.max_completed_bytes == 0
      || c.completed_ttl == 0
      || c.in_flight_ttl == 0
      || c.unknown_ttl == 0
    then err (
        bridge_error ErrorCode.configuration
          "idempotency limits and retention periods must be greater than zero")
    else ok c

pub record IdempotencyToken : Type 0 where
  pub record_key : RecordKey
  pub fingerprint : String

pub data EntryOutcome (R : Type 0) : Type 0 where
  pending : EntryOutcome R
  completed : R → EntryOutcome R
  failed : BridgeError → EntryOutcome R
  unknown : BridgeError → EntryOutcome R

-- `outcome` is the value in the entry's channel.
pub record Entry (R : Type 0) : Type 0 where
  pub fingerprint : String
  pub created_at : ℕ
  pub expires_at : Option ℕ
  pub retained_bytes : ℕ
  pub uncertain : Bool
  pub last_access : ℕ
  pub outcome : EntryOutcome R

-- The entry of a new leader.
abbrev pub new_entry : {R : Type 0} → String → ℕ → ℕ → Entry R
new_entry fingerprint now access = record {
  fingerprint = fingerprint;
  created_at = now;
  expires_at = none;
  retained_bytes = 0;
  uncertain = false;
  last_access = access;
  outcome = EntryOutcome.pending;
}

-- `dismissed` has the last value sent through the channel of each entry that was removed with one.
pub record IdempotencyState (R : Type 0) : Type 0 where
  pub entries : List (RecordKey × Entry R)
  pub completed_bytes : ℕ
  pub access_clock : ℕ
  pub dismissed : List (RecordKey × EntryOutcome R)

-- IdempotencyState::default
abbrev pub empty_state : (R : Type 0) → IdempotencyState R
empty_state R = record { entries = []; completed_bytes = 0; access_clock = 0; dismissed = [] }

-- What `begin` answers: a receiver to wait on is the key of its entry.
pub data IdempotencyAction (R : Type 0) : Type 0 where
  leader : IdempotencyToken → IdempotencyAction R
  cached : R → IdempotencyAction R
  wait : RecordKey → IdempotencyAction R

abbrev pub expired_error : BridgeError
expired_error = with_retryable true (bridge_error ErrorCode.timeout "idempotent operation expired")

module _ {R : Type 0} where
  -- IdempotencyState::remove, of an entry that is there.
  unfoldable pub take_out : RecordKey → Entry R → IdempotencyState R → IdempotencyState R
  take_out key entry s = record s {
    entries = delete key s.entries;
    completed_bytes = saturating_sub s.completed_bytes entry.retained_bytes;
  }

  -- IdempotencyState::remove
  unfoldable pub remove : RecordKey → IdempotencyState R → IdempotencyState R
  unfolding take_out
  remove key s = elim (find key s.entries) [ none ↦ s | some entry ↦ take_out key entry s ]

  -- A value sent through the channel of an entry that is gone.
  abbrev pub dismiss : RecordKey → EntryOutcome R → IdempotencyState R → IdempotencyState R
  dismiss key outcome s = record s { dismissed = (key, outcome) ∷ s.dismissed }

  unfoldable pub is_expired : ℕ → ℕ → Entry R → Bool
  is_expired now in_flight_ttl entry = elim entry.expires_at [
    | none ↦ leb in_flight_ttl (now - entry.created_at)
    | some expires ↦ leb expires now
  ]

  -- The keys of the entries that are out of time.
  unfoldable pub stale_keys : ℕ → ℕ → List (RecordKey × Entry R) → List RecordKey
  unfolding is_expired
  stale_keys now in_flight_ttl [] = []
  stale_keys now in_flight_ttl ((key, entry) ∷ table) =
      if is_expired now in_flight_ttl entry
      then key ∷ stale_keys now in_flight_ttl table
      else stale_keys now in_flight_ttl table

  unfoldable pub expire : RecordKey → IdempotencyState R → IdempotencyState R
  unfolding take_out
  expire key s = elim (find key s.entries) [
    | none ↦ s
    | some entry ↦
        if is_some entry.expires_at
        then take_out key entry s
        else dismiss key (EntryOutcome.failed expired_error) (take_out key entry s)
  ]

  unfoldable pub expire_all : List RecordKey → IdempotencyState R → IdempotencyState R
  unfolding expire
  expire_all [] s = s
  expire_all (key ∷ keys) s = expire_all keys (expire key s)

  -- IdempotencyState::cleanup
  unfoldable pub cleanup : ℕ → ℕ → IdempotencyState R → IdempotencyState R
  unfolding stale_keys expire_all
  cleanup now in_flight_ttl s = expire_all (stale_keys now in_flight_ttl s.entries) s
