-- ===== src/Runtime/Idempotency/Answers/Replay.antt =====
-- `begin` of crates/runtime/src/idempotency.rs once the leader of the key has reported its response.
use imagegen_bridge.Prelude.{
  ℕ, suc, ◌+◌, ◌<◌, String, ◌≡◌, ◌⊎◌, refl, ap, text_eq_iff, ◌∙◌, true, false, some, List, [], ◌∷◌,
  arith, length, Bool-cases, Option-cases, All, is_some, inl, inr, ltb, text_eq, saturating_add_u64,
}
use imagegen_bridge.Core.Error.{ok, err, ◌>>◌}
use imagegen_bridge.Core.Request.{ImageRequest}
use imagegen_bridge.Runtime.Idempotency.Table.{RecordKey, key_eq, find, update}
use imagegen_bridge.Runtime.Idempotency.Entries.{
  IdempotencyConfig, IdempotencyToken, EntryOutcome, Entry, IdempotencyState, IdempotencyAction,
  take_out, expire, expire_all, cleanup, is_expired, stale_keys, empty_state,
}
use imagegen_bridge.Runtime.Idempotency.Capacity.{reserve_completed_bytes}
use imagegen_bridge.Runtime.Idempotency.Completion.{
  unreplayable_error, give_up, keep, is_current, complete_at,
}
use imagegen_bridge.Runtime.Idempotency.Coordinator.{
  Codec, answer, begin_locked, begin, validate_scope, request_fingerprint, complete,
  response_weight, Event, history,
}
use imagegen_bridge.Runtime.Idempotency.Table.Laws.{
  find-delete_ne, find-update_self, Distinct, update-Distinct,
}
use imagegen_bridge.Runtime.Idempotency.Uniqueness.{history-Distinct}
use imagegen_bridge.Runtime.Idempotency.Stable.{reserve_completed_bytes-Holds}
use imagegen_bridge.Runtime.Idempotency.Flight.{IsInFlight, IsOther, flight_law, stale_keys-IsOther}
use imagegen_bridge.Runtime.Idempotency.Flight.Calls.{IsQuiet, history-IsInFlight}
use imagegen_bridge.Runtime.Idempotency.Answers.{
  looked_up, begin_locked-found, begin-locked, begin-leader,
}
use imagegen_bridge.Runtime.Idempotency.Answers.Waiting.{join-answer}

-- An entry of a reported response, or of one that is not kept.
pub record IsReported {R : Type 0} (key : RecordKey) (owner : String) (expires : ℕ)
    (outcome : EntryOutcome R) (table : List (RecordKey × Entry R)) : Type 0 where
  pub alone : Distinct table
  pub entry : Entry R
  pub found : find key table ≡ some entry
  pub timed : entry.expires_at ≡ some expires
  pub owned : entry.fingerprint ≡ owner
  pub told : entry.outcome ≡ outcome

module _ {R : Type 0} (key : RecordKey) where
  expire-find :
      (j : RecordKey) (s : IdempotencyState R)
      → key_eq key j ≡ false
      → find key (expire j s).entries ≡ find key s.entries
  unfolding expire take_out
  expire-find j s other = elim (Option-cases (find j s.entries)) [
    | inl e ↦ rw (e, expire) refl
    | inr (entry, e) ↦ elim (Bool-cases (is_some entry.expires_at)) [
      | inl timed ↦ rw (e, timed, expire) (find-delete_ne key j s.entries other)
      | inr open_ended ↦ rw (e, open_ended, expire) (find-delete_ne key j s.entries other)
    ]
  ]

  expire_all-find :
      (keys : List RecordKey) (s : IdempotencyState R)
      → All (IsOther key) keys
      → find key (expire_all keys s).entries ≡ find key s.entries
  unfolding expire_all
  expire_all-find [] s others = refl
  expire_all-find (j ∷ keys) s others =
      expire_all-find keys (expire j s) others.1 ∙ expire-find j s others.0

  -- A report that is not out of time survives the cleanup.
  cleanup-find :
      (now ttl expires : ℕ) (owner : String) (outcome : EntryOutcome R) (s : IdempotencyState R)
      → now < expires
      → (f : IsReported key owner expires outcome s.entries)
      → find key (cleanup now ttl s).entries ≡ some f.entry
  unfolding cleanup is_expired
  cleanup-find now ttl expires owner outcome s early f =
      let fresh : is_expired now ttl f.entry ≡ false = ground (arith, f.timed, early) in
      expire_all-find (stale_keys now ttl s.entries) s
        (stale_keys-IsOther key 0 owner now ttl f.entry s.entries f.alone f.found fresh)
      ∙ f.found

module _ {R : Type 0} (c : IdempotencyConfig) (key : RecordKey) (owner : String) where
  -- An entry that is written over a pending one.
  pub update-IsReported :
      (started expires : ℕ) (entry' : Entry R) (table : List (RecordKey × Entry R))
      → IsInFlight key started owner table
      → entry'.expires_at ≡ some expires
      → entry'.fingerprint ≡ owner
      → IsReported key owner expires entry'.outcome (update key entry' table)
  update-IsReported started expires entry' table f timed owned = record {
    alone = update-Distinct key entry' table f.alone;
    entry = entry';
    found = find-update_self key f.entry entry' table f.found;
    timed = timed;
    owned = owned;
    told = refl;
  }

  is_current-own :
      (started : ℕ) (s : IdempotencyState R)
      → IsInFlight key started owner s.entries
      → is_current (record { record_key = key; fingerprint = owner }) s ≡ true
  unfolding is_current
  is_current-own started s f =
      rw (f.found, is_current) ((text_eq_iff f.entry.fingerprint owner).1 f.pending.owned)

  give_up-IsReported :
      (now started : ℕ) (s : IdempotencyState R)
      → IsInFlight key started owner s.entries
      → IsReported key owner
          (now + c.completed_ttl)
          (EntryOutcome.unknown unreplayable_error)
          (give_up c now key s).entries
  unfolding give_up
  give_up-IsReported now started s f =
      rw (f.found, give_up)
        (update-IsReported started (now + c.completed_ttl) _ s.entries f refl f.pending.owned)

  keep-IsReported :
      (now started : ℕ) (response : R) (bytes : ℕ) (s : IdempotencyState R)
      → IsInFlight key started owner s.entries
      → IsReported key owner
          (now + c.completed_ttl)
          (EntryOutcome.completed response)
          (keep c now key response bytes s).entries
  unfolding keep
  keep-IsReported now started response bytes s f =
      rw (f.found, keep)
        (update-IsReported started (now + c.completed_ttl) _ s.entries f refl f.pending.owned)

  -- Room is refused only where the bytes exceed the limit.
  reserve_completed_bytes-full :
      (fuel incoming maximum : ℕ) (exclude : RecordKey) (s : IdempotencyState R)
      → (reserve_completed_bytes (suc fuel) incoming maximum exclude s).1 ≡ false
      → maximum < s.completed_bytes + incoming
  unfolding reserve_completed_bytes
  reserve_completed_bytes-full fuel incoming maximum exclude s h =
      elim (Bool-cases (ltb maximum (saturating_add_u64 s.completed_bytes incoming))) [
        | inl full ↦ ground (arith, full)
        | inr room ↦ absurd ground (arith, h, room)
      ]

  complete_at-IsReported :
      (now started : ℕ) (response : R) (bytes : ℕ) (s : IdempotencyState R)
      → IsInFlight key started owner s.entries
      → let s' =
          complete_at c now (record { record_key = key; fingerprint = owner }) response bytes s in
        IsReported key owner (now + c.completed_ttl) (EntryOutcome.completed response) s'.entries
        ⊎ (IsReported key owner
              (now + c.completed_ttl)
              (EntryOutcome.unknown unreplayable_error)
              s'.entries
            × (c.max_completed_bytes < s.completed_bytes + bytes))
  unfolding complete_at
  complete_at-IsReported now started response bytes s f =
      let token : IdempotencyToken = record { record_key = key; fingerprint = owner } in
      let limit = c.max_completed_bytes in
      let fuel = suc (length s.entries) in
      let s' = (reserve_completed_bytes fuel bytes limit key s).0 in
      let f' : IsInFlight key started owner s'.entries =
        reserve_completed_bytes-Holds (flight_law key started owner) fuel bytes limit key s f in
      let current : is_current token s ≡ true = is_current-own started s f in
      elim (Bool-cases (ltb limit bytes)) [
        | inl large ↦
            rw (current, large, complete_at)
              (inr (give_up-IsReported now started s f, ground (arith, large)))
        | inr small ↦ elim (Bool-cases (reserve_completed_bytes fuel bytes limit key s).1) [
          | inr full ↦
              rw (current, small, full, complete_at)
                (inr (
                  give_up-IsReported now started s' f',
                  reserve_completed_bytes-full (length s.entries) bytes limit key s full,
                ))
          | inl room ↦
              rw (current, small, room, complete_at)
                (inl (keep-IsReported now started response bytes s' f'))
        ]
      ]

module _ {R : Type 0} (codec : Codec R) (c : IdempotencyConfig) where
  pub begin_locked-reported :
      (key : RecordKey) (owner : String) (now expires : ℕ) (outcome : EntryOutcome R)
      (s : IdempotencyState R)
      → now < expires
      → IsReported key owner expires outcome s.entries
      → (begin_locked codec c key owner now s).1 ≡ answer codec c key outcome
  begin_locked-reported key owner now expires outcome s early f =
      let found = cleanup-find key now c.in_flight_ttl expires owner outcome s early f in
      let e = begin_locked-found codec c key owner now f.entry s found in
      let same : text_eq f.entry.fingerprint owner ≡ true =
        (text_eq_iff f.entry.fingerprint owner).1 f.owned in
      rw
        (
          e,
          join-answer codec c key owner (looked_up codec c now s).access_clock f.entry
              (looked_up codec c now s),
          same,
          f.told,
        )
        refl

  -- A response that a leader completes comes back: under the conditions of a leader at work, the
  -- next `begin` with an accepted scope and the leader's fingerprint, less than `completed_ttl`
  -- after the completion, answers the very response; or the error that it could not be kept, and
  -- then the bytes counted before the completion and those of the response exceed
  -- `max_completed_bytes`.
  pub begin-replays :
      (before : List (Event R)) (scope key : String) (request : ImageRequest) (started : ℕ)
      (token : IdempotencyToken)
      → (begin codec c scope key request started (history codec c (empty_state R) before)).1
        ≡ ok (IdempotencyAction.leader token)
      → (events : List (Event R))
      → All (IsQuiet c (record { scope = scope; key = key }) started) events
      → (response : R) (reported : ℕ) (request' : ImageRequest) (now : ℕ)
      → (validate_scope scope >> request_fingerprint codec request') ≡ ok token.fingerprint
      → now < reported + c.completed_ttl
      → let s = history codec c (empty_state R) before in
        let later = history codec c (begin codec c scope key request started s).0 events in
        let result =
          (begin codec c scope key request' now
            (complete codec c token response reported later)).1 in
        (result ≡ ok (IdempotencyAction.cached response))
        ⊎ ((result ≡ err unreplayable_error)
            × (c.max_completed_bytes < later.completed_bytes + response_weight codec response))
  unfolding complete answer
  begin-replays before scope key request started token h events quiet response reported request' now
        made early =
      let k : RecordKey = record { scope = scope; key = key } in
      let s = history codec c (empty_state R) before in
      let led =
        begin-leader codec c scope key request started token s
          (history-Distinct codec c before (empty_state R) tt) h in
      let later = history codec c (begin codec c scope key request started s).0 events in
      let f =
        history-IsInFlight codec c k started token.fingerprint events
          (begin codec c scope key request started s).0 quiet led.1 in
      let own : token ≡ record { record_key = k; fingerprint = token.fingerprint } =
        ap (λ r. record { record_key = r; fingerprint = token.fingerprint }) led.0 in
      let bytes = response_weight codec response in
      let owner = token.fingerprint in
      let expires = reported + c.completed_ttl in
      let s' =
        complete_at c reported (record { record_key = k; fingerprint = owner }) response bytes
          later in
      rw (own, begin-locked codec c scope key owner request' now s' made)
        (elim (complete_at-IsReported c k owner reported started response bytes later f) [
          | inl kept ↦ inl (
              begin_locked-reported k owner now expires (EntryOutcome.completed response) s' early
                kept)
          | inr (given_up, large) ↦ inr (
            begin_locked-reported k owner now expires (EntryOutcome.unknown unreplayable_error) s'
                early given_up,
            large,
          )
        ])
