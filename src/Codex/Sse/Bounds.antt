-- ===== src/Codex/Sse/Bounds.antt =====
-- What the decoder of crates/codex-responses/src/sse.rs retains and hands out stays within its limits.
use mathlib.Core.Path.{ap}
use imagegen_bridge.Prelude.{
  ℕ, ◌+◌, ◌≤◌, ◌<◌, ◌≡◌, refl, sym, subst, false, List, [], ◌∷◌, ◌++◌, arith, length, length-append,
  ltb, ◌==◌, if◌then◌else◌, inl, inr, All, Bool-cases, Option-cases, u64_max, saturating_add_u64,
}
use imagegen_bridge.Core.Error.{Result, ok, ◌>>=◌, >>=-eq-ok}
use imagegen_bridge.Codex.Sse.{
  SseDecoder, SseLimits, Progress, flush_event, add_data, process_line, take_line, strip_cr,
  strip_prefix, after_space, join_data, data_prefix, is_nil, with_buffer, from_utf8,
}
use imagegen_bridge.Codex.Sse.Feed.{feed, feed_all}

-- An event that is handed out: it has a byte, and no more than the limit.
abbrev pub IsEvent : SseLimits → List ℕ → Type 0
IsEvent limits event = (0 < length event) × (length event ≤ limits.max_event_bytes)

-- The decoder's unfinished event, the count of its events and the events handed out are in bounds.
pub record IsBounded (limits : SseLimits) (p : Progress) : Type 0 where
  pub same : p.decoder.limits ≡ limits
  pub pending : length p.decoder.pending ≤ limits.max_event_bytes
  pub count : p.decoder.events ≤ limits.max_events
  pub emitted : All (IsEvent limits) p.events

All-snoc :
    (limits : SseLimits) (xs : List (List ℕ)) (x : List ℕ)
    → All (IsEvent limits) xs
    → IsEvent limits x
    → All (IsEvent limits) (xs ++ x ∷ [])
All-snoc limits [] x h hx = (hx, tt)
All-snoc limits (y ∷ xs) x h hx = (h.0, All-snoc limits xs x h.1 hx)

is_nil-length : (bs : List ℕ) → is_nil bs ≡ false → 0 < length bs
is_nil-length [] h = cc
is_nil-length (b ∷ bs) h = omega arith

length-join_data :
    (old value : List ℕ)
    → length (join_data old value) ≡ length old + (length value + (if is_nil old then 0 else 1))
unfolding join_data
length-join_data [] value = omega arith
length-join_data (b ∷ old) value = omega (arith, length-append old (b'\n' ∷ value))

fits :
    (a b limit : ℕ) → limit < u64_max → ltb limit (saturating_add_u64 a b) ≡ false → a + b ≤ limit
fits a b limit word h = ground arith

module _ (limits : SseLimits)
    (words : (limits.max_events < u64_max) × (limits.max_event_bytes < u64_max)) where
  flush_event-IsBounded :
      (d : SseDecoder) (es : List (List ℕ)) (q : Progress)
      → IsBounded limits (record { decoder = record d { limits = limits }; events = es })
      → flush_event (record { decoder = record d { limits = limits }; events = es }) ≡ ok q
      → IsBounded limits q
  unfolding flush_event
  flush_event-IsBounded d es q v h = elim (Bool-cases (is_nil d.pending)) [
    | inl empty ↦
        let same : record { decoder = record d { limits = limits }; events = es } ≡ q =
          ground arith in
        subst (IsBounded limits) same v
    | inr full ↦ elim (Bool-cases (ltb limits.max_events (saturating_add_u64 d.events 1))) [
      | inl over ↦ absurd (ground arith)
      | inr room ↦
          let same : record {
            decoder = record d {
              limits = limits;
              events = saturating_add_u64 d.events 1;
              pending = [];
            };
            events = es ++ d.pending ∷ [];
          }
              ≡ q =
            ground arith in
          subst (IsBounded limits) same (record {
            same = refl;
            pending = omega arith;
            count = ground arith;
            emitted =
                All-snoc limits es d.pending v.emitted (is_nil-length d.pending full, v.pending);
          })
    ]
  ]

  add_data-IsBounded :
      (d : SseDecoder) (es : List (List ℕ)) (value : List ℕ) (q : Progress)
      → IsBounded limits (record { decoder = record d { limits = limits }; events = es })
      → add_data (record { decoder = record d { limits = limits }; events = es }) value ≡ ok q
      → IsBounded limits q
  unfolding add_data
  add_data-IsBounded d es value q v h =
      let more = length value + (if is_nil d.pending then 0 else 1) in
      elim (Bool-cases (ltb limits.max_event_bytes (saturating_add_u64 (length d.pending) more))) [
        | inl over ↦ absurd (ground arith)
        | inr room ↦
            let same : record {
              decoder = record d { limits = limits; pending = join_data d.pending value };
              events = es;
            }
                ≡ q =
              ground arith in
            subst (IsBounded limits) same (record {
              same = refl;
              pending =
                  subst (λ n. n ≤ limits.max_event_bytes) (sym (length-join_data d.pending value))
                    (fits (length d.pending) more limits.max_event_bytes words.1 room);
              count = v.count;
              emitted = v.emitted;
            })
      ]

  -- The same for a decoder that has the limits.
  at_limits :
      (step : Progress → Result Progress)
      → ((d : SseDecoder) (es : List (List ℕ)) (q : Progress)
          → IsBounded limits (record { decoder = record d { limits = limits }; events = es })
          → step (record { decoder = record d { limits = limits }; events = es }) ≡ ok q
          → IsBounded limits q)
      → (p q : Progress) → IsBounded limits p
      → step p ≡ ok q
      → IsBounded limits q
  at_limits step keeps p q v h =
      let e : record p { decoder = record p.decoder { limits = limits } } ≡ p =
        ap (λ l. record p { decoder = record p.decoder { limits = l } }) (sym v.same) in
      keeps p.decoder p.events q (subst (IsBounded limits) (sym e) v)
        (subst (λ x. step x ≡ ok q) (sym e) h)

  process_line-IsBounded :
      (p q : Progress) (line : List ℕ)
      → IsBounded limits p
      → process_line p line ≡ ok q
      → IsBounded limits q
  unfolding process_line
  process_line-IsBounded p q [] v h = at_limits flush_event flush_event-IsBounded p q v h
  process_line-IsBounded p q (b ∷ line) v h = elim (Bool-cases (b == b':')) [
    | inl comment ↦ let same : p ≡ q = ground arith in subst (IsBounded limits) same v
    | inr other ↦ elim (Option-cases (strip_prefix data_prefix (b ∷ line))) [
      | inl e ↦ let same : p ≡ q = ground arith in subst (IsBounded limits) same v
      | inr (value, e) ↦
          at_limits (λ x. add_data x (after_space value))
            (λ d es q' w h'. add_data-IsBounded d es (after_space value) q' w h') p q v
            (ground arith)
    ]
  ]

  take_line-IsBounded :
      (p q : Progress) (line : List ℕ)
      → IsBounded limits p
      → take_line p line ≡ ok q
      → IsBounded limits q
  unfolding take_line
  take_line-IsBounded p q line v h = elim (Bool-cases (from_utf8 (strip_cr line))) [
    | inl valid ↦ process_line-IsBounded p q (strip_cr line) v (ground arith)
    | inr invalid ↦ absurd (ground arith)
  ]

  pub feed_all-IsBounded :
      (p q : Progress) (bs : List ℕ)
      → IsBounded limits p
      → feed_all p bs ≡ ok q
      → IsBounded limits q
  unfolding feed_all feed
  feed_all-IsBounded p q [] v h = let same : p ≡ q = cc in subst (IsBounded limits) same v
  feed_all-IsBounded p q (b ∷ bs) v h = elim (Bool-cases (b == b'\n')) [
    | inl newline ↦
        let (r, first, rest) =
          >>=-eq-ok (take_line (with_buffer [] p) p.decoder.buffer) (λ x. feed_all x bs)
            (subst
              (λ t.
                ((if t
                    then take_line (with_buffer [] p) p.decoder.buffer
                    else ok (with_buffer (p.decoder.buffer ++ b ∷ []) p))
                  >>= λ x. feed_all x bs)
                ≡ ok q)
              newline h) in
        feed_all-IsBounded r q bs
          (take_line-IsBounded (with_buffer [] p) r p.decoder.buffer
            (record { same = v.same; pending = v.pending; count = v.count; emitted = v.emitted })
            first)
          rest
    | inr other ↦
        feed_all-IsBounded (with_buffer (p.decoder.buffer ++ b ∷ []) p) q bs
          (record { same = v.same; pending = v.pending; count = v.count; emitted = v.emitted })
          (subst
            (λ t.
              ((if t
                  then take_line (with_buffer [] p) p.decoder.buffer
                  else ok (with_buffer (p.decoder.buffer ++ b ∷ []) p))
                >>= λ x. feed_all x bs)
              ≡ ok q)
            other h)
  ]
