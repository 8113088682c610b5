-- ===== src/Codex/Sse/Retention.antt =====
-- The limits of crates/codex-responses/src/sse.rs over a whole stream.
use imagegen_bridge.Prelude.{
  ℕ, ◌+◌, ◌≤◌, ◌<◌, ◌≡◌, refl, sym, subst, ◌∙◌, Bool, true, false, List, [], ◌∷◌, ◌++◌, arith,
  length, leb, leb→le, All, u64_max, saturating_add_u64,
}
use imagegen_bridge.Core.Error.{BridgeError, Result, ok, ◌>>◌, >>=-eq-ok}
use imagegen_bridge.Codex.Sse.{
  SseDecoder, SseLimits, Progress, push, push_all, ensure, split_line, new_decoder,
}
use imagegen_bridge.Codex.Sse.Feed.{Partial}
use imagegen_bridge.Codex.Sse.Chunks.{Fits, start, feed_all-Grows, push-feed_all}
use imagegen_bridge.Codex.Sse.Bounds.{IsEvent, feed_all-IsBounded}

-- The limits are below the largest 64-bit number, at which the counters saturate.
pub record Words (limits : SseLimits) : Type 0 where
  pub stream : limits.max_stream_bytes < u64_max
  pub line : limits.max_line_bytes < u64_max
  pub events : limits.max_events < u64_max
  pub event : limits.max_event_bytes < u64_max

-- What a decoder retains is within its limits.
pub record Retains (limits : SseLimits) (d : SseDecoder) : Type 0 where
  pub same : d.limits ≡ limits
  pub one_line : Partial d.buffer
  pub stream : d.stream_bytes ≤ limits.max_stream_bytes
  pub line : length d.buffer ≤ limits.max_line_bytes
  pub pending : length d.pending ≤ limits.max_event_bytes
  pub count : d.events ≤ limits.max_events

ensure-passes :
    {A : Type 0} (b : Bool) (e : BridgeError) (k : Result A) {a : A}
    → (ensure b e >> k) ≡ ok a
    → (b ≡ true) × (k ≡ ok a)
ensure-passes true e k h = (refl, h)
ensure-passes false e k h = cc

at_most : (n : ℕ) → n < u64_max → n ≤ u64_max
at_most n h = omega arith

below :
    (a b limit : ℕ) → limit < u64_max → leb (saturating_add_u64 a b) limit ≡ true → a + b ≤ limit
below a b limit word h = ground arith

module _ (limits : SseLimits) (w : Words limits) where
  push-Fits :
      (d : SseDecoder) (chunk : List ℕ) (q : Progress)
      → d.limits ≡ limits
      → push d chunk ≡ ok q
      → Fits d (length chunk)
  unfolding push
  push-Fits d chunk q same h =
      let (whole, h1) = ensure-passes _ _ _ h in
      let (stream, h2) = ensure-passes _ _ _ h1 in
      let (line, h3) = ensure-passes _ _ _ h2 in
      record {
        stream = leb→le (d.stream_bytes + length chunk) d.limits.max_stream_bytes stream;
        line =
            below (length d.buffer) (length chunk) d.limits.max_line_bytes
              (subst (λ l. l.max_line_bytes < u64_max) (sym same) w.line) line;
        stream_word =
            subst (λ l. l.max_stream_bytes ≤ u64_max) (sym same)
              (at_most limits.max_stream_bytes w.stream);
        line_word =
            subst (λ l. l.max_line_bytes ≤ u64_max) (sym same)
              (at_most limits.max_line_bytes w.line);
      }

  push-Retains :
      (d : SseDecoder) (chunk : List ℕ) (q : Progress)
      → Retains limits d
      → push d chunk ≡ ok q
      → Retains limits q.decoder × All (IsEvent limits) q.events
  push-Retains d chunk q v h =
      let f = push-Fits d chunk q v.same h in
      let made = sym (push-feed_all d chunk v.one_line f) ∙ h in
      let g = feed_all-Grows (start d (length chunk)) q chunk v.one_line made in
      let b =
        feed_all-IsBounded limits (w.events, w.event) (start d (length chunk)) q chunk
          (record { same = v.same; pending = v.pending; count = v.count; emitted = tt }) made in
      (
        record {
          same = b.same;
          one_line = g.one_line;
          stream =
              subst (λ l. q.decoder.stream_bytes ≤ l.max_stream_bytes) v.same
                (omega (arith, f.stream, g.stream_bytes));
          line =
              subst (λ l. length q.decoder.buffer ≤ l.max_line_bytes) v.same
                (omega (arith, f.line, g.size));
          pending = b.pending;
          count = b.count;
        },
        b.emitted,
      )

  All-append :
      (xs ys : List (List ℕ))
      → All (IsEvent limits) xs
      → All (IsEvent limits) ys
      → All (IsEvent limits) (xs ++ ys)
  All-append [] ys h k = k
  All-append (x ∷ xs) ys h k = (h.0, All-append xs ys h.1 k)

  push_all-Retains :
      (d : SseDecoder) (chunks : List (List ℕ)) (q : Progress)
      → Retains limits d
      → push_all d chunks ≡ ok q
      → Retains limits q.decoder × All (IsEvent limits) q.events
  unfolding push_all
  push_all-Retains d [] q v h =
      let same : record { decoder = d; events = [] } ≡ q = cc in
      subst (λ x. Retains limits x.decoder × All (IsEvent limits) x.events) same (v, tt)
  push_all-Retains d (chunk ∷ chunks) q v h =
      let (p, first, h1) = >>=-eq-ok (push d chunk) _ h in
      let (r, rest, h2) = >>=-eq-ok (push_all p.decoder chunks) _ h1 in
      let (kept, events) = push-Retains d chunk p v first in
      let (kept', events') = push_all-Retains p.decoder chunks r kept rest in
      let same : record { decoder = r.decoder; events = p.events ++ r.events } ≡ q = cc in
      subst (λ x. Retains limits x.decoder × All (IsEvent limits) x.events) same
        (kept', All-append p.events r.events events events')

-- A new decoder that has accepted the chunks of a stream retains an unfinished line, an unfinished
-- event and counts within its limits, and every event that it handed out has a byte and at most
-- `max_event_bytes`, when the limits are below the largest 64-bit number.
pub push_all-new-Retains :
    (limits : SseLimits) (chunks : List (List ℕ)) (q : Progress)
    → Words limits
    → push_all (new_decoder limits) chunks ≡ ok q
    → Retains limits q.decoder × All (IsEvent limits) q.events
unfolding split_line
push_all-new-Retains limits chunks q w h =
    push_all-Retains limits w (new_decoder limits) chunks q
      (record {
        same = refl;
        one_line = refl;
        stream = omega arith;
        line = omega arith;
        pending = omega arith;
        count = omega arith;
      })
      h
