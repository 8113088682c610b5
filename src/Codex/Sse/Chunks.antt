-- ===== src/Codex/Sse/Chunks.antt =====
-- The decoder of crates/codex-responses/src/sse.rs does not depend on where the network cuts the
-- stream into chunks.
use mathlib.Core.Path.{ap}
use mathlib.Core.List.{append-nil}
use imagegen_bridge.Prelude.{
  ℕ, suc, ◌+◌, ◌≤◌, ◌≡◌, refl, sym, subst, ◌∙◌, true, List, [], ◌∷◌, ◌++◌, arith, length,
  length-append, leb, le→leb, ◌==◌, inl, inr, Bool-cases, u64_max, saturating_add_u64,
}
use imagegen_bridge.Core.Error.{Result, ok, ◌>>=◌, Result-cases, >>=-eq-ok}
use imagegen_bridge.Codex.Sse.{SseDecoder, Progress, split_line, with_buffer, push, push_all}
use imagegen_bridge.Codex.Sse.Feed.{
  Partial, feed, feed_all, shift, feed_all-append, feed_all-shift, drain-feed_all,
  take_line-SameFrame, split_line-snoc,
}

-- What reading a number of bytes does to the unfinished line.
pub record Grows (p q : Progress) (n : ℕ) : Type 0 where
  pub one_line : Partial q.decoder.buffer
  pub size : length q.decoder.buffer ≤ length p.decoder.buffer + n
  pub stream_bytes : q.decoder.stream_bytes ≡ p.decoder.stream_bytes
  pub limits : q.decoder.limits ≡ p.decoder.limits

feed-Grows : (p q : Progress) (b : ℕ) → Partial p.decoder.buffer → feed p b ≡ ok q → Grows p q 1
unfolding feed split_line
feed-Grows p q b h e = elim (Bool-cases (b == b'\n')) [
  | inl newline ↦
      let s = take_line-SameFrame (with_buffer [] p) q p.decoder.buffer (ground arith) in
      record {
        one_line = subst Partial (sym s.buffer) refl;
        size = subst (λ l. length l ≤ length p.decoder.buffer + 1) (sym s.buffer) (omega arith);
        stream_bytes = s.stream_bytes;
        limits = s.limits;
      }
  | inr other ↦
      let same : with_buffer (p.decoder.buffer ++ b ∷ []) p ≡ q = ground arith in
      subst (λ x. Grows p x 1) same
        (record {
          one_line = split_line-snoc p.decoder.buffer b h other;
          size = omega (arith, length-append p.decoder.buffer (b ∷ []));
          stream_bytes = refl;
          limits = refl;
        })
]

pub feed_all-Grows :
    (p q : Progress) (bs : List ℕ)
    → Partial p.decoder.buffer
    → feed_all p bs ≡ ok q
    → Grows p q (length bs)
unfolding feed_all
feed_all-Grows p q [] h e =
    let same : p ≡ q = cc in
    subst (λ x. Grows p x 0) same
      (record { one_line = h; size = omega arith; stream_bytes = refl; limits = refl })
feed_all-Grows p q (b ∷ bs) h e =
    let (r, first, rest) = >>=-eq-ok (feed p b) (λ x. feed_all x bs) e in
    let g = feed-Grows p r b h first in
    let g' = feed_all-Grows r q bs g.one_line rest in
    record {
      one_line = g'.one_line;
      size = omega (arith, g.size, g'.size);
      stream_bytes = g'.stream_bytes ∙ g.stream_bytes;
      limits = g'.limits ∙ g.limits;
    }

-- Bytes that stay within the limits of the stream and of a line, even if none of them is a newline.
pub record Fits (d : SseDecoder) (n : ℕ) : Type 0 where
  pub stream : d.stream_bytes + n ≤ d.limits.max_stream_bytes
  pub line : length d.buffer + n ≤ d.limits.max_line_bytes
  pub stream_word : d.limits.max_stream_bytes ≤ u64_max
  pub line_word : d.limits.max_line_bytes ≤ u64_max

abbrev pub start : SseDecoder → ℕ → Progress
start d n = record { decoder = record d { stream_bytes = d.stream_bytes + n }; events = [] }

-- Pushing a chunk on a decoder whose buffer has no newline, within the limits of the stream and of
-- a line, runs the automaton that reads one byte at a time and takes a line at each newline; the
-- loop has the fuel it needs.
pub push-feed_all :
    (d : SseDecoder) (chunk : List ℕ)
    → Partial d.buffer
    → Fits d (length chunk)
    → push d chunk ≡ feed_all (start d (length chunk)) chunk
unfolding push
push-feed_all d chunk h f =
    let first : leb (d.stream_bytes + length chunk) u64_max ≡ true =
      le→leb _ _ (omega (arith, f.stream, f.stream_word)) in
    let second : leb (d.stream_bytes + length chunk) d.limits.max_stream_bytes ≡ true =
      le→leb _ _ f.stream in
    let third : leb (saturating_add_u64 (length d.buffer) (length chunk)) d.limits.max_line_bytes
        ≡ true =
      le→leb _ _ (omega (arith, f.line)) in
    rw (first, second, third)
      (drain-feed_all chunk (suc (length (d.buffer ++ chunk))) (start d (length chunk)) h
        (omega arith))

-- The events of one push and then of another.
abbrev pub then_push : List ℕ → Progress → Result Progress
then_push chunk p =
    push p.decoder chunk >>= λ q. ok (record { decoder = q.decoder; events = p.events ++ q.events })

-- A progress whose events are taken off.
abbrev bare : Progress → Progress
bare p = record p { events = [] }

later_push-shift :
    (p : Progress) (ys : List ℕ)
    → Partial p.decoder.buffer
    → Fits p.decoder (length ys)
    → then_push ys p ≡ feed_all (shift [] (p.decoder.stream_bytes + length ys) p) ys
later_push-shift p ys h f =
    let total = p.decoder.stream_bytes + length ys in
    rw (push-feed_all p.decoder ys h f, feed_all-shift [] total (bare p) ys)
      (elim (Result-cases (feed_all (bare p) ys)) [
        | inl (q, e) ↦ rw e (sym (rw (feed_all-shift p.events total (bare p) ys, e) refl))
        | inr (x, e) ↦ rw e (sym (rw (feed_all-shift p.events total (bare p) ys, e) refl))
      ]
        ∙ ap (λ es. feed_all (record (shift [] total p) { events = es }) ys) (append-nil p.events))

module _ (d : SseDecoder) (xs ys : List ℕ) (f : Fits d (length (xs ++ ys))) where
  Fits-left : Fits d (length xs)
  Fits-left = record {
    stream = omega (arith, f.stream, length-append xs ys);
    line = omega (arith, f.line, length-append xs ys);
    stream_word = f.stream_word;
    line_word = f.line_word;
  }

  Fits-right :
      (p : Progress) → Grows (start d (length xs)) p (length xs) → Fits p.decoder (length ys)
  Fits-right p g = record {
    stream =
        subst (λ l. p.decoder.stream_bytes + length ys ≤ l.max_stream_bytes) (sym g.limits)
          (omega (arith, f.stream, g.stream_bytes, length-append xs ys));
    line =
        subst (λ l. length p.decoder.buffer + length ys ≤ l.max_line_bytes) (sym g.limits)
          (omega (arith, f.line, g.size, length-append xs ys));
    stream_word = subst (λ l. l.max_stream_bytes ≤ u64_max) (sym g.limits) f.stream_word;
    line_word = subst (λ l. l.max_line_bytes ≤ u64_max) (sym g.limits) f.line_word;
  }

  total :
      (p : Progress)
      → Grows (start d (length xs)) p (length xs)
      → p.decoder.stream_bytes + length ys ≡ d.stream_bytes + length (xs ++ ys)
  total p g = omega (arith, g.stream_bytes, length-append xs ys)

-- Two chunks pushed one after the other give the decoder, the events and the error of the two in one
-- piece, when the bytes of both stay within the limits of the stream and of a line.
pub push-append :
    (d : SseDecoder) (xs ys : List ℕ)
    → Partial d.buffer
    → Fits d (length (xs ++ ys))
    → push d (xs ++ ys) ≡ (push d xs >>= then_push ys)
push-append d xs ys h f =
    push-feed_all d (xs ++ ys) h f
    ∙ feed_all-append (start d (length (xs ++ ys))) xs ys
    ∙ ap (λ r. r >>= λ q. feed_all q ys)
        (feed_all-shift [] (d.stream_bytes + length (xs ++ ys)) (start d (length xs)) xs)
    ∙ rw (push-feed_all d xs h (Fits-left d xs ys f))
        (elim (Result-cases (feed_all (start d (length xs)) xs)) [
          | inl (p, e) ↦
              let g = feed_all-Grows (start d (length xs)) p xs h e in
              rw e (
                ap (λ n. feed_all (shift [] n p) ys) (sym (total d xs ys f p g))
                ∙ sym (later_push-shift p ys g.one_line (Fits-right d xs ys f p g)))
          | inr (x, e) ↦ rw e refl
        ])

-- All chunks in one piece.
abbrev pub concat : List (List ℕ) → List ℕ
concat [] = []
concat (chunk ∷ chunks) = chunk ++ concat chunks

-- However a stream is cut into chunks, pushing them one after the other gives the decoder, the
-- events and the error of the stream pushed in one piece, when its bytes stay within the limits of
-- the stream and of a line and the decoder's buffer has no newline.
pub push_all-concat :
    (d : SseDecoder) (chunks : List (List ℕ))
    → Partial d.buffer
    → Fits d (length (concat chunks))
    → push_all d chunks ≡ push d (concat chunks)
unfolding push_all feed_all
push_all-concat d [] h f =
    ap (λ n. ok (record { decoder = record d { stream_bytes = n }; events = [] })) (omega arith)
    ∙ sym (push-feed_all d [] h f)
push_all-concat d (chunk ∷ chunks) h f =
    elim (Result-cases (push d chunk)) [
      | inl (p, e) ↦
          let made = sym (push-feed_all d chunk h (Fits-left d chunk (concat chunks) f)) ∙ e in
          let g = feed_all-Grows (start d (length chunk)) p chunk h made in
          rw e (
            ap (λ r. r >>= λ q. ok (record { decoder = q.decoder; events = p.events ++ q.events }))
              (push_all-concat p.decoder chunks g.one_line
                (Fits-right d chunk (concat chunks) f p g)))
      | inr (x, e) ↦ rw e refl
    ]
    ∙ sym (push-append d chunk (concat chunks) h f)
