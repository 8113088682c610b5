-- ===== src/Codex/Sse/Feed.antt =====
-- The decoder of crates/codex-responses/src/sse.rs as an automaton that reads one byte at a time: the
-- loop of `push` over its buffer does the same.
use mathlib.Core.Path.{ap}
use mathlib.Core.List.{append-nil, append_assoc}
use imagegen_bridge.Prelude.{
  ℕ, zero, suc, ◌<◌, ◌≡◌, refl, sym, subst, ◌∙◌, false, none, some, List, [], ◌∷◌, ◌++◌, arith,
  length, length-append, ltb, ◌==◌, ==_iff, if◌then◌else◌, inl, inr, Bool-cases, Option-cases,
  saturating_add_u64,
}
use imagegen_bridge.Core.Error.{Result, ok, ◌>>=◌, Result-cases}
use imagegen_bridge.Codex.Sse.{
  Progress, flush_event, add_data, process_line, split_line, strip_cr, take_line, with_buffer,
  drain, strip_prefix, after_space, data_prefix, from_utf8, is_nil,
}

-- Whether bytes are part of one line.
abbrev pub Partial : List ℕ → Type 0
Partial bs = split_line bs ≡ none

-- The automaton: its state is the unfinished line, the data of the unfinished event and the events.
unfoldable pub feed : Progress → ℕ → Result Progress
feed p b =
    if b == b'\n'
    then take_line (with_buffer [] p) p.decoder.buffer
    else ok (with_buffer (p.decoder.buffer ++ b ∷ []) p)

unfoldable pub feed_all : Progress → List ℕ → Result Progress
feed_all p [] = ok p
feed_all p (b ∷ bs) = feed p b >>= λ q. feed_all q bs

-- Another buffer, another count of bytes and earlier events, none of which a line depends on.
abbrev pub frame : List (List ℕ) → ℕ → List ℕ → Progress → Progress
frame es n bs p = record {
  decoder = record p.decoder { stream_bytes = n; buffer = bs };
  events = es ++ p.events;
}

abbrev pub framed : List (List ℕ) → ℕ → List ℕ → Result Progress → Result Progress
framed es n bs r = r >>= λ q. ok (frame es n bs q)

module _ (es : List (List ℕ)) (n : ℕ) (bs : List ℕ) where
  flush_event-frame :
      (p : Progress) → flush_event (frame es n bs p) ≡ framed es n bs (flush_event p)
  unfolding flush_event
  flush_event-frame p = elim (Bool-cases (is_nil p.decoder.pending)) [
    | inl e ↦ rw e refl
    | inr e ↦
        elim (Bool-cases
          (ltb p.decoder.limits.max_events (saturating_add_u64 p.decoder.events 1))) [
            | inl full ↦ rw (e, full) refl
            | inr room ↦ rw (e, room, append_assoc) refl
          ]
  ]

  add_data-frame :
      (p : Progress) (value : List ℕ)
      → add_data (frame es n bs p) value ≡ framed es n bs (add_data p value)
  unfolding add_data
  add_data-frame p value = ground arith

  process_line-frame :
      (p : Progress) (line : List ℕ)
      → process_line (frame es n bs p) line ≡ framed es n bs (process_line p line)
  unfolding process_line
  process_line-frame p [] = flush_event-frame p
  process_line-frame p (b ∷ line) = elim (Bool-cases (b == b':')) [
    | inl comment ↦ rw comment refl
    | inr other ↦ elim (Option-cases (strip_prefix data_prefix (b ∷ line))) [
      | inl e ↦ rw (other, e) refl
      | inr (value, e) ↦ rw (other, e) (add_data-frame p (after_space value))
    ]
  ]

  pub take_line-frame :
      (p : Progress) (line : List ℕ)
      → take_line (frame es n bs p) line ≡ framed es n bs (take_line p line)
  unfolding take_line
  take_line-frame p line = elim (Bool-cases (from_utf8 (strip_cr line))) [
    | inl valid ↦ rw valid (process_line-frame p (strip_cr line))
    | inr invalid ↦ rw invalid refl
  ]

-- A line keeps the buffer, the count of bytes and the limits.
pub record SameFrame (p q : Progress) : Type 0 where
  pub buffer : q.decoder.buffer ≡ p.decoder.buffer
  pub stream_bytes : q.decoder.stream_bytes ≡ p.decoder.stream_bytes
  pub limits : q.decoder.limits ≡ p.decoder.limits

flush_event-SameFrame : (p q : Progress) → flush_event p ≡ ok q → SameFrame p q
unfolding flush_event
flush_event-SameFrame p q h = ground arith

add_data-SameFrame : (p q : Progress) (value : List ℕ) → add_data p value ≡ ok q → SameFrame p q
unfolding add_data
add_data-SameFrame p q value h = ground arith

process_line-SameFrame :
    (p q : Progress) (line : List ℕ) → process_line p line ≡ ok q → SameFrame p q
unfolding process_line
process_line-SameFrame p q [] h = flush_event-SameFrame p q h
process_line-SameFrame p q (b ∷ line) h =
    elim (Option-cases (strip_prefix data_prefix (b ∷ line))) [
      | inl e ↦ ground arith
      | inr (value, e) ↦ ground (arith, add_data-SameFrame p q (after_space value))
    ]

pub take_line-SameFrame : (p q : Progress) (line : List ℕ) → take_line p line ≡ ok q → SameFrame p q
unfolding take_line
take_line-SameFrame p q line h = ground (arith, process_line-SameFrame p q (strip_cr line))

Partial-parts : (b : ℕ) (line : List ℕ) → Partial (b ∷ line) → ((b == b'\n') ≡ false) × Partial line
unfolding split_line
Partial-parts b line h = elim (Option-cases (split_line line)) [
  | inl e ↦ (ground arith, e)
  | inr (found, e) ↦ absurd (ground arith)
]

split_line-newline :
    (line bs : List ℕ) → Partial line → split_line (line ++ b'\n' ∷ bs) ≡ some (line, bs)
unfolding split_line
split_line-newline [] bs h = refl
split_line-newline (b ∷ line) bs h =
    let (other, rest) = Partial-parts b line h in ground (arith, split_line-newline line bs rest)

pub split_line-snoc :
    (line : List ℕ) (b : ℕ) → Partial line → (b == b'\n') ≡ false → Partial (line ++ b ∷ [])
unfolding split_line
split_line-snoc [] b h other = ground arith
split_line-snoc (c ∷ line) b h other =
    let (other_c, rest) = Partial-parts c line h in
    ground (arith, split_line-snoc line b rest other)

pub feed_all-append :
    (p : Progress) (xs ys : List ℕ) → feed_all p (xs ++ ys) ≡ (feed_all p xs >>= λ q. feed_all q ys)
unfolding feed_all
feed_all-append p [] ys = refl
feed_all-append p (x ∷ xs) ys = elim (Result-cases (feed p x)) [
  | inl (q, e) ↦ rw e (feed_all-append q xs ys)
  | inr (e', e) ↦ rw e refl
]

-- The same bytes with earlier events and another count.
abbrev pub shift : List (List ℕ) → ℕ → Progress → Progress
shift es n p = frame es n p.decoder.buffer p

line-shift :
    (es : List (List ℕ)) (n : ℕ) (p : Progress)
    → take_line (frame es n [] p) p.decoder.buffer
      ≡ (take_line (with_buffer [] p) p.decoder.buffer >>= λ q. ok (shift es n q))
line-shift es n p =
    take_line-frame es n [] (with_buffer [] p) p.decoder.buffer
    ∙ elim (Result-cases (take_line (with_buffer [] p) p.decoder.buffer)) [
      | inl (q, e) ↦ rw e (
          ap (λ bs. ok (frame es n bs q))
            (sym (take_line-SameFrame (with_buffer [] p) q p.decoder.buffer e).buffer))
      | inr (x, e) ↦ rw e refl
    ]

pub feed-shift :
    (es : List (List ℕ)) (n : ℕ) (p : Progress) (b : ℕ)
    → feed (shift es n p) b ≡ (feed p b >>= λ q. ok (shift es n q))
unfolding feed
feed-shift es n p b = elim (Bool-cases (b == b'\n')) [
  | inl newline ↦ rw newline (line-shift es n p)
  | inr other ↦ rw other refl
]

pub feed_all-shift :
    (es : List (List ℕ)) (n : ℕ) (p : Progress) (bs : List ℕ)
    → feed_all (shift es n p) bs ≡ (feed_all p bs >>= λ q. ok (shift es n q))
unfolding feed_all
feed_all-shift es n p [] = refl
feed_all-shift es n p (b ∷ bs) = elim (Result-cases (feed p b)) [
  | inl (q, e) ↦ rw (feed-shift es n p b, e) (feed_all-shift es n q bs)
  | inr (x, e) ↦ rw (feed-shift es n p b, e) refl
]

abbrev Reads : List ℕ → Type 0
Reads bs =
    (fuel : ℕ) (p : Progress)
    → Partial p.decoder.buffer
    → length (p.decoder.buffer ++ bs) < fuel
    → drain fuel (with_buffer (p.decoder.buffer ++ bs) p) ≡ feed_all p bs

drain_line-Reads :
    (bs : List ℕ) (fuel : ℕ) (p : Progress)
    → Reads bs
    → length bs < fuel
    → (take_line (with_buffer bs p) p.decoder.buffer >>= drain fuel)
      ≡ (take_line (with_buffer [] p) p.decoder.buffer >>= λ q. feed_all q bs)
unfolding split_line
drain_line-Reads bs fuel p next enough =
    ap (λ r. r >>= drain fuel)
      (take_line-frame [] p.decoder.stream_bytes bs (with_buffer [] p) p.decoder.buffer)
    ∙ elim (Result-cases (take_line (with_buffer [] p) p.decoder.buffer)) [
      | inl (q, e) ↦
          let same = take_line-SameFrame (with_buffer [] p) q p.decoder.buffer e in
          rw e (
            ap (λ n. drain fuel (frame [] n bs q)) (sym same.stream_bytes)
            ∙ ap (λ l. drain fuel (frame [] q.decoder.stream_bytes (l ++ bs) q)) (sym same.buffer)
            ∙ next fuel q (subst Partial (sym same.buffer) refl)
                (subst (λ l. length (l ++ bs) < fuel) (sym same.buffer) enough))
      | inr (x, e) ↦ rw e refl
    ]

-- The loop of `push` reads the bytes behind an unfinished line as the automaton does.
pub drain-feed_all : (bs : List ℕ) → Reads bs
unfolding drain feed_all feed split_line
drain-feed_all [] zero p h enough = absurd (omega arith)
drain-feed_all [] (suc fuel) p h enough =
    ap (λ l. drain (suc fuel) (with_buffer l p)) (append-nil p.decoder.buffer) ∙ rw (drain, h) refl
drain-feed_all (b ∷ bs) zero p h enough = absurd (omega arith)
drain-feed_all (b ∷ bs) (suc fuel) p h enough = elim (Bool-cases (b == b'\n')) [
  | inl newline ↦
      let same : b ≡ b'\n' = (==_iff b b'\n').0 newline in
      rw (same, drain, split_line-newline p.decoder.buffer bs h)
        (drain_line-Reads bs fuel p (drain-feed_all bs)
          (omega (arith, length-append p.decoder.buffer (b ∷ bs))))
  | inr other ↦ rw other (
      ap (λ l. drain (suc fuel) (with_buffer l p)) (sym (append_assoc p.decoder.buffer (b ∷ []) bs))
      ∙ drain-feed_all bs (suc fuel) (with_buffer (p.decoder.buffer ++ b ∷ []) p)
          (split_line-snoc p.decoder.buffer b h other)
          (subst (λ l. length l < suc fuel) (sym (append_assoc p.decoder.buffer (b ∷ []) bs))
            enough))
]
