-- ===== src/Codex/Sse.antt =====
-- crates/codex-responses/src/sse.rs. Bytes are numbers, and a `str` is the list of its bytes, which the
-- decoder has tested. A method that takes `&mut self` returns the next decoder; a decoder that has
-- returned an error is not used again. `usize` has 64 bits.
mod Utf8
pub mod Feed
pub mod Chunks
pub mod Bounds
pub mod Retention
use imagegen_bridge.Prelude.{
  ℕ, zero, suc, ◌+◌, String, Bool, true, false, not, Option, none, some, List, [], ◌∷◌, ◌++◌,
  length, ltb, leb, ◌==◌, if◌then◌else◌, u64_max, saturating_add_u64,
}
use imagegen_bridge.Core.Error.{
  ErrorCode, BridgeError, bridge_error, with_provider, Result, ok, err, ◌>>=◌, ◌>>◌,
}
unfoldable pub use Utf8.{from_utf8}

pub record SseLimits : Type 0 where
  pub max_stream_bytes : ℕ
  pub max_line_bytes : ℕ
  pub max_events : ℕ
  pub max_event_bytes : ℕ

-- SseLimits::default
abbrev pub default_limits : SseLimits
default_limits = record {
  max_stream_bytes = 268435456;
  max_line_bytes = 134217728;
  max_events = 10000;
  max_event_bytes = 134217728;
}

pub record SseDecoder : Type 0 where
  pub buffer : List ℕ
  pub pending : List ℕ
  pub events : ℕ
  pub stream_bytes : ℕ
  pub limits : SseLimits

-- SseDecoder::new
abbrev pub new_decoder : SseLimits → SseDecoder
new_decoder limits = record {
  buffer = [];
  pending = [];
  events = 0;
  stream_bytes = 0;
  limits = limits;
}

-- The decoder and the vector `events` of the completed events.
pub record Progress : Type 0 where
  pub decoder : SseDecoder
  pub events : List (List ℕ)

unfoldable pub sse_error : String → BridgeError
sse_error message = with_provider "codex-responses" (bridge_error ErrorCode.protocol message)

abbrev pub is_nil : List ℕ → Bool
is_nil [] = true
is_nil (b ∷ bs) = false

abbrev pub ensure : Bool → BridgeError → Result (Unit {0})
ensure true e = ok tt
ensure false e = err e

unfoldable pub flush_event : Progress → Result Progress
unfolding sse_error
flush_event p =
    if is_nil p.decoder.pending
    then ok p
    else if ltb p.decoder.limits.max_events (saturating_add_u64 p.decoder.events 1)
    then err (sse_error "SSE response contains too many events")
    else ok (record {
      decoder = record p.decoder { events = saturating_add_u64 p.decoder.events 1; pending = [] };
      events = p.events ++ p.decoder.pending ∷ [];
    })

-- `strip_prefix`
unfoldable pub strip_prefix : List ℕ → List ℕ → Option (List ℕ)
strip_prefix [] bs = some bs
strip_prefix (p ∷ ps) [] = none
strip_prefix (p ∷ ps) (b ∷ bs) = elim (p == b) [ true ↦ strip_prefix ps bs | false ↦ none ]

-- `value.strip_prefix(' ').unwrap_or(value)`
unfoldable pub after_space : List ℕ → List ℕ
after_space [] = []
after_space (b ∷ bs) = if b == b' ' then bs else b ∷ bs

-- `data`, the field `pending`, with a value added on a line of its own.
unfoldable pub join_data : List ℕ → List ℕ → List ℕ
join_data [] value = value
join_data (b ∷ bs) value = (b ∷ bs) ++ b'\n' ∷ value

unfoldable pub add_data : Progress → List ℕ → Result Progress
unfolding sse_error join_data
add_data p value =
    let additional = length value + (if is_nil p.decoder.pending then 0 else 1) in
    if ltb p.decoder.limits.max_event_bytes
      (saturating_add_u64 (length p.decoder.pending) additional)
    then err (sse_error "SSE event exceeds the configured limit")
    else ok
        (record p { decoder = record p.decoder { pending = join_data p.decoder.pending value } })

abbrev pub data_prefix : List ℕ
data_prefix = b'd' ∷ b'a' ∷ b't' ∷ b'a' ∷ b':' ∷ []

unfoldable pub process_line : Progress → List ℕ → Result Progress
unfolding flush_event strip_prefix after_space add_data
process_line p [] = flush_event p
process_line p (b ∷ line) = if b == b':' then ok p else elim (strip_prefix data_prefix (b ∷ line)) [
  | none ↦ ok p
  | some value ↦ add_data p (after_space value)
]

-- The bytes before the first newline, and those after it.
unfoldable pub split_line : List ℕ → Option (List ℕ × List ℕ)
split_line [] = none
split_line (b ∷ bs) = elim (b == b'\n') [
  | true ↦ some ([], bs)
  | false ↦ elim (split_line bs) [ none ↦ none | some (line, rest) ↦ some (b ∷ line, rest) ]
]

-- A line without one carriage return at its end.
unfoldable pub strip_cr : List ℕ → List ℕ
strip_cr [] = []
strip_cr (b ∷ []) = if b == b'\r' then [] else b ∷ []
strip_cr (b ∷ c ∷ bs) = b ∷ strip_cr (c ∷ bs)

-- One line of the loop of `push`.
unfoldable pub take_line : Progress → List ℕ → Result Progress
unfolding strip_cr process_line sse_error
take_line p line = do
  ensure (from_utf8 (strip_cr line)) (sse_error "SSE response is not valid UTF-8")
  process_line p (strip_cr line)

abbrev pub with_buffer : List ℕ → Progress → Progress
with_buffer bs p = record p { decoder = record p.decoder { buffer = bs } }

-- The loop of `push` over the buffer: `fuel` bounds the lines, of which there are at most as many as
-- bytes.
unfoldable pub drain : ℕ → Progress → Result Progress
unfolding split_line take_line
drain zero p = ok p
drain (suc fuel) p = elim (split_line p.decoder.buffer) [
  | none ↦ ok p
  | some (line, rest) ↦ take_line (with_buffer rest p) line >>= drain fuel
]

unfoldable pub push : SseDecoder → List ℕ → Result Progress
unfolding drain sse_error
push d chunk = do
  ensure (leb (d.stream_bytes + length chunk) u64_max)
      (sse_error "SSE stream byte count overflowed")
  ensure (leb (d.stream_bytes + length chunk) d.limits.max_stream_bytes)
      (sse_error "SSE stream exceeds the configured limit")
  ensure (leb (saturating_add_u64 (length d.buffer) (length chunk)) d.limits.max_line_bytes)
      (sse_error "SSE line exceeds the configured limit")
  drain (suc (length (d.buffer ++ chunk))) (record {
    decoder = record d { stream_bytes = d.stream_bytes + length chunk; buffer = d.buffer ++ chunk };
    events = [];
  })

-- `trim_end_matches('\r')`
unfoldable pub trim_cr : List ℕ → List ℕ
trim_cr [] = []
trim_cr (b ∷ bs) = elim (trim_cr bs) [
  | [] ↦ if b == b'\r' then [] else b ∷ []
  | c ∷ cs ↦ b ∷ c ∷ cs
]

last_line : SseDecoder → List ℕ → Result Progress
unfolding process_line trim_cr sse_error
last_line d [] = ok (record { decoder = d; events = [] })
last_line d (b ∷ bs) = do
  ensure (from_utf8 (b ∷ bs)) (sse_error "SSE response is not valid UTF-8")
  process_line (record { decoder = record d { buffer = [] }; events = [] }) (trim_cr (b ∷ bs))

unfoldable pub finish : SseDecoder → Result (List (List ℕ))
unfolding last_line flush_event
finish d = do p ← last_line d d.buffer; q ← flush_event p; ok q.events

-- The whole stream: every chunk in turn. An error stands alone: the events of the chunks before it, which
-- the loop has passed on by then, are not part of it.
unfoldable pub push_all : SseDecoder → List (List ℕ) → Result Progress
unfolding push
push_all d [] = ok (record { decoder = d; events = [] })
push_all d (chunk ∷ chunks) = do
  p ← push d chunk
  q ← push_all p.decoder chunks
  ok (record { decoder = q.decoder; events = p.events ++ q.events })
