-- ===== src/Tests/Stream.antt =====
-- The tests of crates/codex-responses/src/sse.rs, and examples for the theorems on it.
use imagegen_bridge.Prelude.{ℕ, All, ◌≡◌, refl, List, [], ◌∷◌, arith}
use imagegen_bridge.Core.Error.{ok, err}
use imagegen_bridge.Codex.Sse.{
  new_decoder, default_limits, push, push_all, finish, sse_error, drain, take_line, process_line,
  flush_event, add_data, strip_prefix, after_space, join_data, split_line, strip_cr, trim_cr,
  from_utf8,
}
use imagegen_bridge.Codex.Sse.Feed.{feed_all}
use imagegen_bridge.Codex.Sse.Chunks.{Fits, concat, push_all-concat, push-feed_all, start}
use imagegen_bridge.Codex.Sse.Bounds.{IsEvent}
use imagegen_bridge.Codex.Sse.Retention.{Words, Retains, push_all-new-Retains}

-- `data: a` and `data:b`, in lines that end in a carriage return and a newline.
abbrev first : List ℕ
first = b'd' ∷ b'a' ∷ b't' ∷ []

abbrev second : List ℕ
second = b'a' ∷ b':' ∷ b' ' ∷ b'a' ∷ b'\r' ∷ []

abbrev third : List ℕ
third = b'\n' ∷ b'd' ∷ b'a' ∷ b't' ∷ b'a' ∷ b':' ∷ b'b' ∷ b'\r' ∷ b'\n' ∷ b'\r' ∷ b'\n' ∷ []

abbrev pieces : List (List ℕ)
pieces = first ∷ second ∷ third ∷ []

fragmented :
    push_all (new_decoder default_limits) pieces
    ≡ ok (record {
      decoder = record (new_decoder default_limits) { events = 1; stream_bytes = 19 };
      events = (b'a' ∷ b'\n' ∷ b'b' ∷ []) ∷ [];
    })
unfolding push_all push drain take_line process_line flush_event add_data strip_prefix after_space
    join_data split_line strip_cr from_utf8
fragmented = refl

unterminated :
    finish (record (new_decoder default_limits) {
      buffer = b'd' ∷ b'a' ∷ b't' ∷ b'a' ∷ b':' ∷ b'x' ∷ b'\r' ∷ [];
    })
    ≡ ok ((b'x' ∷ []) ∷ [])
unfolding finish process_line flush_event add_data strip_prefix after_space join_data trim_cr
    from_utf8
unterminated = refl

-- A chunk of two short lines is refused by the limit of a line.
abbrev short_lines : List ℕ
short_lines = b':' ∷ b'a' ∷ b'\n' ∷ b':' ∷ b'b' ∷ b'\n' ∷ []

short_lines_refused :
    push (new_decoder (record default_limits { max_line_bytes = 4 })) short_lines
    ≡ err (sse_error "SSE line exceeds the configured limit")
unfolding push
short_lines_refused = refl

invalid_utf8 :
    push (new_decoder default_limits) (192 ∷ 128 ∷ b'\n' ∷ [])
    ≡ err (sse_error "SSE response is not valid UTF-8")
unfolding push drain take_line split_line strip_cr from_utf8
invalid_utf8 = refl

pieces-Fits : Fits (new_decoder default_limits) 19
pieces-Fits = record {
  stream = omega arith;
  line = omega arith;
  stream_word = omega arith;
  line_word = omega arith;
}

push_all-concat_example :
    push_all (new_decoder default_limits) pieces ≡ push (new_decoder default_limits) (concat pieces)
unfolding split_line
push_all-concat_example = push_all-concat (new_decoder default_limits) pieces refl pieces-Fits

push-feed_all_example :
    push (new_decoder default_limits) (concat pieces)
    ≡ feed_all (start (new_decoder default_limits) 19) (concat pieces)
unfolding split_line
push-feed_all_example = push-feed_all (new_decoder default_limits) (concat pieces) refl pieces-Fits

default_limits-Words : Words default_limits
default_limits-Words = record {
  stream = omega arith;
  line = omega arith;
  events = omega arith;
  event = omega arith;
}

push_all-new-Retains_example :
    Retains default_limits (record (new_decoder default_limits) { events = 1; stream_bytes = 19 })
    × All (IsEvent default_limits) ((b'a' ∷ b'\n' ∷ b'b' ∷ []) ∷ [])
push_all-new-Retains_example =
    push_all-new-Retains default_limits pieces
      (record {
        decoder = record (new_decoder default_limits) { events = 1; stream_bytes = 19 };
        events = (b'a' ∷ b'\n' ∷ b'b' ∷ []) ∷ [];
      })
      default_limits-Words fragmented
