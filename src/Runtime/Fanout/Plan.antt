-- ===== src/Runtime/Fanout/Plan.antt =====
-- How crates/runtime/src/fanout/mod.rs decides on the calls: its configuration, the capabilities that
-- it advertises, and the calls that may be active at once.
use imagegen_bridge.Prelude.{
  ℕ, String, ◌+◌, ◌≤◌, ◌≡◌, arith, Bool-cases, inl, inr, ◌||◌, ◌==◌, ltb, leb, if◌then◌else◌,
  Option, none, some, wrapping_add_u8,
}
use imagegen_bridge.Core.Error.{ErrorCode, bridge_error, Result, ok, err, ◌>>◌}
use imagegen_bridge.Core.Parameters.{BatchExecution, SessionMode}
use imagegen_bridge.Core.Response.{ProviderEvent}
use imagegen_bridge.Runtime.Fanout.Chunks.{covers}
use imagegen_bridge.Core.Capabilities.{ProviderCapabilities, BatchMode, validate}

pub record OutputFanoutConfig : Type 0 where
  pub max_outputs : ℕ
  pub max_parallel_outputs : ℕ

-- OutputFanoutConfig::validate
unfoldable pub validate_config : OutputFanoutConfig → Result OutputFanoutConfig
validate_config config =
    if config.max_outputs == 0
      || config.max_parallel_outputs == 0
      || ltb config.max_outputs config.max_parallel_outputs
    then err (bridge_error ErrorCode.configuration "output fan-out limits are invalid")
    else ok config

-- The capabilities of a provider that emulates a higher count.
abbrev pub raised :
    {F : Type 0} → OutputFanoutConfig → ProviderCapabilities F → ProviderCapabilities F
raised config c = record c {
  count = record c.count { max = config.max_outputs };
  batching = record {
    mode = BatchMode.fan_out;
    native_count = c.count;
    max_parallel_outputs = config.max_parallel_outputs;
  };
}

-- OutputFanoutProvider::effective_capabilities
unfoldable pub effective_capabilities :
    {F : Type 0} → OutputFanoutConfig → ProviderCapabilities F → Result (ProviderCapabilities F)
effective_capabilities config c =
    validate c
    >> (if leb config.max_outputs c.count.max
        then ok c
        else validate (raised config c) >> ok (raised config c))

-- The calls that may be active at once.
unfoldable pub batch_parallel : OutputFanoutConfig → BatchExecution → SessionMode → ℕ
batch_parallel config BatchExecution.parallel mode = config.max_parallel_outputs
batch_parallel config BatchExecution.auto SessionMode.isolated = config.max_parallel_outputs
batch_parallel config _ _ = 1

-- The event of a call as one of the whole batch.
unfoldable pub map_event : ProviderEvent → ℕ → ℕ → Option ProviderEvent
map_event (ProviderEvent.progress stage) offset count = some (ProviderEvent.progress stage)
map_event (ProviderEvent.partial_image index partial_index b64_json) offset count =
    if ltb index count
    then some (ProviderEvent.partial_image (wrapping_add_u8 offset index) partial_index b64_json)
    else none
map_event _ offset count = none

-- A partial image that a call passes on to the batch has the index of one of the call's outputs,
-- when these have 8 bits.
pub map_event-covers :
    (event : ProviderEvent) (offset count index partial_index : ℕ) (b64_json : String)
    → offset + count ≤ 256
    → map_event event offset count ≡ some (ProviderEvent.partial_image index partial_index b64_json)
    → covers index offset count ≡ 1
unfolding map_event
map_event-covers ProviderEvent.started offset count index partial_index b64_json small h = cc
map_event-covers (ProviderEvent.progress stage) offset count index partial_index b64_json small h =
    cc
map_event-covers (ProviderEvent.completed response) offset count index partial_index b64_json small
      h =
    cc
map_event-covers (ProviderEvent.partial_image i p b) offset count index partial_index b64_json small
      h =
    elim (Bool-cases (ltb i count)) [
      | inr beyond ↦ absurd ground (arith, h, beyond)
      | inl within ↦
          let same : wrapping_add_u8 offset i ≡ index = ground (arith, h, within) in
          ground (arith, same, within, small)
    ]
