-- ===== src/Runtime/Fanout/Serve.antt =====
-- `execute` of crates/runtime/src/fanout/mod.rs, once `validate_request` has accepted the request: the
-- negotiation, the choice between one call and a batch, and what the response reports.
pub mod Totals
use imagegen_bridge.Prelude.{
  ℕ, ◌+◌, ◌≤◌, ◌<◌, ◌==◌, ◌||◌, ◌&&◌, not, ◌≡◌, refl, sym, ap, ◌∙◌, subst, String, Bool, true,
  false, Option, none, some, List, [], ◌∷◌, ◌++◌, arith, ltb, leb, if◌then◌else◌, Bool-cases,
  Option-cases, inl, inr,
}
use imagegen_bridge.Core.Error.{BridgeError, Result, Result-cases, ok, err, ◌>>=◌, ◌>>◌, >>=-eq-ok}
use imagegen_bridge.Core.Parameters.{default_size}
use imagegen_bridge.Core.Parameters.Wire.{contains, size_wire}
use imagegen_bridge.Core.Request.{ImageRequest}
use imagegen_bridge.Core.Response.{ImageResponse}
use imagegen_bridge.Core.Capabilities.{
  Floats, ProviderCapabilities, BatchMode, validate, bad_batching, batch_mode_fits, range_eq,
  in_range, invalid_capability, reject_when,
}
use imagegen_bridge.Core.Negotiation.{NegotiatedRequest, negotiate_request}
use imagegen_bridge.Core.Negotiation.Guarantees.{negotiated, Accepts, negotiate_request-Accepts}
use imagegen_bridge.Runtime.Fanout.Plan.{
  OutputFanoutConfig, validate_config, effective_capabilities, raised,
}
use imagegen_bridge.Runtime.Fanout.Aggregate.{Readings}
use imagegen_bridge.Runtime.Fanout.Batch.{Completion, execute_fanout}
use imagegen_bridge.Runtime.Fanout.Coverage.{image_hits, failure_hits}
use imagegen_bridge.Runtime.Fanout.Outputs.{requested, execute_fanout-outputs}

-- The parameters asked for and those in effect, and the normalizations in front.
unfoldable pub finish_response : NegotiatedRequest → ImageResponse → ImageResponse
finish_response negotiated response = record response {
  requested = negotiated.requested;
  effective = negotiated.effective_request.parameters;
  normalizations = negotiated.normalizations ++ response.normalizations;
}

-- A function of the value, where there is one.
abbrev pub map_ok : {A B : Type 0} → (A → B) → Option (Result A) → Option (Result B)
map_ok f none = none
map_ok f (some (err e)) = some (err e)
map_ok f (some (ok a)) = some (ok (f a))

module _ {F : Type 0} ⦃fl : Floats F⦄ where
  -- The request as the decorated provider takes it.
  unfoldable pub negotiate_effective :
      OutputFanoutConfig → ProviderCapabilities F → ImageRequest → Result NegotiatedRequest
  negotiate_effective config native request =
      effective_capabilities config native >>= negotiate_request request

  -- What the negotiated request comes to: `direct` is the end of the single call.
  unfoldable pub serve_negotiated :
      OutputFanoutConfig
      → ProviderCapabilities F
      → String
      → Readings
      → (ImageRequest → Option (Result ImageResponse))
      → List Completion
      → NegotiatedRequest
      → Option (Result ImageResponse)
  unfolding finish_response
  serve_negotiated config native request_id readings direct completions negotiated =
      let request = negotiated.effective_request in
      map_ok (finish_response negotiated) (
        if leb request.parameters.n native.count.max
        then direct request
        else execute_fanout config request request_id native.count.max readings completions)

  -- OutputFanoutProvider::execute
  unfoldable pub serve :
      OutputFanoutConfig
      → ProviderCapabilities F
      → ImageRequest
      → String
      → Readings
      → (ImageRequest → Option (Result ImageResponse))
      → List Completion
      → Option (Result ImageResponse)
  unfolding negotiate_effective serve_negotiated
  serve config native request request_id readings direct completions =
      elim (negotiate_effective config native request) [
        | err e ↦ some (err e)
        | ok negotiated ↦
            serve_negotiated config native request_id readings direct completions negotiated
      ]

pub validate-count :
    {F : Type 0} (native : ProviderCapabilities F) → validate native ≡ ok tt → 0 < native.count.max
unfolding validate
validate-count native fine =
    let counts : (native.count.min == 0 || ltb native.count.max native.count.min) ≡ false =
      ground (arith, fine) in
    ground (arith, counts)

-- A higher count is consistent with the native one.
raised-bad_batching :
    {F : Type 0} (config : OutputFanoutConfig) (native : ProviderCapabilities F)
    → validate_config config ≡ ok config
    → native.count.max < config.max_outputs
    → (native.count.min == 0 || ltb native.count.max native.count.min) ≡ false
    → bad_batching (raised config native) ≡ false
unfolding bad_batching batch_mode_fits validate_config
raised-bad_batching config native valid more counts = ground (arith, valid, more, counts)

raised-validate :
    {F : Type 0} (config : OutputFanoutConfig) (native : ProviderCapabilities F)
    → validate_config config ≡ ok config
    → validate native ≡ ok tt
    → native.count.max < config.max_outputs
    → validate (raised config native) ≡ ok tt
unfolding validate invalid_capability
raised-validate config native valid fine more =
    let counts : (native.count.min == 0 || ltb native.count.max native.count.min) ≡ false =
      ground (arith, fine) in
    let counts' : (native.count.min == 0 || ltb config.max_outputs native.count.min) ≡ false =
      ground (arith, counts, more) in
    let batching = raised-bad_batching config native valid more counts in
    let batching' : bad_batching native ≡ false = ground (arith, fine) in
    rw (counts', batching, validate) (simp (counts, batching') at fine)

-- With an accepted configuration and valid native capabilities the effective capabilities are never
-- refused: they are the native ones where these already reach `max_outputs`, and otherwise the
-- native ones with the maximal count `max_outputs`, emulated by fan-out from the native count.
pub effective_capabilities-ok :
    {F : Type 0} (config : OutputFanoutConfig) (native : ProviderCapabilities F)
    → validate_config config ≡ ok config
    → validate native ≡ ok tt
    → effective_capabilities config native
      ≡ ok (if leb config.max_outputs native.count.max then native else raised config native)
unfolding effective_capabilities
effective_capabilities-ok config native valid fine =
    elim (Bool-cases (leb config.max_outputs native.count.max)) [
      | inl enough ↦ rw (fine, enough, effective_capabilities) refl
      | inr fewer ↦
          rw
            (
              fine,
              fewer,
              effective_capabilities,
              raised-validate config native valid fine (ground (arith, fewer)),
            )
            refl
    ]
