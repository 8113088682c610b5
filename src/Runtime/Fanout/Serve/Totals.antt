-- ===== src/Runtime/Fanout/Serve/Totals.antt =====
-- The negotiation and the batch of crates/runtime/src/fanout/mod.rs, joined.
use imagegen_bridge.Prelude.{
  ℕ, ◌+◌, ◌≤◌, ◌<◌, ◌≡◌, refl, sym, ap, ◌∙◌, subst, String, false, Option, none, some, List, arith,
  leb, if◌then◌else◌, Bool-cases, inl, inr,
}
use imagegen_bridge.Core.Error.{Result, Result-cases, ok, err, >>=-eq-ok}
use imagegen_bridge.Core.Parameters.{default_size}
use imagegen_bridge.Core.Parameters.Wire.{contains, size_wire}
use imagegen_bridge.Core.Request.{ImageRequest}
use imagegen_bridge.Core.Response.{ImageResponse}
use imagegen_bridge.Core.Capabilities.{Floats, ProviderCapabilities, validate, in_range}
use imagegen_bridge.Core.Negotiation.{NegotiatedRequest, negotiate_request}
use imagegen_bridge.Core.Negotiation.Guarantees.{negotiated, negotiate_request-Accepts}
use imagegen_bridge.Runtime.Fanout.Plan.{
  OutputFanoutConfig, validate_config, effective_capabilities, raised,
}
use imagegen_bridge.Runtime.Fanout.Aggregate.{Readings}
use imagegen_bridge.Runtime.Fanout.Batch.{Completion, execute_fanout}
use imagegen_bridge.Runtime.Fanout.Coverage.{image_hits, failure_hits}
use imagegen_bridge.Runtime.Fanout.Outputs.{requested, execute_fanout-outputs}
use imagegen_bridge.Runtime.Fanout.Serve.{
  finish_response, map_ok, negotiate_effective, serve_negotiated, serve, effective_capabilities-ok,
  validate-count,
}

-- The negotiated count is one of the effective capabilities.
negotiate_effective-count :
    {F : Type 0} ⦃fl : Floats F⦄ (config : OutputFanoutConfig) (native : ProviderCapabilities F)
    (request : ImageRequest) (n : NegotiatedRequest)
    → validate_config config ≡ ok config
    → contains native.sizes.allowed default_size ≡ false
    → negotiate_effective config native request ≡ ok n
    → native.count.max < n.effective_request.parameters.n
    → (0 < native.count.max)
      × (n.effective_request.parameters.n ≤ config.max_outputs)
      × (n.requested ≡ request.parameters)
unfolding negotiate_effective effective_capabilities in_range
negotiate_effective-count config native request n valid no_auto h many =
    let (c, effective, h') =
      >>=-eq-ok (effective_capabilities config native) (negotiate_request request) h in
    let (u, fine, h'') = >>=-eq-ok (validate native) _ effective in
    let e = effective_capabilities-ok config native valid fine in
    let positive : 0 < native.count.max = validate-count native fine in
    elim (Bool-cases (leb config.max_outputs native.count.max)) [
      | inl enough ↦
          let same : native ≡ c = ground (arith, e, effective, enough) in
          let (checked, staged, revised, asked) = negotiated c request n h' in
          let accepted =
            negotiate_request-Accepts c request n
              (subst (λ d. contains d.sizes.allowed default_size ≡ false) same no_auto) h' in
          absurd ground (arith, accepted.n, ap (λ d. d.count.max) same, many)
      | inr fewer ↦
          let same : raised config native ≡ c = ground (arith, e, effective, fewer) in
          let (checked, staged, revised, asked) = negotiated c request n h' in
          let accepted =
            negotiate_request-Accepts c request n
              (subst (λ d. contains d.sizes.allowed default_size ≡ false) same no_auto) h' in
          (positive, ground (arith, accepted.n, ap (λ d. d.count.max) same), asked)
    ]

map_ok-ok :
    {A B : Type 0} (f : A → B) (run : Option (Result A)) (b : B)
    → map_ok f run ≡ some (ok b)
    → (a : A) × (run ≡ some (ok a)) × (f a ≡ b)
map_ok-ok f none b h = cc
map_ok-ok f (some (err e)) b h = cc
map_ok-ok f (some (ok a)) b h = (a, refl, cc)

serve_negotiated-outputs :
    {F : Type 0} ⦃fl : Floats F⦄ (config : OutputFanoutConfig) (native : ProviderCapabilities F)
    (request : ImageRequest) (request_id : String) (readings : Readings)
    (direct : ImageRequest → Option (Result ImageResponse)) (completions : List Completion)
    (response : ImageResponse) (output : ℕ) (n : NegotiatedRequest)
    → validate_config config ≡ ok config
    → config.max_outputs < 256
    → contains native.sizes.allowed default_size ≡ false
    → negotiate_effective config native request ≡ ok n
    → serve_negotiated config native request_id readings direct completions n ≡ some (ok response)
    → native.count.max < response.effective.n
    → (image_hits output response.images + failure_hits output response.failures
        ≡ requested output response.effective.n)
      × (response.effective.n ≤ config.max_outputs)
      × (response.requested ≡ request.parameters)
unfolding serve_negotiated finish_response
serve_negotiated-outputs config native request request_id readings direct completions response
      output n valid small no_auto made h many =
    let effective = n.effective_request in
    let direct_run = direct effective in
    let fanned = execute_fanout config effective request_id native.count.max readings completions in
    let run = if leb effective.parameters.n native.count.max then direct_run else fanned in
    let (inner, ran, finished) = map_ok-ok (finish_response n) run response h in
    let count : effective.parameters.n ≡ response.effective.n = ap (λ r. r.effective.n) finished in
    let above : native.count.max < effective.parameters.n = ground (arith, count, many) in
    let (positive, below, asked) =
      negotiate_effective-count config native request n valid no_auto made above in
    let test : leb effective.parameters.n native.count.max ≡ false = ground (arith, above) in
    let fanned_out : fanned ≡ some (ok inner) = ground (arith, ran, test) in
    let (all, ascending) =
      execute_fanout-outputs config effective request_id native.count.max readings completions inner
        output valid positive (omega (arith, below, small)) fanned_out in
    (
      subst
          (λ r.
            image_hits output r.images + failure_hits output r.failures
            ≡ requested output r.effective.n)
          finished all,
      omega (arith, below, count),
      ap (λ r. r.requested) (sym finished) ∙ asked,
    )

-- The negotiation and the batch together: if `execute` returns a response whose effective count
-- exceeds the native one, then each output below the effective count has one image or one failure,
-- another has none, the count is at most `max_outputs`, and the response reports the parameters
-- that were asked for. The configuration is accepted with `max_outputs` of 8 bits, and the provider
-- does not list the size `auto` among its explicit sizes.
pub serve-outputs :
    {F : Type 0} ⦃fl : Floats F⦄ (config : OutputFanoutConfig) (native : ProviderCapabilities F)
    (request : ImageRequest) (request_id : String) (readings : Readings)
    (direct : ImageRequest → Option (Result ImageResponse)) (completions : List Completion)
    (response : ImageResponse) (output : ℕ)
    → validate_config config ≡ ok config
    → config.max_outputs < 256
    → contains native.sizes.allowed default_size ≡ false
    → serve config native request request_id readings direct completions ≡ some (ok response)
    → native.count.max < response.effective.n
    → (image_hits output response.images + failure_hits output response.failures
        ≡ requested output response.effective.n)
      × (response.effective.n ≤ config.max_outputs)
      × (response.requested ≡ request.parameters)
unfolding serve
serve-outputs config native request request_id readings direct completions response output valid
      small no_auto h many =
    elim (Result-cases (negotiate_effective config native request)) [
      | inr (x, failed) ↦ absurd ground (arith, h, failed)
      | inl (n, made) ↦
          serve_negotiated-outputs config native request request_id readings direct completions
            response output n valid small no_auto made (ground (arith, h, made)) many
    ]
