-- ===== src/Sdk/Actions/Lawful.antt =====
-- The orders of mission actions at the interceptor of the kernel (vehicle/kernel/laws/interceptor.py).
use steeleagle.Prelude.{
  String, ◌≡◌, refl, sym, ap, ◌∙◌, ◌≢◌, inl, inr, true, [], ◌∷◌, ne_of_test, some_inj, ok,
}
use steeleagle.Law.Kernel.{Kernel, Call}
use steeleagle.Law.Authority.{Authority, allows}
use steeleagle.Law.Interceptor.{handled, last_part, Incoming, identity_of, command_of, intercept}
use steeleagle.Law.Interceptor.Safety.{intercept-Passed}
use steeleagle.Sdk.Calls.{Request}
use steeleagle.Sdk.Actions.{Action, execute}
use steeleagle.Sdk.Actions.Sent.{path, Orders}

not_authority : ◌≢◌ {A = String} "internal" "authority"
not_authority = ne_of_test "internal" "authority" refl

module _ (k : Kernel) (pack : Request → k.Request) where
  -- The call as the server receives it: gRPC puts an entry of its own before the metadata of the API.
  abbrev pub received : String × String → Call Request → Incoming k
  received agent call = record {
    metadata = agent ∷ ("identity", call.identity) ∷ [];
    method_name = path call;
    request = pack call.request;
  }

  -- The command that the law is asked about.
  abbrev pub law_command : Call Request → String → String
  law_command call service = command_of k "internal" service call.method

  -- An order of a mission's action is never taken for one of the law authority's own: it gets past the
  -- interceptor to the driver only if the law of the moment allows the command
  -- 'internal.<service>.<method>' with the order's request.
  pub order-Lawful :
      (a : Action) (o : Orders (λ c log. execute c a log)) (agent : String × String)
      (authority : Authority k)
      → (intercept k (received agent o.call) authority).0 ≡ ok handled
      → allows k authority (law_command o.call o.routed.service) (pack o.call.request) ≡ ok true
  unfolding identity_of
  order-Lawful a o agent authority passed =
      let p = intercept-Passed k (received agent o.call) authority passed in
      let name : p.identity ≡ "internal" = some_inj (sym p.known) ∙ o.internal in
      let parts : (p.service_url, p.method) ≡ (o.routed.service_url, o.call.method) =
        some_inj (sym p.parts ∙ o.routed.parts) in
      let command : command_of k p.identity (last_part p.service_url) p.method
          ≡ law_command o.call o.routed.service =
        ap (λ i. command_of k i (last_part p.service_url) p.method) name
        ∙ ap (λ q. command_of k "internal" (last_part q.0) q.1) parts
        ∙ ap (λ s. command_of k "internal" s o.call.method) o.routed.short in
      elim p.granted [
        | inl authority_itself ↦ absurd (not_authority (sym name ∙ authority_itself))
        | inr allowed ↦ ap (λ c. allows k authority c (pack o.call.request)) (sym command) ∙ allowed
      ]
