-- ===== src/Soap/Gate.antt =====
-- What call_soap lets out.
use fieldlink.Prelude.{
  ◌+◌, ◌≤◌, String, Bytes, true, ◌||◌, List, ◌∷◌, ◌++◌, Option, none, some, length, ◌==◌, ◌≡◌, refl,
  sym, subst, ◌⊎◌, inl, inr, ◌∙◌, Bool-cases, Option-cases,
}
use fieldlink.Prelude.Results.{Result, ok, err}
use fieldlink.Config.{SoapEndpoint, SoapOperation, lookup}
use fieldlink.Policy.{Decision, Engine, Context}
use fieldlink.Policy.GrantEngine.{Deps, World, GrantEngine, grant_engine}
use fieldlink.Policy.GrantEngine.Soundness.{Authorized, authorize_iff}
use fieldlink.Http.{Response, read_limited}
use fieldlink.Http.Gate.{cut-le}
use fieldlink.Soap.{
  Services, CallSoapInput, CallSoapOutput, Executor, Request, max_response_bytes, template_key,
  template_for, escaped_params, request_for, report, fill_and_send, call_operation, soap_params,
  call_soap,
}
use fieldlink.Soap.Cache.{HasPlainNames, IsCurrent, template_for-IsCurrent}

-- A result that reports at most 2 ^ 20 bytes.
abbrev pub IsBounded : Result String CallSoapOutput → Type 0
IsBounded (err reason) = Unit
IsBounded (ok out) = length out.body ≤ max_response_bytes

report-IsBounded : (q : CallSoapInput) (answer : Option Response) → IsBounded (report q answer)
unfolding report
report-IsBounded q none = tt
report-IsBounded q (some resp) =
    elim (Option-cases (read_limited (max_response_bytes + 1) resp.body)) [
      | inl e ↦ rw (e, report) tt
      | inr (body, e) ↦ rw (e, report) (cut-le max_response_bytes body)
    ]

module _ {S : Type 0} (lib : Services) (eng : Engine S) (ctx : Context) (q : CallSoapInput)
    (e : Executor lib S) where
  -- What the policy engine answers to the call.
  abbrev pub answer : Decision × S
  answer = eng.authorize e.policy ctx "soap.call" (soap_params q)

  -- The configured operation that a call has named, its own template, and the envelope that this
  -- makes of the escaped parameters.
  pub record Passed : Type 0 where
    pub ep : SoapEndpoint
    pub found : lookup e.endpoints q.endpoint ≡ some ep
    pub op : SoapOperation
    pub defined : lookup ep.operations q.operation ≡ some op
    pub template : lib.Template
    pub parsed : lib.parse (template_key q.endpoint q.operation) op.template ≡ some template
    pub envelope : Bytes
    pub executed : lib.execute template (escaped_params lib q.params) ≡ some envelope
    pub allowed : answer.0.allowed ≡ true

  abbrev pub request_of : Passed → Request
  request_of p = request_for lib p.ep p.op p.envelope

  -- The request, and what http.DefaultClient sends on when the answers redirect it.
  abbrev pub requests_of : Passed → List Request
  requests_of p = request_of p ∷ lib.redirected (request_of p)

  -- A call that ends in an error before anything goes out, or whose request has passed; either
  -- way the cache stays current.
  pub data Outcome (r : Result String CallSoapOutput × Executor lib S) : Type 0 where
    refused :
        (reason : String)
        → r.0 ≡ err reason
        → r.1.requests ≡ e.requests
        → IsCurrent lib e.endpoints r.1.templates
        → r.1.endpoints ≡ e.endpoints
        → Outcome r
    sent :
        (p : Passed)
        → r.1.requests ≡ e.requests ++ requests_of p
        → r.0 ≡ report q (lib.exchange (request_of p))
        → IsCurrent lib e.endpoints r.1.templates
        → r.1.endpoints ≡ e.endpoints
        → Outcome r

  module _ (plain : HasPlainNames lib e.endpoints)
      (current : IsCurrent lib e.endpoints e.templates) where
    call_operation-Outcome :
        (ep : SoapEndpoint) (op : SoapOperation)
        → lookup e.endpoints q.endpoint ≡ some ep
        → lookup ep.operations q.operation ≡ some op
        → answer.0.allowed ≡ true
        → Outcome (call_operation lib ep op q (record e { policy = answer.1 }))
    unfolding call_operation fill_and_send
    call_operation-Outcome ep op found defined allowed =
        let found_template = template_for lib q.endpoint q.operation op.template e.templates in
        let (kept, own) =
          template_for-IsCurrent lib e.endpoints plain e.templates current q.endpoint q.operation ep
            op found defined in
        elim (Option-cases found_template.0) [
          | inl a ↦ rw (a, call_operation) (refused _ refl refl kept refl)
          | inr (t, a) ↦ elim (Option-cases (lib.execute t (escaped_params lib q.params))) [
            | inl b ↦ rw (a, b, call_operation, fill_and_send) (refused _ refl refl kept refl)
            | inr (envelope, b) ↦ elim (Bool-cases (lib.can_build ep.url)) [
              | inr c ↦ rw (a, b, c, call_operation, fill_and_send) (refused _ refl refl kept refl)
              | inl c ↦
                  let p : Passed = record {
                    ep = ep;
                    found = found;
                    op = op;
                    defined = defined;
                    template = t;
                    parsed = sym own ∙ a;
                    envelope = envelope;
                    executed = b;
                    allowed = allowed;
                  } in
                  rw (a, b, c, call_operation, fill_and_send) (sent p refl refl kept refl)
            ]
          ]
        ]

    pub call_soap-Outcome : Outcome (call_soap lib eng ctx q e)
    unfolding call_soap
    call_soap-Outcome = elim (Bool-cases (q.endpoint == "" || q.operation == "")) [
      | inl a ↦ rw (a, call_soap) (refused _ refl refl current refl)
      | inr a ↦ elim (Option-cases (lookup e.endpoints q.endpoint)) [
        | inl b ↦ rw (a, b, call_soap) (refused _ refl refl current refl)
        | inr (ep, b) ↦ elim (Option-cases (lookup ep.operations q.operation)) [
          | inl c ↦ rw (a, b, c, call_soap) (refused _ refl refl current refl)
          | inr (op, c) ↦ elim (Bool-cases answer.0.allowed) [
            | inr d ↦ rw (a, b, c, call_soap) (rw (d) (refused _ refl refl current refl))
            | inl d ↦ rw (a, b, c, call_soap) (rw (d) (call_operation-Outcome ep op b c d))
          ]
        ]
      ]
    ]

-- Behind the grant engine, where no configured endpoint's name has a NUL and the cache is current,
-- call_soap ends in an error with nothing sent, or it hands one request to http.DefaultClient: the
-- configured operation's own template over the escaped parameters, to the endpoint's URL, where a
-- verified grant on disk permits the endpoint and the operation; all else that goes out is what that
-- client sends when the answers to this request redirect it. It reports at most 2 ^ 20 bytes of the last
-- response, and the cache stays current.
pub call_soap-Authorized :
    (lib : Services) (deps : Deps) (w : World) (ctx : Context) (q : CallSoapInput)
    (e : Executor lib GrantEngine)
    → HasPlainNames lib e.endpoints
    → IsCurrent lib e.endpoints e.templates
    → let r = call_soap lib (grant_engine deps w) ctx q e in
      IsCurrent lib e.endpoints r.1.templates
      × (((reason : String) × (r.0 ≡ err reason) × (r.1.requests ≡ e.requests))
          ⊎ ((p : Passed lib (grant_engine deps w) ctx q e) × (r.1.requests
                ≡ e.requests ++ requests_of lib (grant_engine deps w) ctx q e p)
              × IsBounded r.0
              × Authorized deps w e.policy "soap.call" (soap_params q)))
unfolding grant_engine
call_soap-Authorized lib deps w ctx q e plain current =
    elim (call_soap-Outcome lib (grant_engine deps w) ctx q e plain current) [
      | refused reason h k c same ↦ (c, inl (reason, h, k))
      | sent p k h c same ↦ (
        c,
        inr (
          p,
          k,
          subst IsBounded (sym h) (report-IsBounded q _),
          (authorize_iff deps w e.policy ctx "soap.call" (soap_params q)).0 p.allowed,
        ),
      )
    ]
