-- ===== src/Http/Gate.antt =====
-- What call_internal_http lets out, and how much it brings back.
use fieldlink.Prelude.{
  ℕ, zero, suc, ◌+◌, ◌≤◌, ltb, String, Bytes, Bool, true, false, not, ◌&&◌, List, [], ◌∷◌, ◌++◌,
  Option, none, some, any, take, length, ◌==◌, ◌≡◌, refl, sym, subst, ◌⊎◌, inl, inr, arith, eq_iff,
  All, Bool-cases, Option-cases, if◌then◌else◌,
}
use fieldlink.Prelude.Results.{Result, ok, err}
use fieldlink.Policy.{Decision, Engine, Context}
use fieldlink.Policy.Constraints.{Matchers}
use fieldlink.Policy.GrantEngine.{Deps, World, GrantEngine, grant_engine}
use fieldlink.Policy.GrantEngine.Soundness.{Authorized, authorize_iff}
use fieldlink.Http.{
  Web, Url, Response, Request, CallInternalHttpInput, CallInternalHttpOutput, Executor,
  max_body_bytes, is_metadata_blocked, resolve, method_of, pinned_request, read_limited, report,
  send, request_params, call_resolved, call_internal_http,
}

none_of : {A : Type 0} (p : A → Bool) (xs : List A) → any p xs ≡ false → All (λ x. p x ≡ false) xs
none_of p [] h = tt
none_of p (x ∷ xs) h = (ground arith, none_of p xs (ground arith))

pub length-take-le : {A : Type 0} (n : ℕ) (xs : List A) → length (take n xs) ≤ n
length-take-le zero xs = omega arith
length-take-le (suc n) [] = omega arith
length-take-le (suc n) (x ∷ xs) = omega (arith, length-take-le n xs)

pub cut-le : (n : ℕ) (body : Bytes) → length (if ltb n (length body) then take n body else body) ≤ n
cut-le n body = elim (Bool-cases (ltb n (length body))) [
  | inl e ↦ rw e (length-take-le n body)
  | inr e ↦ rw e (ground arith)
]

-- A result that reports at most 2 ^ 20 bytes.
abbrev pub IsBounded : Result String CallInternalHttpOutput → Type 0
IsBounded (err reason) = Unit
IsBounded (ok out) = length out.body ≤ max_body_bytes

report-IsBounded :
    (q : CallInternalHttpInput) (answer : Option Response) → IsBounded (report q answer)
unfolding report
report-IsBounded q none = tt
report-IsBounded q (some resp) = elim (Option-cases (read_limited (max_body_bytes + 1) resp.body)) [
  | inl e ↦ rw (e, report) tt
  | inr (body, e) ↦ rw (e, report) (cut-le max_body_bytes body)
]

one_of : (s a b : String) → (not (s == a) && not (s == b)) ≡ false → (s ≡ a) ⊎ (s ≡ b)
one_of s a b h = elim (Bool-cases (s == a)) [
  | inl k ↦ inl ((eq_iff s a).0 k)
  | inr k ↦ inr ((eq_iff s b).0 (ground arith))
]

module _ {S : Type 0} (web : Web) (lib : Matchers) (eng : Engine S) (ctx : Context)
    (q : CallInternalHttpInput) (e : Executor S) where
  -- What the policy engine answers.
  abbrev pub answer : Bytes → Decision × S
  answer ip =
      eng.authorize e.policy ctx "http.request" (request_params web ip (method_of web q.method))

  -- Where the request of a call goes, and what it has passed.
  pub record Passed : Type 0 where
    pub u : Url
    pub parsed : web.parse_url q.url ≡ some u
    pub is_http : (u.scheme ≡ "http") ⊎ (u.scheme ≡ "https")
    pub reads : (method_of web q.method ≡ "GET") ⊎ (method_of web q.method ≡ "HEAD")
    pub ip : Bytes
    pub more : List Bytes
    pub resolved : resolve web u.hostname ≡ some (ip, more)
    pub unblocked : All (λ a. is_metadata_blocked lib a ≡ false) (ip ∷ more)
    pub allowed : (answer ip).0.allowed ≡ true

  abbrev pub request_of : Passed → Request
  request_of p = pinned_request web p.ip p.u (method_of web q.method) q

  -- A call that ends in an error before anything goes out, or whose one request has passed.
  pub data Outcome (r : Result String CallInternalHttpOutput × Executor S) : Type 0 where
    refused : (reason : String) → r.0 ≡ err reason → r.1.requests ≡ e.requests → Outcome r
    sent :
        (p : Passed)
        → r.1.requests ≡ e.requests ++ request_of p ∷ []
        → r.0 ≡ report q (web.exchange (request_of p))
        → Outcome r

  send-Outcome :
      (p : Passed)
      → Outcome
          (send web p.ip p.u (method_of web q.method) q (record e { policy = (answer p.ip).1 }))
  unfolding send
  send-Outcome p = elim (Bool-cases (web.can_build (method_of web q.method) q.url)) [
    | inl h ↦ rw h (sent p refl refl)
    | inr h ↦ rw h (refused _ refl refl)
  ]

  call_resolved-Outcome :
      (u : Url) (ip : Bytes) (more : List Bytes)
      → web.parse_url q.url ≡ some u
      → (u.scheme ≡ "http") ⊎ (u.scheme ≡ "https")
      → (method_of web q.method ≡ "GET") ⊎ (method_of web q.method ≡ "HEAD")
      → resolve web u.hostname ≡ some (ip, more)
      → Outcome (call_resolved web lib eng ctx u (method_of web q.method) q ip more e)
  unfolding call_resolved
  call_resolved-Outcome u ip more b c a f =
      elim (Bool-cases (any (is_metadata_blocked lib) (ip ∷ more))) [
        | inl g ↦ rw (g, call_resolved) (refused _ refl refl)
        | inr g ↦ elim (Bool-cases (answer ip).0.allowed) [
          | inr k ↦ rw (g, call_resolved) (rw (k) (refused _ refl refl))
          | inl k ↦
              rw (g, call_resolved)
                (rw (k) (
                  send-Outcome (record {
                    u = u;
                    parsed = b;
                    is_http = c;
                    reads = a;
                    ip = ip;
                    more = more;
                    resolved = f;
                    unblocked = none_of (is_metadata_blocked lib) (ip ∷ more) g;
                    allowed = k;
                  })))
        ]
      ]

  pub call_internal_http-Outcome : Outcome (call_internal_http web lib eng ctx q e)
  unfolding call_internal_http
  call_internal_http-Outcome =
      let method = method_of web q.method in
      elim (Bool-cases (not (method == "GET") && not (method == "HEAD"))) [
        | inl a ↦ rw (a, call_internal_http) (refused _ refl refl)
        | inr a ↦ elim (Option-cases (web.parse_url q.url)) [
          | inl b ↦ rw (a, b, call_internal_http) (refused _ refl refl)
          | inr (u, b) ↦ elim (Bool-cases (not (u.scheme == "http") && not (u.scheme == "https"))) [
            | inl c ↦ rw (a, b, c, call_internal_http) (refused _ refl refl)
            | inr c ↦ elim (Bool-cases (u.hostname == "")) [
              | inl d ↦ rw (a, b, c, d, call_internal_http) (refused _ refl refl)
              | inr d ↦ elim (Option-cases (resolve web u.hostname)) [
                | inl f ↦ rw (a, b, c, d, f, call_internal_http) (refused _ refl refl)
                | inr ((ip, more), f) ↦
                    rw (a, b, c, d, f, call_internal_http)
                      (call_resolved-Outcome u ip more b (one_of _ _ _ c) (one_of _ _ _ a) f)
              ]
            ]
          ]
        ]
      ]

-- Behind the grant engine, call_internal_http ends in an error with nothing sent, or it sends one
-- request: a GET or a HEAD for an http or https URL, dialled at the first address that the URL's host
-- resolved to, where none of its addresses is in a metadata block and a verified grant on disk permits
-- that address and that method. What it reports of the response is at most 2 ^ 20 bytes.
pub call_internal_http-Authorized :
    (web : Web) (lib : Matchers) (deps : Deps) (w : World) (ctx : Context)
    (q : CallInternalHttpInput) (e : Executor GrantEngine)
    → let r = call_internal_http web lib (grant_engine deps w) ctx q e in
      ((reason : String) × (r.0 ≡ err reason) × (r.1.requests ≡ e.requests))
      ⊎ ((p : Passed web lib (grant_engine deps w) ctx q e) × (r.1.requests
            ≡ e.requests ++ request_of web lib (grant_engine deps w) ctx q e p ∷ [])
          × IsBounded r.0
          × Authorized deps w e.policy "http.request"
              (request_params web p.ip (method_of web q.method)))
unfolding grant_engine
call_internal_http-Authorized web lib deps w ctx q e =
    elim (call_internal_http-Outcome web lib (grant_engine deps w) ctx q e) [
      | refused reason h k ↦ inl (reason, h, k)
      | sent p k h ↦ inr (
        p,
        k,
        subst IsBounded (sym h) (report-IsBounded q _),
        (authorize_iff deps w e.policy ctx "http.request"
              (request_params web p.ip (method_of web q.method))).0
            p.allowed,
      )
    ]
