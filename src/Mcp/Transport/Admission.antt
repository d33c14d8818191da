-- ===== src/Mcp/Transport/Admission.antt =====
-- Which requests a server that others can reach lets through.
use fieldlink.Prelude.{
  ap, sym, ◌∙◌, Bytes, codes, bytes_eq→eq, true, List, ◌++◌, none, some, false, ◌≡◌, subst, ◌⊎◌,
  inl, inr, Bool-cases, Option-cases,
}
use fieldlink.Prelude.Results.{Result, ok}
use fieldlink.Policy.{Context}
use fieldlink.Mcp.Oauth.{TokenInfo, TokenError, verify_token}
use fieldlink.Mcp.Issuer.{is_empty}
use fieldlink.Mcp.Transport.{
  Request, handle_mcp, HttpOptions, Services, Verifier, bearer, access_token, Server, run_http,
  require_bearer_token, attach_caller_id, admit,
}
use fieldlink.Mcp.Transport.Startup.{IsVerifier, nothing, secret, tokens, run_http_started}

-- The header holds the token, which is not empty.
pub record Carries (header token : Bytes) : Type 0 where
  pub before : Bytes
  pub after : Bytes
  pub parts : header ≡ before ++ (token ++ after)
  pub not_empty : is_empty token ≡ false

module _ {K : Type 0} (lib : Services K) (opts : HttpOptions) where
  -- How a request stands for its caller: by the configured shared token, where no verifier is
  -- configured, or by an access token in its header, which the configured verifier accepts with each of
  -- the scopes that are configured for it.
  pub data IsAdmitted (ctx : Context) (header : Bytes) (ctx' : Context) : Type 0 where
    by_secret :
        opts.oauth ≡ none
        → opts.local_issuer ≡ none
        → is_empty opts.bearer_token ≡ false
        → header ≡ codes "Bearer " ++ opts.bearer_token
        → ctx' ≡ ctx
        → IsAdmitted ctx header ctx'
    by_token :
        (v : Verifier) (required : List Bytes) (token : Bytes) (info : TokenInfo)
        → IsVerifier lib opts v required
        → Carries header token
        → verify_token v required token ≡ ok info
        → ctx' ≡ attach_caller_id ctx info
        → IsAdmitted ctx header ctx'

  -- The SDK lets a request through only with a token that its header carries and the verifier accepts.
  abbrev pub HasChecked : Type 0
  HasChecked =
      (verifier : Bytes → Result TokenError TokenInfo) (required : List Bytes) (header : Bytes)
      (info : TokenInfo)
      → lib.require_token verifier required header ≡ some info
      → (token : Bytes) × Carries header token × (verifier token ≡ ok info)

  admit_secret :
      (ctx ctx' : Context) (header : Bytes)
      → opts.oauth ≡ none
      → opts.local_issuer ≡ none
      → is_empty opts.bearer_token ≡ false
      → admit lib (bearer opts.bearer_token) ctx header ≡ some ctx'
      → IsAdmitted ctx header ctx'
  unfolding admit require_bearer_token
  admit_secret ctx ctx' header no_oauth no_issuer set h =
      elim (Bool-cases (require_bearer_token opts.bearer_token header)) [
        | inl a ↦ by_secret no_oauth no_issuer set (bytes_eq→eq _ _ a) (cc (rw (a, admit) at h))
        | inr a ↦ absurd (cc (rw (a, admit) at h))
      ]

  admit_token :
      HasChecked
      → (v : Verifier) (required : List Bytes) (ctx ctx' : Context) (header : Bytes)
      → IsVerifier lib opts v required
      → admit lib (access_token v required) ctx header ≡ some ctx'
      → IsAdmitted ctx header ctx'
  unfolding admit
  admit_token checked v required ctx ctx' header configured h =
      elim (Option-cases (lib.require_token (verify_token v required) required header)) [
        | inl a ↦ absurd (cc (rw (a, admit) at h))
        | inr (info, a) ↦
            let (token, carried, accepted) =
              checked (verify_token v required) required header info a in
            by_token v required token info configured carried accepted (cc (rw (a, admit) at h))
      ]

  admit-IsAdmitted :
      (server : Server) (ctx ctx' : Context) (header : Bytes)
      → HasChecked
      → opts.allow_remote ≡ true
      → run_http lib opts ≡ ok server
      → admit lib server.guard ctx header ≡ some ctx'
      → IsAdmitted ctx header ctx'
  admit-IsAdmitted server ctx ctx' header checked remote started h =
      let (hardened, chosen, origins, bound) = run_http_started lib opts server started in
      elim hardened.guarded [
        | inl p ↦ absurd (cc (remote, p))
        | inr guarded ↦ elim chosen [
          | nothing p none_set ↦ absurd (guarded p)
          | secret p no_oauth no_issuer set ↦
              admit_secret ctx ctx' header no_oauth no_issuer set
                (subst (λ g. admit lib g ctx header ≡ some ctx') p h)
          | tokens v required p configured ↦
              admit_token checked v required ctx ctx' header configured
                (subst (λ g. admit lib g ctx header ≡ some ctx') p h)
        ]
      ]

  -- The request has passed the check of its origin, if there are origins to check it by.
  abbrev pub HasOrigin : Request → Type 0
  HasOrigin r =
      (is_empty opts.allowed_origins ≡ true)
      ⊎ (lib.passes_origins opts.allowed_origins r.origin ≡ true)

  -- Where --allow-remote is given, a request for /mcp is let through only with the configured shared
  -- token, or with an access token in its header that the verifier of the configured provider or local
  -- issuer accepts with each scope configured for it, whose subject is then the caller, and only from
  -- an origin that passes the check of the configured ones; the SDK's check of a header is taken to
  -- accept only a token that the header carries and the verifier accepts.
  pub handle_mcp-IsAdmitted :
      (server : Server) (ctx ctx' : Context) (r : Request)
      → HasChecked
      → opts.allow_remote ≡ true
      → run_http lib opts ≡ ok server
      → handle_mcp lib server ctx r ≡ some ctx'
      → HasOrigin r × IsAdmitted ctx r.authorization ctx'
  unfolding handle_mcp
  handle_mcp-IsAdmitted server ctx ctx' r checked remote started h =
      let (hardened, chosen, origins, bound) = run_http_started lib opts server started in
      let admitted = admit-IsAdmitted server ctx ctx' r.authorization checked remote started in
      elim (Bool-cases (is_empty server.trusted_origins)) [
        | inl a ↦ (inl (ap is_empty (sym origins) ∙ a), admitted (rw (a, handle_mcp) at h))
        | inr a ↦ elim (Bool-cases (lib.passes_origins server.trusted_origins r.origin)) [
          | inl b ↦ (
            inr (ap (λ os. lib.passes_origins os r.origin) (sym origins) ∙ b),
            admitted (rw (a, b, handle_mcp) at h),
          )
          | inr b ↦ absurd (cc (rw (a, b, handle_mcp) at h))
        ]
      ]
