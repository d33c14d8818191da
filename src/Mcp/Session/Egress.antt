-- ===== src/Mcp/Session/Egress.antt =====
-- What each tool lets out has been earned: a verified grant permitted it in the world of the call that
-- let it out.
use fieldlink.Prelude.{
  ℕ, String, List, [], ◌∷◌, ◌++◌, ◌≡◌, refl, sym, subst, inl, inr, All, All-append, All-of,
}
use fieldlink.Policy.{Context}
use fieldlink.Policy.GrantEngine.{Deps, World, GrantEngine, grant_engine}
use fieldlink.Policy.GrantEngine.Soundness.{authorize_iff}
use fieldlink.Db.Query
use fieldlink.Db.Query.{Sent, QueryDatabaseInput, query_database, query_params, requested_rows}
use fieldlink.Db.Query.Gate.{query_database-Authorized}
use fieldlink.Modbus.Read
use fieldlink.Modbus.Read.{ReadModbusInput, read_modbus, read_params}
use fieldlink.Modbus.Read.Gate.{read_modbus-Authorized}
use fieldlink.Http
use fieldlink.Http.{
  Url, CallInternalHttpInput, call_internal_http, pinned_request, request_params,
  is_metadata_blocked, method_of,
}
use fieldlink.Http.Gate.{call_internal_http-Authorized}
use fieldlink.Soap
use fieldlink.Soap.{CallSoapInput, call_soap, soap_params, request_for}
use fieldlink.Soap.Gate.{refused, sent, requests_of, call_soap-Outcome}
use fieldlink.Soap.Cache.{HasPlainNames, IsCurrent}
use fieldlink.Opcua
use fieldlink.Opcua.{ReadOpcuaInput, ServerCall, read_opcua, parse_node_ids, opcua_params}
use fieldlink.Opcua.Browse.{BrowseOpcuaInput, browse_opcua}
use fieldlink.Opcua.Gate.{read_opcua-Authorized, browse_opcua-IsGuarded}
use fieldlink.Files
use fieldlink.Files.{Target, ReadFileInput, resolve_safe, list_params, limit_of}
use fieldlink.Files.Walk.{ListDirectoryInput, DirEntry}
use fieldlink.Files.Smb.{read_file, list_directory}
use fieldlink.Files.Gate.{Looked, nowhere, at_path, at_share, read_file-Authorized}
use fieldlink.Files.Directory.{IsListGuarded-Looked, list_directory-Authorized}
use fieldlink.Mcp.Session.{
  Libraries, ToolCall, on_database, on_device, on_web, on_soap, on_nodes, on_node, on_file,
  on_directory,
}
use fieldlink.Mcp.Session.Earned.{
  IsEarnedQuery, IsEarnedRead, IsEarnedRequest, IsEarnedEnvelope, IsEarnedSoap, IsEarnedCall,
  IsEarnedPath, IsEarnedTarget,
}

module _ {A : Type 0} (P : A → Type 0) (old new : List A) where
  same-All : All P old → new ≡ old → All P new
  same-All h k = subst (All P) (sym k) h

  longer-All : (x : A) → All P old → P x → new ≡ old ++ x ∷ [] → All P new
  longer-All x h p k = subst (All P) (sym k) (All-append P old (x ∷ []) h (p, tt))

-- `Made` says which calls have been made, as in Earned.
module _ (lib : Libraries) (deps : Deps) (Made : World → GrantEngine → ToolCall → Type 0) where
  module _ (w later : World) (ctx : Context) where
    pub query_database-All :
        (q : QueryDatabaseInput) (e : Query.Executor lib.databases GrantEngine)
        → Made w e.policy (on_database q)
        → All (IsEarnedQuery lib deps Made) e.sent
        → All
            (IsEarnedQuery lib deps Made)
            (query_database lib.databases (grant_engine deps w) ctx q e).1.sent
    query_database-All q e made h = elim (query_database-Authorized lib.databases deps w ctx q e) [
      | inl k ↦ same-All (IsEarnedQuery lib deps Made) e.sent _ h k
      | inr (k, accepted, a) ↦
          longer-All (IsEarnedQuery lib deps Made) e.sent _ _ h
            (accepted, q, (w, e.policy, made, a)) k
    ]

    pub read_modbus-All :
        (q : ReadModbusInput) (e : Read.Executor lib.modbus GrantEngine)
        → Made w e.policy (on_device q)
        → All (IsEarnedRead lib deps Made) e.reads
        → All
            (IsEarnedRead lib deps Made)
            (read_modbus lib.modbus (grant_engine deps w) ctx q e).1.reads
    read_modbus-All q e made h = elim (read_modbus-Authorized lib.modbus deps w ctx q e) [
      | inl k ↦ same-All (IsEarnedRead lib deps Made) e.reads _ h k
      | inr (k, a) ↦ longer-All (IsEarnedRead lib deps Made) e.reads _ q h (w, e.policy, made, a) k
    ]

    pub call_internal_http-All :
        (q : CallInternalHttpInput) (e : Http.Executor GrantEngine)
        → Made w e.policy (on_web q)
        → All (IsEarnedRequest lib deps Made) e.requests
        → All
            (IsEarnedRequest lib deps Made)
            (call_internal_http lib.web deps.matchers (grant_engine deps w) ctx q e).1.requests
    call_internal_http-All q e made h =
        elim (call_internal_http-Authorized lib.web deps.matchers deps w ctx q e) [
          | inl (reason, r, k) ↦ same-All (IsEarnedRequest lib deps Made) e.requests _ h k
          | inr (p, k, bounded, a) ↦
              longer-All (IsEarnedRequest lib deps Made) e.requests _ _ h
                (record {
                  ip = p.ip;
                  u = p.u;
                  method = method_of lib.web q.method;
                  q = q;
                  pinned = refl;
                  unblocked = p.unblocked.0;
                  earned = (w, e.policy, made, a);
                })
                k
        ]

    pub call_soap-IsEarnedSoap :
        (q : CallSoapInput) (e : Soap.Executor lib.soap GrantEngine)
        → Made w e.policy (on_soap q)
        → IsEarnedSoap lib deps Made e
        → IsEarnedSoap lib deps Made (call_soap lib.soap (grant_engine deps w) ctx q e).1
    unfolding grant_engine
    call_soap-IsEarnedSoap q e made h =
        elim (call_soap-Outcome lib.soap (grant_engine deps w) ctx q e h.plain h.current) [
          | refused reason r k c same ↦ record {
            plain = subst (HasPlainNames lib.soap) (sym same) h.plain;
            current =
                subst
                  (λ x.
                    IsCurrent lib.soap x
                      (call_soap lib.soap (grant_engine deps w) ctx q e).1.templates)
                  (sym same) c;
            requests = same-All (IsEarnedEnvelope lib deps Made) e.requests _ h.requests k;
          }
          | sent p k r c same ↦ record {
            plain = subst (HasPlainNames lib.soap) (sym same) h.plain;
            current =
                subst
                  (λ x.
                    IsCurrent lib.soap x
                      (call_soap lib.soap (grant_engine deps w) ctx q e).1.templates)
                  (sym same) c;
            requests = subst (All (IsEarnedEnvelope lib deps Made)) (sym k) (
                All-append (IsEarnedEnvelope lib deps Made) e.requests _ h.requests (
                  All-of (IsEarnedEnvelope lib deps Made)
                    (requests_of lib.soap (grant_engine deps w) ctx q e p)
                    (λ r member. record {
                      ep = p.ep;
                      op = p.op;
                      envelope = p.envelope;
                      q = q;
                      posted = member;
                      named = p.defined;
                      earned = (
                        w,
                        e.policy,
                        made,
                        (authorize_iff deps w e.policy ctx "soap.call" (soap_params q)).0 p.allowed,
                      );
                    })));
          }
        ]

    pub read_opcua-All :
        (q : ReadOpcuaInput) (e : Opcua.Executor lib.opcua GrantEngine)
        → Made w e.policy (on_nodes q)
        → All (IsEarnedCall lib deps Made) e.calls
        → All
            (IsEarnedCall lib deps Made)
            (read_opcua lib.opcua (grant_engine deps w) ctx q e).1.calls
    read_opcua-All q e made h = elim (read_opcua-Authorized lib.opcua deps w ctx q e) [
      | inl k ↦ same-All (IsEarnedCall lib deps Made) e.calls _ h k
      | inr (ids, k, parsed, a) ↦
          longer-All (IsEarnedCall lib deps Made) e.calls _ (q.endpoint, ServerCall.read ids) h
            (q, refl, parsed, (w, e.policy, made, a)) k
    ]

    pub browse_opcua-All :
        (q : BrowseOpcuaInput) (e : Opcua.Executor lib.opcua GrantEngine)
        → Made w e.policy (on_node q)
        → All (IsEarnedCall lib deps Made) e.calls
        → All
            (IsEarnedCall lib deps Made)
            (browse_opcua lib.opcua (grant_engine deps w) (grant_engine deps later) ctx q e).1.calls
    browse_opcua-All q e made h = elim ((browse_opcua-IsGuarded lib.opcua deps w later ctx q e).1) [
      | inl k ↦ same-All (IsEarnedCall lib deps Made) e.calls _ h k
      | inr (start, k, parsed, a) ↦
          longer-All (IsEarnedCall lib deps Made) e.calls _ (q.endpoint, ServerCall.browse start) h
            (q, refl, parsed, (w, e.policy, made, a)) k
    ]

  Looked-All :
      (Permitted : String → Type 0) (path : String) (before after : List Target)
      → ((p : String) → Permitted p → IsEarnedPath lib deps Made path p)
      → Looked lib.files path Permitted before after
      → All (IsEarnedTarget lib deps Made) before
      → All (IsEarnedTarget lib deps Made) after
  Looked-All Permitted path before after earn (nowhere k) h =
      same-All (IsEarnedTarget lib deps Made) before after h k
  Looked-All Permitted path before after earn (at_path resolved r p k) h =
      longer-All (IsEarnedTarget lib deps Made) before after (Target.local resolved) h
        (path, r, earn resolved p) k
  Looked-All Permitted path before after earn (at_share name rel r p k) h =
      longer-All (IsEarnedTarget lib deps Made) before after
        (Target.on_share (lib.files.string_of name) rel) h (path, name, r, refl, earn path p) k

  module _ (w : World) (ctx : Context) where
    pub read_file-All :
        (q : ReadFileInput) (e : Files.Executor lib.files GrantEngine)
        → Made w e.policy (on_file q)
        → All (IsEarnedTarget lib deps Made) e.targets
        → All
            (IsEarnedTarget lib deps Made)
            (read_file lib.files (grant_engine deps w) ctx q e).1.targets
    read_file-All q e made =
        Looked-All _ q.path e.targets _ (λ p a. inl (q, refl, (w, e.policy, made, a)))
          (read_file-Authorized lib.files deps w ctx e q).1

    pub list_directory-All :
        (sort : List DirEntry → List DirEntry) (fuel : ℕ) (q : ListDirectoryInput)
        (e : Files.Executor lib.files GrantEngine)
        → Made w e.policy (on_directory fuel q)
        → All (IsEarnedTarget lib deps Made) e.targets
        → All
            (IsEarnedTarget lib deps Made)
            (list_directory lib.files sort fuel (grant_engine deps w) ctx q e).1.targets
    list_directory-All sort fuel q e made =
        Looked-All _ q.path e.targets _ (λ p a. inr (fuel, q, refl, (w, e.policy, made, a)))
          (IsListGuarded-Looked lib.files sort fuel q deps w ctx e _
            (list_directory-Authorized lib.files sort fuel q deps w ctx e))
