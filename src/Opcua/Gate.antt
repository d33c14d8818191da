-- ===== src/Opcua/Gate.antt =====
-- What read_opcua and browse_opcua let through to a server, and what a browse gives away.
use fieldlink.Prelude.{
  String, true, ◌||◌, List, [], ◌∷◌, ◌++◌, Option, some, ◌==◌, starts_with, ◌≡◌, refl, ◌⊎◌, inl,
  inr, All, Some, any_sound, Bool-cases, Option-cases,
}
use fieldlink.Prelude.Results.{Result, ok, err}
use fieldlink.Config.{lookup}
use fieldlink.Policy.{Decision, Engine, Context}
use fieldlink.Policy.GrantEngine.{Deps, World, GrantEngine, grant_engine, granted_values}
use fieldlink.Policy.GrantEngine.Soundness.{Authorized, authorize_iff}
use fieldlink.Opcua.{
  Clients, ReadOpcuaInput, Executor, ServerCall, client_for, collect, is_empty, parse_node_ids,
  read_nodes, parse_and_read, opcua_params, read_opcua,
}
use fieldlink.Opcua.Browse.{
  BrowseOpcuaInput, BrowseOpcuaOutput, ChildNode, has_any_prefix, children_of, browse_node,
  parse_and_browse, browse_opcua,
}

module _ {S : Type 0} (lib : Clients) (eng : Engine S) (ctx : Context) (q : ReadOpcuaInput)
    (e : Executor lib S) where
  abbrev pub read_answer : Decision × S
  read_answer = eng.authorize e.policy ctx "device.opcua.read" (opcua_params q.endpoint q.node_ids)

  pub read_opcua-calls :
      let r = read_opcua lib eng ctx q e in
      (r.1.calls ≡ e.calls)
      ⊎ ((ids : List lib.NodeId) × (r.1.calls ≡ e.calls ++ (q.endpoint, ServerCall.read ids) ∷ [])
          × (parse_node_ids lib q.node_ids ≡ some ids)
          × (read_answer.0.allowed ≡ true))
  unfolding read_opcua parse_and_read read_nodes
  read_opcua-calls = elim (Bool-cases (q.endpoint == "" || is_empty q.node_ids)) [
    | inl a ↦ inl (rw (a, read_opcua))
    | inr a ↦ elim (Option-cases (lookup e.endpoints q.endpoint)) [
      | inl b ↦ inl (rw (a, b, read_opcua))
      | inr (ep, b) ↦ elim (Bool-cases read_answer.0.allowed) [
        | inr d ↦ inl (rw (a, b, read_opcua) (rw (d)))
        | inl d ↦ elim (Option-cases (parse_node_ids lib q.node_ids)) [
          | inl f ↦ inl (rw (a, b, read_opcua) (rw (d, f, parse_and_read)))
          | inr (ids, f) ↦ elim (Option-cases (client_for lib q.endpoint ep e.conns).0) [
            | inl g ↦ inl (rw (a, b, read_opcua) (rw (d, f, g, parse_and_read)))
            | inr (c, g) ↦ elim (Option-cases (lib.read c ids)) [
              | inl h ↦ inr (
                ids,
                rw (a, b, read_opcua) (rw (d, f, g, parse_and_read) (rw (h, read_nodes))),
                f,
                d,
              )
              | inr (dvs, h) ↦ elim (Option-cases (collect lib q.node_ids dvs)) [
                | inl k ↦ inr (
                  ids,
                  rw (a, b, read_opcua) (rw (d, f, g, parse_and_read) (rw (h, k, read_nodes))),
                  f,
                  d,
                )
                | inr (rs, k) ↦ inr (
                  ids,
                  rw (a, b, read_opcua) (rw (d, f, g, parse_and_read) (rw (h, k, read_nodes))),
                  f,
                  d,
                )
              ]
            ]
          ]
        ]
      ]
    ]
  ]

-- Behind the grant engine, read_opcua asks a server for nothing but the nodes of the call, and only
-- where a verified grant on disk permits the endpoint and every one of the node ids.
pub read_opcua-Authorized :
    (lib : Clients) (deps : Deps) (w : World) (ctx : Context) (q : ReadOpcuaInput)
    (e : Executor lib GrantEngine)
    → let r = read_opcua lib (grant_engine deps w) ctx q e in
      (r.1.calls ≡ e.calls)
      ⊎ ((ids : List lib.NodeId) × (r.1.calls ≡ e.calls ++ (q.endpoint, ServerCall.read ids) ∷ [])
          × (parse_node_ids lib q.node_ids ≡ some ids)
          × Authorized deps w e.policy "device.opcua.read" (opcua_params q.endpoint q.node_ids))
unfolding grant_engine
read_opcua-Authorized lib deps w ctx q e =
    elim (read_opcua-calls lib (grant_engine deps w) ctx q e) [
      | inl k ↦ inl k
      | inr (ids, k, f, p) ↦ inr (
        ids,
        k,
        f,
        (authorize_iff deps w e.policy ctx "device.opcua.read"
              (opcua_params q.endpoint q.node_ids)).0
            p,
      )
    ]

-- The child's id begins with one of the prefixes.
abbrev pub IsBelow : List String → ChildNode → Type 0
IsBelow prefixes child = Some (λ p. starts_with child.node_id p ≡ true) prefixes

children_of-IsBelow :
    (prefixes : List String) (refs : List (String × Option String × String))
    → All (IsBelow prefixes) (children_of (some prefixes) refs)
unfolding children_of has_any_prefix
children_of-IsBelow prefixes [] = tt
children_of-IsBelow prefixes ((child, name, class) ∷ refs) =
    elim (Bool-cases (has_any_prefix child prefixes)) [
      | inl h ↦
          rw (h, children_of)
            (any_sound (λ p. starts_with child p) prefixes h, children_of-IsBelow prefixes refs)
      | inr h ↦ rw (h, children_of) (children_of-IsBelow prefixes refs)
    ]

-- A result whose children are all below the prefixes.
abbrev pub IsScoped : List String → Result String BrowseOpcuaOutput → Type 0
IsScoped prefixes (err reason) = Unit
IsScoped prefixes (ok out) = All (IsBelow prefixes) out.children

module _ (lib : Clients) (deps : Deps) (w later : World) (ctx : Context) (q : BrowseOpcuaInput)
    (e : Executor lib GrantEngine) where
  abbrev pub browse_answer : Decision × GrantEngine
  unfolding grant_engine
  browse_answer =
      (grant_engine deps w).authorize e.policy ctx "device.opcua.read"
        (opcua_params q.endpoint (q.node_id ∷ []))

  -- The prefixes that a verified grant holds when the server has answered.
  abbrev pub prefixes_then : List String
  prefixes_then = (granted_values deps later browse_answer.1 "device.opcua.read" "node_prefixes").0

  abbrev pub IsGuarded : Result String BrowseOpcuaOutput × Executor lib GrantEngine → Type 0
  IsGuarded r =
      IsScoped prefixes_then r.0
      × ((r.1.calls ≡ e.calls)
          ⊎ ((start : lib.NodeId) × (r.1.calls
                ≡ e.calls ++ (q.endpoint, ServerCall.browse start) ∷ [])
              × (lib.parse_node_id q.node_id ≡ some start)
              × Authorized deps w e.policy "device.opcua.read"
                  (opcua_params q.endpoint (q.node_id ∷ []))))

  -- Behind the grant engine, browse_opcua browses nothing but the node of the call, and only where a
  -- verified grant on disk permits the endpoint and the node; and each child that it reports begins
  -- with a prefix of the grant that is verified when the server has answered.
  pub browse_opcua-IsGuarded :
      IsGuarded (browse_opcua lib (grant_engine deps w) (grant_engine deps later) ctx q e)
  unfolding browse_opcua parse_and_browse browse_node grant_engine
  browse_opcua-IsGuarded = elim (Bool-cases (q.endpoint == "" || q.node_id == "")) [
    | inl a ↦ rw (a, browse_opcua) (tt, inl refl)
    | inr a ↦ elim (Option-cases (lookup e.endpoints q.endpoint)) [
      | inl b ↦ rw (a, b, browse_opcua) (tt, inl refl)
      | inr (ep, b) ↦ elim (Bool-cases browse_answer.0.allowed) [
        | inr d ↦ rw (a, b, browse_opcua) (rw (d) (tt, inl refl))
        | inl d ↦ elim (Option-cases (lib.parse_node_id q.node_id)) [
          | inl f ↦ rw (a, b, browse_opcua) (rw (d, f, parse_and_browse) (tt, inl refl))
          | inr (start, f) ↦ elim (Option-cases (client_for lib q.endpoint ep e.conns).0) [
            | inl g ↦ rw (a, b, browse_opcua) (rw (d, f, g, parse_and_browse) (tt, inl refl))
            | inr (c, g) ↦
                let permitted =
                  (authorize_iff deps w e.policy ctx "device.opcua.read"
                      (opcua_params q.endpoint (q.node_id ∷ []))).0
                    d in
                elim (Option-cases (lib.references c start)) [
                  | inl h ↦
                      rw (a, b, browse_opcua)
                        (rw (d, f, g, parse_and_browse)
                          (rw (h, browse_node) (tt, inr (start, refl, refl, permitted))))
                  | inr (refs, h) ↦
                      rw (a, b, browse_opcua)
                        (rw (d, f, g, parse_and_browse)
                          (rw (h, browse_node)
                            (
                              children_of-IsBelow prefixes_then refs,
                              inr (start, refl, refl, permitted),
                            )))
                ]
          ]
        ]
      ]
    ]
  ]
