-- ===== src/Opcua/Results.antt =====
-- internal/exec/device/opcua: the results of read_opcua, and a server that answers too much.
use fieldlink.Prelude.{
  suc, ltb, String, true, false, List, [], ◌∷◌, none, some, map, length, ◌≡◌, refl, inl, inr, arith,
  Bool-cases, if◌then◌else◌,
}
use fieldlink.Prelude.Results.{ok}
use fieldlink.Opcua.{
  Clients, Executor, ReadOpcuaInput, read_nodes, panicked, returned, DataValue, NodeResult, collect,
  result_of, no_result,
}

module _ (lib : Clients) where
  -- The answers in the places of the node ids, and empty results in the places that are left.
  abbrev pub padded :
      List String → List (DataValue lib.Value lib.Time) → List (NodeResult lib.Value)
  padded (name ∷ names) (dv ∷ dvs) = result_of lib name dv ∷ padded names dvs
  padded (name ∷ names) [] = no_result ∷ padded names []
  padded [] dvs = []

  padded_nil : (names : List String) → map (λ _. no_result) names ≡ padded names []
  padded_nil [] = refl
  padded_nil (name ∷ names) = rw (padded_nil names)

  collect_lem :
      (names : List String) (dvs : List (DataValue lib.Value lib.Time))
      → collect lib names dvs
        ≡ (if ltb (length names) (length dvs) then none else some (padded names dvs))
  unfolding collect
  collect_lem names [] = elim (Bool-cases (ltb (length names) 0)) [
    | inl h ↦ absurd (ground arith)
    | inr h ↦ rw (h, padded_nil names)
  ]
  collect_lem [] (dv ∷ dvs) = ground arith
  collect_lem (name ∷ names) (dv ∷ dvs) = elim (Bool-cases (ltb (length names) (length dvs))) [
    | inl h ↦
        let k : ltb (suc (length names)) (suc (length dvs)) ≡ true = ground (arith, h) in
        rw (k, collect_lem names dvs) (rw h)
    | inr h ↦
        let k : ltb (suc (length names)) (suc (length dvs)) ≡ false = ground (arith, h) in
        rw (k, collect_lem names dvs) (rw h)
  ]

  -- With the server's answer read_opcua returns a result for each node id, in the order of the call,
  -- with an empty one where the server has not answered; where the server answers more than it is
  -- asked, it panics.
  pub read_nodes_lem :
      {S : Type 0} (q : ReadOpcuaInput) (ids : List lib.NodeId) (c : lib.Client)
      (e : Executor lib S) (dvs : List (DataValue lib.Value lib.Time))
      → lib.read c ids ≡ some dvs
      → (read_nodes lib q ids c e).0 ≡ (
          if ltb (length q.node_ids) (length dvs)
          then panicked
          else returned (ok (record { endpoint = q.endpoint; results = padded q.node_ids dvs })))
  unfolding read_nodes
  read_nodes_lem q ids c e dvs answered = elim (Bool-cases (ltb (length q.node_ids) (length dvs))) [
    | inl h ↦
        let k : collect lib q.node_ids dvs ≡ none = rw (collect_lem q.node_ids dvs) (rw h) in
        rw (answered, h, k, read_nodes)
    | inr h ↦
        let k : collect lib q.node_ids dvs ≡ some (padded q.node_ids dvs) =
          rw (collect_lem q.node_ids dvs) (rw h) in
        rw (answered, h, k, read_nodes)
  ]
