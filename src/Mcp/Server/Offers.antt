-- ===== src/Mcp/Server/Offers.antt =====
-- Which tools the server offers.
use fieldlink.Prelude.{
  String, true, List, [], ◌∷◌, ◌++◌, some, ◌≡◌, refl, sym, ap, ◌∙◌, ◌↔◌, ◌⊎◌, inl, inr, Some,
  Bool-cases, Option-cases,
}
use fieldlink.Prelude.Results.{Result-cases}
use fieldlink.Any.{Map}
use fieldlink.Grant.{Grant, find}
use fieldlink.Policy.GrantEngine.{Deps, World, GrantEngine, grant_engine, granted, load}
use fieldlink.Policy.GrantEngine.Soundness.{Verified, load_iff}
use fieldlink.Policy.GrantEngine.Runs.{fresh, fresh-load, load-fresh}
use fieldlink.Mcp.Server.{Tool, tools, add_tools}

module _ {A : Type 0} (P : A → Type 0) where
  Some-split : (xs ys : List A) → Some P (xs ++ ys) → Some P xs ⊎ Some P ys
  Some-split [] ys h = inr h
  Some-split (x ∷ xs) ys (inl p) = inl (inl p)
  Some-split (x ∷ xs) ys (inr h) = elim (Some-split xs ys h) [ inl k ↦ inl (inr k) | inr k ↦ inr k ]

  Some-left : (xs ys : List A) → Some P xs → Some P (xs ++ ys)
  Some-left [] ys h = absurd h
  Some-left (x ∷ xs) ys (inl p) = inl p
  Some-left (x ∷ xs) ys (inr h) = inr (Some-left xs ys h)

  Some-right : (xs ys : List A) → Some P ys → Some P (xs ++ ys)
  Some-right [] ys h = h
  Some-right (x ∷ xs) ys h = inr (Some-right xs ys h)

module _ (deps : Deps) (w : World) where
  -- A verified grant on disk has the capability.
  pub record HasCapability (e : GrantEngine) (capability : String) : Type 0 where
    pub g : Grant
    pub verified : Verified deps w e g
    pub constraints : Map
    pub found : find g capability ≡ some constraints

  granted_iff :
      (e : GrantEngine) (capability : String)
      → ((granted deps w e capability).0 ≡ true) ↔ HasCapability e capability
  unfolding granted
  granted_iff e capability = (
    (λ h. elim (Result-cases (load deps w e).0) [
      | inr (x, a) ↦ absurd (cc (rw (a, granted) at h))
      | inl (g, a) ↦ elim (Option-cases (find g capability)) [
        | inl b ↦ absurd (cc (rw (a, b, granted) at h))
        | inr (c, b) ↦ record {
          g = g;
          verified = (load_iff deps w e g).0 a;
          constraints = c;
          found = b;
        }
      ]
    ]),
    (λ p. rw ((load_iff deps w e p.g).1 p.verified, p.found, granted)),
  )

  granted-fresh :
      (e e' : GrantEngine) (capability : String)
      → fresh e' ≡ fresh e
      → (granted deps w e' capability).0 ≡ (granted deps w e capability).0
  unfolding granted
  granted-fresh e e' capability h =
      let loads : (load deps w e').0 ≡ (load deps w e).0 =
        sym (load-fresh deps w e') ∙ ap (λ x. (load deps w x).0) h ∙ load-fresh deps w e in
      rw (loads, granted)

  fresh-granted :
      (e : GrantEngine) (capability : String) → fresh (granted deps w e capability).1 ≡ fresh e
  unfolding granted
  fresh-granted e capability = fresh-load deps w e

  add_tools_iff :
      (rows : List (String × List Tool)) (e e' : GrantEngine) (t : Tool)
      → fresh e' ≡ fresh e
      → Some (λ u. u ≡ t) (add_tools (grant_engine deps w) rows e').0
        ↔ Some (λ row. Some (λ u. u ≡ t) row.1 × HasCapability e row.0) rows
  unfolding add_tools grant_engine
  add_tools_iff [] e e' t h = ((λ x. x), (λ x. x))
  add_tools_iff ((capability, offered) ∷ rows) e e' t h =
      let below =
        add_tools_iff rows e (granted deps w e' capability).1 t (fresh-granted e' capability ∙ h) in
      let more = (add_tools (grant_engine deps w) rows (granted deps w e' capability).1).0 in
      elim (Bool-cases (granted deps w e' capability).0) [
        | inl a ↦
            let has = (granted_iff e capability).0 (sym (granted-fresh e e' capability h) ∙ a) in
            (
              (λ k. elim (Some-split (λ u. u ≡ t) offered more (rw (a, add_tools) at k)) [
                | inl x ↦ inl (x, has)
                | inr x ↦ inr (below.0 x)
              ]),
              (λ k.
                  rw (a, add_tools)
                    (elim k [
                      | inl (x, _) ↦ Some-left (λ u. u ≡ t) offered more x
                      | inr x ↦ Some-right (λ u. u ≡ t) offered more (below.1 x)
                    ])),
            )
        | inr a ↦ (
          (λ k. inr (below.0 (rw (a, add_tools) at k))),
          (λ k.
              rw (a, add_tools)
                (elim k [
                  | inl (_, has) ↦ absurd (
                      cc (
                        sym (granted-fresh e e' capability h) ∙ a,
                        (granted_iff e capability).1 has,
                      ))
                  | inr x ↦ below.1 x
                ])),
        )
      ]

  -- Behind the grant engine, the server offers a tool exactly when a verified grant on disk has, at the
  -- start, a capability that the tool stands behind.
  pub add_tools-HasCapability :
      (e : GrantEngine) (t : Tool)
      → Some (λ u. u ≡ t) (add_tools (grant_engine deps w) tools e).0
        ↔ Some (λ row. Some (λ u. u ≡ t) row.1 × HasCapability e row.0) tools
  add_tools-HasCapability e t = add_tools_iff tools e e t refl
