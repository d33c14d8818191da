-- ===== src/Soap/Cache.antt =====
-- internal/exec/soap: the cache of templates.
use Prim.Native.Char.{Char, code, nul}
use Prim.Native.String.append
use fieldlink.Prelude.{
  String, codes, List, ◌∷◌, Option, none, some, ◌==◌, concat, ◌≡◌, ◌≢◌, refl, sym, ap, ap₂, subst,
  inl, inr, arith, ◌∙◌, eq_iff, All, Bool-cases, Option-cases,
}
use fieldlink.Config.{SoapEndpoint, SoapOperation, lookup}
use fieldlink.Soap.{Services, template_key, template_for}

-- No NUL stands in the text.
abbrev pub HasNoNul : String → Type 0
HasNoNul s = All (λ c. c ≢ 0) (codes s)

abbrev first_or : Char → String → Char
first_or d String.[] = d
first_or d (String.◌∷◌ x s) = x

abbrev rest : String → String
rest String.[] = ""
rest (String.◌∷◌ x s) = s

template_key_nil : (b : String) → template_key "" b ≡ String.◌∷◌ nul b
unfolding template_key
template_key_nil b =
    (λ i. append.nil (concat "\0" b) i)
    ∙ (λ i. append.cons nul "" b i)
    ∙ ap (String.◌∷◌ nul) (λ i. append.nil b i)

template_key_cons :
    (x : Char) (a b : String) → template_key (String.◌∷◌ x a) b ≡ String.◌∷◌ x (template_key a b)
unfolding template_key
template_key_cons x a b = λ i. append.cons x a (concat "\0" b) i

-- The key tells the endpoint from the operation where no endpoint's name has a NUL.
template_key_inj :
    (a b c d : String)
    → HasNoNul a
    → HasNoNul c
    → template_key a b ≡ template_key c d
    → (a ≡ c) × (b ≡ d)
template_key_inj String.[] b String.[] d h k p =
    (refl, ap rest (sym (template_key_nil b) ∙ p ∙ template_key_nil d))
template_key_inj String.[] b (String.◌∷◌ y c) d h (k, _) p = absurd (
    k (
      ap (λ s. code (first_or y s)) (sym (sym (template_key_nil b) ∙ p ∙ template_key_cons y c d))))
template_key_inj (String.◌∷◌ x a) b String.[] d (h, _) k p =
    absurd
      (h (ap (λ s. code (first_or x s)) (sym (template_key_cons x a b) ∙ p ∙ template_key_nil d)))
template_key_inj (String.◌∷◌ x a) b (String.◌∷◌ y c) d (_, h) (_, k) p =
    let q = sym (template_key_cons x a b) ∙ p ∙ template_key_cons y c d in
    let (same, also) = template_key_inj a b c d h k (ap rest q) in
    (ap₂ String.◌∷◌ (ap (first_or x) q) same, also)

module _ (lib : Services) (endpoints : List (String × SoapEndpoint)) where
  -- No configured endpoint's name has a NUL.
  abbrev pub HasPlainNames : Type 0
  HasPlainNames =
      (name : String) (ep : SoapEndpoint) → lookup endpoints name ≡ some ep → HasNoNul name

  -- Under the key of a configured operation the cache holds nothing but that operation's template.
  abbrev pub IsCurrent : List (String × lib.Template) → Type 0
  IsCurrent templates =
      (endpoint operation : String) (ep : SoapEndpoint) (op : SoapOperation) (t : lib.Template)
      → lookup endpoints endpoint ≡ some ep
      → lookup ep.operations operation ≡ some op
      → lookup templates (template_key endpoint operation) ≡ some t
      → lib.parse (template_key endpoint operation) op.template ≡ some t

  module _ (plain : HasPlainNames) (templates : List (String × lib.Template))
      (current : IsCurrent templates) (endpoint operation : String) (ep : SoapEndpoint)
      (op : SoapOperation) (found : lookup endpoints endpoint ≡ some ep)
      (defined : lookup ep.operations operation ≡ some op) where
    add-IsCurrent :
        (t : lib.Template)
        → lib.parse (template_key endpoint operation) op.template ≡ some t
        → IsCurrent ((template_key endpoint operation, t) ∷ templates)
    add-IsCurrent t parsed endpoint' operation' ep' op' t' found' defined' cached =
        elim (Bool-cases (template_key endpoint operation == template_key endpoint' operation')) [
          | inl k ↦
              let keys =
                (eq_iff (template_key endpoint operation) (template_key endpoint' operation')).0
                  k in
              let (same, also) =
                template_key_inj endpoint operation endpoint' operation' (plain endpoint ep found)
                  (plain endpoint' ep' found') keys in
              let same_ep : some ep ≡ some ep' = sym found ∙ ap (lookup endpoints) same ∙ found' in
              let eps : ep ≡ ep' = cc same_ep in
              let same_op : some op ≡ some op' =
                sym defined
                ∙ ap (lookup ep.operations) also
                ∙ ap (λ x. lookup x.operations operation') eps
                ∙ defined' in
              let ops : op ≡ op' = cc same_op in
              let kept : some t ≡ some t' = rw k at cached in
              ap₂ lib.parse (sym keys) (ap (λ x. x.template) (sym ops)) ∙ parsed ∙ kept
          | inr k ↦ current endpoint' operation' ep' op' t' found' defined' (ground (arith, k))
        ]

    abbrev pub IsOwn : Option lib.Template × List (String × lib.Template) → Type 0
    IsOwn r = IsCurrent r.1 × (r.0 ≡ lib.parse (template_key endpoint operation) op.template)

    -- What template_for returns is the parse of the operation's template, and the cache stays current.
    pub template_for-IsCurrent : IsOwn (template_for lib endpoint operation op.template templates)
    unfolding template_for
    template_for-IsCurrent =
        elim (Option-cases (lookup templates (template_key endpoint operation))) [
          | inr (t, k) ↦
              let run : (some t, templates)
                  ≡ template_for lib endpoint operation op.template templates =
                rw (k, template_for) in
              subst IsOwn run (current, sym (current endpoint operation ep op t found defined k))
          | inl k ↦ elim (Option-cases (lib.parse (template_key endpoint operation) op.template)) [
            | inl m ↦
                let run : (none, templates)
                    ≡ template_for lib endpoint operation op.template templates =
                  rw (k, m, template_for) in
                subst IsOwn run (current, sym m)
            | inr (t, m) ↦
                let run : (some t, (template_key endpoint operation, t) ∷ templates)
                    ≡ template_for lib endpoint operation op.template templates =
                  rw (k, m, template_for) in
                subst IsOwn run (add-IsCurrent t m, sym m)
          ]
        ]
