-- ===== src/Policy/Constraints/Matching.antt =====
-- What each constraint check decides, said as a relation between the grant's constraints and the
-- call's parameters.
use fieldlink.Prelude.{
  ℤ, ◌≤ℤ◌, String, Bytes, Bool, true, false, List, [], ◌∷◌, some, any, ◌==◌, starts_with, ◌≡◌, ◌≢◌,
  ◌↔◌, inl, inr, arith, eq_iff, Some, Bool-cases, Option-cases,
}
use fieldlink.Any.{Any, items, string, array}
use fieldlink.Policy.Constraints.{
  Matchers, test_string, any_string, any_prefix_matches, string_in_list, path_matches_any, in_cidr,
  ip_matches_any_cidr, to_int64, exceeds,
}

-- The value is a string that satisfies `P`.
abbrev pub IsString : (String → Type 0) → Any → Type 0
IsString P (string s) = P s
IsString P _ = ⊥

-- The value is a list, and one of its strings satisfies `P`.
abbrev pub SomeString : (String → Type 0) → Any → Type 0
SomeString P (array vs) = Some (IsString P) (items vs)
SomeString P _ = ⊥

module _ (p : String → Bool) (P : String → Type 0) (sound : (s : String) → p s ≡ true → P s) where
  test_string_sound : (v : Any) → test_string p v ≡ true → IsString P v
  test_string_sound (string s) h = sound s h
  test_string_sound _ h = cc

  Some-sound : (vs : List Any) → any (test_string p) vs ≡ true → Some (IsString P) vs
  Some-sound [] h = cc
  Some-sound (v ∷ vs) h = elim (Bool-cases (test_string p v)) [
    | inl e ↦ inl (test_string_sound v e)
    | inr e ↦ inr (Some-sound vs (rw e at h))
  ]

  any_string_sound : (v : Any) → any_string p v ≡ true → SomeString P v
  unfolding any_string
  any_string_sound (array vs) h = Some-sound (items vs) h
  any_string_sound _ h = cc

module _ (p : String → Bool) (P : String → Type 0)
    (complete : (s : String) → P s → p s ≡ true) where
  test_string_complete : (v : Any) → IsString P v → test_string p v ≡ true
  test_string_complete (string s) h = complete s h
  test_string_complete _ h = absurd h

  Some-complete : (vs : List Any) → Some (IsString P) vs → any (test_string p) vs ≡ true
  Some-complete [] h = absurd h
  Some-complete (v ∷ vs) (inl h) = rw (test_string_complete v h)
  Some-complete (v ∷ vs) (inr h) = ground (arith, Some-complete vs h)

  any_string_complete : (v : Any) → SomeString P v → any_string p v ≡ true
  unfolding any_string
  any_string_complete (array vs) h = Some-complete (items vs) h
  any_string_complete _ h = absurd h

-- `s` is one of the strings of the list; an empty `s` never is.
abbrev pub IsListed : Any → String → Type 0
IsListed list s = (s ≢ "") × SomeString (λ item. item ≡ s) list

pub string_in_list_iff :
    (list : Any) (s : String) → (string_in_list list s ≡ true) ↔ IsListed list s
unfolding string_in_list
string_in_list_iff list s = elim (Bool-cases (s == "")) [
  | inl e ↦ rw e ((λ h. absurd (cc)), (λ h. absurd (h.0 ((eq_iff s "").0 e))))
  | inr e ↦ rw e (
    (λ h. (
      ground (arith, e, eq_iff s ""),
      any_string_sound (λ item. item == s) (λ item. item ≡ s) (λ i. (eq_iff i s).0) list h,
    )),
    (λ h.
        any_string_complete (λ item. item == s) (λ item. item ≡ s) (λ i. (eq_iff i s).1) list h.1),
  )
]

-- A pattern of the list matches the path, its separators made slashes; an empty path never does.
abbrev pub IsPathGranted : Matchers → Any → String → Type 0
IsPathGranted lib patterns path =
    (path ≢ "") × SomeString (λ pattern. lib.glob pattern (lib.to_slash path) ≡ true) patterns

pub path_matches_any_iff :
    (lib : Matchers) (patterns : Any) (path : String)
    → (path_matches_any lib patterns path ≡ true) ↔ IsPathGranted lib patterns path
unfolding path_matches_any
path_matches_any_iff lib patterns path =
    let p = λ (pattern : String). lib.glob pattern (lib.to_slash path) in
    elim (Bool-cases (path == "")) [
      | inl e ↦ rw e ((λ h. absurd (cc)), (λ h. absurd (h.0 ((eq_iff path "").0 e))))
      | inr e ↦ rw e (
        (λ h. (
          ground (arith, e, eq_iff path ""),
          any_string_sound p (λ s. p s ≡ true) (λ i k. k) patterns h,
        )),
        (λ h. any_string_complete p (λ s. p s ≡ true) (λ i k. k) patterns h.1),
      )
    ]

-- The address lies in a network of the list.
abbrev pub IsInNetwork : Matchers → Any → Bytes → Type 0
IsInNetwork lib cidrs ip = SomeString (λ c. in_cidr lib ip c ≡ true) cidrs

pub ip_matches_any_cidr_iff :
    (lib : Matchers) (cidrs : Any) (ip : Bytes)
    → (ip_matches_any_cidr lib cidrs ip ≡ true) ↔ IsInNetwork lib cidrs ip
unfolding ip_matches_any_cidr
ip_matches_any_cidr_iff lib cidrs ip = (
  any_string_sound (in_cidr lib ip) (λ c. in_cidr lib ip c ≡ true) (λ i k. k) cidrs,
  any_string_complete (in_cidr lib ip) (λ c. in_cidr lib ip c ≡ true) (λ i k. k) cidrs,
)

-- The node's id begins with a prefix of the list.
abbrev pub IsNodeGranted : Any → String → Type 0
IsNodeGranted prefixes id = SomeString (λ prefix. starts_with id prefix ≡ true) prefixes

pub any_prefix_matches_iff :
    (prefixes : Any) (id : String)
    → (any_prefix_matches prefixes id ≡ true) ↔ IsNodeGranted prefixes id
unfolding any_prefix_matches
any_prefix_matches_iff prefixes id = (
  any_string_sound (λ p. starts_with id p) (λ p. starts_with id p ≡ true) (λ i k. k) prefixes,
  any_string_complete (λ p. starts_with id p) (λ p. starts_with id p ≡ true) (λ i k. k) prefixes,
)

-- Where both are numbers, the request is at most the ceiling.
abbrev pub IsWithin : Matchers → Any → Any → Type 0
IsWithin lib ceiling requested =
    (c r : ℤ) → to_int64 lib ceiling ≡ some c → to_int64 lib requested ≡ some r → r ≤ℤ c

pub exceeds_iff :
    (lib : Matchers) (ceiling requested : Any)
    → (exceeds lib ceiling requested ≡ false) ↔ IsWithin lib ceiling requested
unfolding exceeds
exceeds_iff lib ceiling requested = elim (Option-cases (to_int64 lib ceiling)) [
  | inl e ↦ ((λ h c r f g. absurd (cc (e, f))), (λ h. ground (arith, e)))
  | inr (c, e) ↦ elim (Option-cases (to_int64 lib requested)) [
    | inl f ↦ ((λ h a b g k. absurd (cc (f, k))), (λ h. ground (arith, e, f)))
    | inr (r, f) ↦
        ((λ h a b g k. ground (arith, e, f, g, k)), (λ h. ground (arith, e, f, h c r e f)))
  ]
]
