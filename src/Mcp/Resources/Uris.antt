-- ===== src/Mcp/Resources/Uris.antt =====
-- The names in the URIs of the resources.
use fieldlink.Prelude.{
  ◌-◌, leb, nat_eq, Bytes, bytes_eq, bytes_eq_refl, has_prefix-append, drop, take, length,
  length-append, true, false, [], ◌∷◌, ◌++◌, some, any, ◌≡◌, ◌≢◌, refl, ap, subst, arith, All,
  append_assoc,
}
use fieldlink.Mcp.Resources.{has_suffix, trim_prefix, trim_suffix, extract_id}

drop-append : (xs ys : Bytes) → drop (length xs) (xs ++ ys) ≡ ys
drop-append [] ys = refl
drop-append (x ∷ xs) ys = drop-append xs ys

take-append : (xs ys : Bytes) → take (length xs) (xs ++ ys) ≡ xs
take-append [] ys = refl
take-append (x ∷ xs) ys = ap (λ t. x ∷ t) (take-append xs ys)

front : (xs ys : Bytes) → length (xs ++ ys) - length ys ≡ length xs
front xs ys = omega (arith, length-append xs ys)

has_suffix-append : (xs ys : Bytes) → has_suffix (xs ++ ys) ys ≡ true
unfolding has_suffix
has_suffix-append xs ys =
    let longer : leb (length ys) (length (xs ++ ys)) ≡ true = ground (arith, length-append xs ys) in
    rw (longer, front xs ys, drop-append xs ys, has_suffix) (bytes_eq_refl ys)

trim_suffix-append : (xs ys : Bytes) → trim_suffix (xs ++ ys) ys ≡ xs
unfolding trim_suffix
trim_suffix-append xs ys =
    rw (has_suffix-append xs ys, front xs ys, trim_suffix) (take-append xs ys)

trim_prefix-append : (xs ys : Bytes) → trim_prefix (xs ++ ys) xs ≡ ys
unfolding trim_prefix
trim_prefix-append xs ys = rw (has_prefix-append xs ys, trim_prefix) (drop-append xs ys)

any_slash : (id : Bytes) → All (λ c. c ≢ b'/') id → any (λ c. nat_eq c b'/') id ≡ false
any_slash [] h = refl
any_slash (c ∷ id) (p, h) = ground (arith, p, any_slash id h)

-- The name is what extractID takes from the URI that is made for it, where the name is not empty and
-- has no slash.
pub extract_id-append :
    (prefix id suffix : Bytes)
    → bytes_eq id [] ≡ false
    → All (λ c. c ≢ b'/') id
    → extract_id (prefix ++ (id ++ suffix)) prefix suffix ≡ some id
unfolding extract_id
extract_id-append prefix id suffix h k =
    let ends : has_suffix (prefix ++ (id ++ suffix)) suffix ≡ true =
      subst (λ u. has_suffix u suffix ≡ true) (append_assoc prefix id suffix)
        (has_suffix-append (prefix ++ id) suffix) in
    rw (
      has_prefix-append prefix (id ++ suffix),
      ends,
      trim_prefix-append prefix (id ++ suffix),
      trim_suffix-append id suffix,
      h,
      any_slash id k,
      extract_id,
    )
