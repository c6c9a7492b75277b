-- ===== src/Diagnosis/Versions/Order.antt =====
-- The version predicates agree with one another.
use nff_core.Prelude.{
  ℕ, zero, suc, ◌+◌, ◌-◌, ltb, Bool, true, false, not, ◌||◌, some, List, [], ◌∷◌, ◌++◌, length,
  Text, max, ◌≡◌, ◌⊎◌, refl, ap, ◌∙◌, inl, inr, Bool-cases, arith,
}
use nff_core.Diagnosis.Versions.{
  le, lt, ge, gt, eq, parse_version, zeros, pad, tuple_lt, tuple_eq, sides, holds, compare_version,
}

-- Exactly one of the three
abbrev pub OneOf : Bool → Bool → Bool → Type 0
OneOf a b c =
    ((a ≡ true) × (b ≡ false) × (c ≡ false))
    ⊎ ((a ≡ false) × (b ≡ true) × (c ≡ false))
    ⊎ ((a ≡ false) × (b ≡ false) × (c ≡ true))

trichotomy : (xs ys : List ℕ) → OneOf (tuple_lt xs ys) (tuple_eq xs ys) (tuple_lt ys xs)
unfolding tuple_lt tuple_eq
trichotomy [] [] = inr (inl (refl, refl, refl))
trichotomy [] (y ∷ ys) = inl (refl, refl, refl)
trichotomy (x ∷ xs) [] = inr (inr (refl, refl, refl))
trichotomy (x ∷ xs) (y ∷ ys) = elim (Bool-cases (ltb x y)) [
  | inl e ↦ inl (ground arith, ground arith, ground arith)
  | inr e ↦ elim (Bool-cases (ltb y x)) [
    | inl t ↦ inr (inr (ground arith, ground arith, ground arith))
    | inr t ↦ elim (trichotomy xs ys) [
      | inl (a, b, c) ↦ inl (ground arith, ground arith, ground arith)
      | inr (inl (a, b, c)) ↦ inr (inl (ground arith, ground arith, ground arith))
      | inr (inr (a, b, c)) ↦ inr (inr (ground arith, ground arith, ground arith))
    ]
  ]
]

from_one : (a b c : Bool) → OneOf a b c → (a || b) ≡ not c
from_one a b c (inl (p, q, r)) = ground arith
from_one a b c (inr (inl (p, q, r))) = ground arith
from_one a b c (inr (inr (p, q, r))) = ground arith

lt_or_eq : (xs ys : List ℕ) → (tuple_lt xs ys || tuple_eq xs ys) ≡ not (tuple_lt ys xs)
lt_or_eq xs ys = from_one (tuple_lt xs ys) (tuple_eq xs ys) (tuple_lt ys xs) (trichotomy xs ys)

-- Of any two versions exactly one of `<`, `==` and `>` holds, whether they parse or not; `<=` is the opposite
-- of `>`, and `>=` of `<`.
pub compare_version_trichotomy :
    (actual expected : Text)
    → OneOf
        (compare_version (some actual) lt expected)
        (compare_version (some actual) eq expected)
        (compare_version (some actual) gt expected)
      × (compare_version (some actual) le expected
          ≡ not (compare_version (some actual) gt expected))
      × (compare_version (some actual) ge expected
          ≡ not (compare_version (some actual) lt expected))
unfolding compare_version holds
compare_version_trichotomy actual expected =
    let (a, e) = sides actual expected (parse_version actual) (parse_version expected) in
    (trichotomy a e, lt_or_eq a e, lt_or_eq e a)

length-zeros : (xs : List ℕ) (n : ℕ) → length (xs ++ zeros n) ≡ length xs + n
unfolding zeros
length-zeros [] zero = refl
length-zeros [] (suc n) = omega (arith, length-zeros [] n)
length-zeros (x ∷ xs) n = omega (arith, length-zeros xs n)

tuple_eq_refl : (xs : List ℕ) → tuple_eq xs xs ≡ true
unfolding tuple_eq
tuple_eq_refl [] = refl
tuple_eq_refl (x ∷ xs) = ground (arith, tuple_eq_refl xs)

padded : (m : ℕ) (xs : List ℕ) (n : ℕ) → m ≡ length xs + n → pad m xs ≡ xs ++ zeros n
unfolding pad
padded m xs n h = let short : m - length xs ≡ n = omega arith in rw short refl

append_none : (xs : List ℕ) → xs ++ [] ≡ xs
append_none [] = refl
append_none (x ∷ xs) = ap (λ l. x ∷ l) (append_none xs)

full : (m : ℕ) (xs : List ℕ) → m ≡ length xs → pad m xs ≡ xs
unfolding zeros
full m xs h = padded m xs 0 (omega arith) ∙ append_none xs

-- A version and the same one with zeros at its end are equal to the predicates.
pub compare_version-zeros :
    (actual expected : Text) (ns : List ℕ) (k : ℕ)
    → parse_version actual ≡ some ns
    → parse_version expected ≡ some (ns ++ zeros k)
    → compare_version (some actual) eq expected ≡ true
unfolding compare_version sides holds
compare_version-zeros actual expected ns k a e =
    let most : max (length ns) (length (ns ++ zeros k)) ≡ length ns + k =
      omega (arith, length-zeros ns k) in
    rw
      (
        a,
        e,
        padded (max (length ns) (length (ns ++ zeros k))) ns k most,
        full (max (length ns) (length (ns ++ zeros k))) (ns ++ zeros k)
            (omega (arith, most, length-zeros ns k)),
      )
      (tuple_eq_refl (ns ++ zeros k))
