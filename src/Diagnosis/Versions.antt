-- ===== src/Diagnosis/Versions.antt =====
-- Predicates on firmware versions, nff_diagnosis/correlation/predicate.py. The comparison is modelled for the
-- version attributes; that of the others goes through floats. Digits are those of ASCII.
pub mod Order
use nff_core.Prelude.{
  ℕ, zero, suc, ◌+◌, ◌-◌, ◌*◌, ltb, nat_eqb, Bool, true, false, not, ◌&&◌, ◌||◌, Option, none, some,
  List, [], ◌∷◌, ◌++◌, length, if◌then◌else◌, Text, is_digit, is_blank, map, select, max,
}
use nff_core.Tools.Update.Versions.{split_char}

to_dot : ℕ → ℕ
to_dot c = if nat_eqb c b'-' || nat_eqb c b'_' then b'.' else c

number_from : ℕ → Text → ℕ
number_from acc [] = acc
number_from acc (c ∷ s) = number_from (acc * 10 + (c - b'0')) s

-- `started` holds once a part was found; then a chunk without digits ends the version.
parts_of : Bool → List Text → List ℕ
unfolding number_from is_blank is_digit
parts_of started [] = []
parts_of started (chunk ∷ chunks) =
    let digits = select is_digit chunk in
    let rest = parts_of (not (is_blank digits) || started) chunks in
    if not (is_blank digits) then number_from 0 digits ∷ rest else if started then [] else rest

some_parts : List ℕ → Option (List ℕ)
some_parts [] = none
some_parts (n ∷ ns) = some (n ∷ ns)

unfoldable pub parse_version : Text → Option (List ℕ)
unfolding to_dot parts_of some_parts split_char
parse_version s = some_parts (parts_of false (split_char b'.' (map to_dot s)))

abbrev pub zeros : ℕ → List ℕ
zeros zero = []
zeros (suc n) = 0 ∷ zeros n

-- `a + (0,) * (n - len(a))`
unfoldable pub pad : ℕ → List ℕ → List ℕ
unfolding zeros
pad n a = a ++ zeros (n - length a)

-- Python's order of tuples, and of texts by their code points
unfoldable pub tuple_lt : List ℕ → List ℕ → Bool
tuple_lt [] [] = false
tuple_lt [] (y ∷ ys) = true
tuple_lt (x ∷ xs) [] = false
tuple_lt (x ∷ xs) (y ∷ ys) = ltb x y || nat_eqb x y && tuple_lt xs ys

unfoldable pub tuple_eq : List ℕ → List ℕ → Bool
tuple_eq [] [] = true
tuple_eq [] (y ∷ ys) = false
tuple_eq (x ∷ xs) [] = false
tuple_eq (x ∷ xs) (y ∷ ys) = nat_eqb x y && tuple_eq xs ys

-- What is compared: the padded versions if both parse, the texts otherwise
sides : Text → Text → Option (List ℕ) → Option (List ℕ) → List ℕ × List ℕ
unfolding pad
sides actual expected (some a) (some e) =
    (pad (max (length a) (length e)) a, pad (max (length a) (length e)) e)
sides actual expected _ _ = (actual, expected)

pub data Op : Type 0 where
  le lt ge gt eq : Op

holds : Op → List ℕ × List ℕ → Bool
holds le (a, e) = tuple_lt a e || tuple_eq a e
holds lt (a, e) = tuple_lt a e
holds ge (a, e) = tuple_lt e a || tuple_eq e a
holds gt (a, e) = tuple_lt e a
holds eq (a, e) = tuple_eq a e

-- `_compare` for a version attribute; one that is missing satisfies nothing.
unfoldable pub compare_version : Option Text → Op → Text → Bool
unfolding sides holds tuple_lt tuple_eq
compare_version none op expected = false
compare_version (some actual) op expected =
    holds op (sides actual expected (parse_version actual) (parse_version expected))
