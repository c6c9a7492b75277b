-- ===== src/Ota/Phases.antt =====
-- The `phases` of a rollout: cumulative cohort percentages, kept as CSV text in the deployments row
-- (observability/nff-ota/nff_ota/tools/deployments/ops.py, models/deployment.py).
pub mod RoundTrip
use nff_core.Prelude.{
  ℕ, zero, suc, ◌+◌, ◌-◌, ◌*◌, ◌/◌, ◌%◌, ◌≡◌, refl, Bool, true, false, not, ◌&&◌, ◌||◌, Option,
  none, some, List, [], ◌∷◌, ◌++◌, ℤ, pos, negsuc, neg, ltb, leb, nat_eqb, if◌then◌else◌, any,
  String, Text, is_digit, strip, is_blank,
}

-- The digits of an `int` literal: `due` holds where a digit must follow, at the start and after a
-- single underscore.
digits : Bool → ℕ → Text → Option ℕ
unfolding is_digit
digits due acc [] = if due then none else some acc
digits due acc (c ∷ s) =
    let rest = digits (not (is_digit c)) (if is_digit c then acc * 10 + (c - b'0') else acc) s in
    if is_digit c || nat_eqb c b'_' && not due then rest else none

signed : Text → Option ℤ
unfolding digits
signed [] = none
signed (c ∷ s) =
    if nat_eqb c b'-'
    then elim (digits true 0 s) [ none ↦ none | some n ↦ some (neg n) ]
    else if nat_eqb c b'+'
    then elim (digits true 0 s) [ none ↦ none | some n ↦ some (pos n) ]
    else elim (digits true 0 (c ∷ s)) [ none ↦ none | some n ↦ some (pos n) ]

-- `int(s)`, or none for its `ValueError`
unfoldable pub parse_int : Text → Option ℤ
unfolding strip signed
parse_int s = signed (strip s)

push_char : ℕ → List Text → List Text
push_char c [] = (c ∷ []) ∷ []
push_char c (w ∷ ws) = (c ∷ w) ∷ ws

-- `s.split(",")`
split_commas : Text → List Text
unfolding push_char
split_commas [] = [] ∷ []
split_commas (c ∷ s) =
    let rest = split_commas s in if nat_eqb c b',' then [] ∷ rest else push_char c rest

-- `[int(p) for p in parts if p.strip() != ""]`
parse_parts : List Text → Option (List ℤ)
unfolding is_blank strip parse_int
parse_parts [] = some []
parse_parts (p ∷ ps) =
    let rest = parse_parts ps in
    if is_blank (strip p) then rest else elim (parse_int p) [
      | none ↦ none
      | some n ↦ elim rest [ none ↦ none | some ns ↦ some (n ∷ ns) ]
    ]

-- `phases or None`
or_none : Option (List ℤ) → Option (List ℤ)
or_none none = none
or_none (some []) = none
or_none (some (n ∷ ns)) = some (n ∷ ns)

parse_csv : Text → Option (List ℤ)
unfolding or_none parse_parts split_commas
parse_csv [] = none
parse_csv (c ∷ s) = or_none (parse_parts (split_commas (c ∷ s)))

-- _parse_phases
unfoldable pub parse_phases : Option Text → Option (List ℤ)
unfolding parse_csv
parse_phases none = none
parse_phases (some raw) = parse_csv raw

-- `str(p)` for a p that is not negative. The fuel passes the number of its digits.
show_digits : ℕ → ℕ → Text → Text
show_digits zero n acc = acc
show_digits (suc fuel) n acc =
    let shown = (b'0' + n % 10) ∷ acc in
    elim (ltb n 10) [ true ↦ shown | false ↦ show_digits fuel (n / 10) shown ]

pub show_phase : ℕ → Text
unfolding show_digits
show_phase p = show_digits (suc p) p []

join_commas : List Text → Text
join_commas [] = []
join_commas (w ∷ []) = w
join_commas (w ∷ (v ∷ ws)) = w ++ (b',' ∷ join_commas (v ∷ ws))

show_int : ℤ → Text
unfolding show_phase
show_int (pos n) = show_phase n
show_int (negsuc n) = b'-' ∷ show_phase (suc n)

show_all : List ℤ → List Text
unfolding show_int
show_all [] = []
show_all (p ∷ ps) = show_int p ∷ show_all ps

-- `",".join(str(p) for p in params.phases)`
unfoldable pub phases_csv : List ℤ → Text
unfolding show_all join_commas
phases_csv ps = join_commas (show_all ps)

lt_int : ℤ → ℤ → Bool
lt_int (pos m) (pos n) = ltb m n
lt_int (pos m) (negsuc n) = false
lt_int (negsuc m) (pos n) = true
lt_int (negsuc m) (negsuc n) = ltb n m

unfoldable pub ascending : List ℤ → Bool
unfolding lt_int
ascending [] = true
ascending (p ∷ []) = true
ascending (p ∷ (q ∷ ps)) = lt_int p q && ascending (q ∷ ps)

is_hundred : ℤ → Bool
is_hundred (pos n) = nat_eqb n 100
is_hundred (negsuc n) = false

unfoldable pub ends_at_hundred : List ℤ → Bool
unfolding is_hundred
ends_at_hundred [] = false
ends_at_hundred (p ∷ []) = is_hundred p
ends_at_hundred (p ∷ (q ∷ ps)) = ends_at_hundred (q ∷ ps)

-- p <= 0 or p > 100
is_outside : ℤ → Bool
is_outside (pos n) = nat_eqb n 0 || ltb 100 n
is_outside (negsuc n) = true

pub data PhasesError : Type 0 where
  empty out_of_range not_ascending last_not_hundred : PhasesError

-- CreateDeploymentParams._check_phases on a list: the first rule that it breaks, if any
unfoldable pub check_phases : List ℤ → Option PhasesError
unfolding is_outside ascending ends_at_hundred
check_phases [] = some empty
check_phases (p ∷ ps) =
    if any is_outside (p ∷ ps)
    then some out_of_range
    else if not (ascending (p ∷ ps))
    then some not_ascending
    else if not (ends_at_hundred (p ∷ ps))
    then some last_not_hundred
    else none
