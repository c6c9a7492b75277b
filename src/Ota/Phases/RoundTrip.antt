-- ===== src/Ota/Phases/RoundTrip.antt =====
-- The CSV column gives back the phases that a request was accepted with.
use nff_core.Prelude.{
  ℕ, zero, suc, ◌<◌, ◌≡◌, refl, ap, ◌∙◌, Bool, true, false, not, ◌&&◌, Option, none, some, List, [],
  ◌∷◌, ◌++◌, ℤ, pos, negsuc, nat_eqb, any, all, arith, All, Text, is_blank, strip,
}
use nff_core.Ota.Phases.{
  push_char, split_commas, parse_int, parse_parts, or_none, parse_csv, parse_phases, show_phase,
  show_int, join_commas, show_all, phases_csv, is_outside, check_phases,
}

no_commas : Text → Bool
no_commas = all (λ c. not (nat_eqb c b','))

split-no_commas : (w : Text) → no_commas w ≡ true → split_commas w ≡ w ∷ []
unfolding split_commas no_commas push_char
split-no_commas [] h = refl
split-no_commas (c ∷ w) h = ground (arith, split-no_commas w)

split-comma :
    (w s : Text) → no_commas w ≡ true → split_commas (w ++ (b',' ∷ s)) ≡ w ∷ split_commas s
unfolding split_commas no_commas push_char
split-comma [] s h = refl
split-comma (c ∷ w) s h = ground (arith, split-comma w s)

is_pos : ℕ → Option ℤ → Bool
is_pos n (some (pos m)) = nat_eqb m n
is_pos n _ = false

reads_back : ℕ → Bool
reads_back n =
    let w = show_phase n in no_commas w && not (is_blank (strip w)) && is_pos n (parse_int w)

-- Does the test hold of every number under a bound?
under : (ℕ → Bool) → ℕ → Bool
under test zero = true
under test (suc bound) = under test bound && test bound

under-at : (test : ℕ → Bool) (bound k : ℕ) → k < bound → under test bound ≡ true → test k ≡ true
unfolding under
under-at test (suc bound) k below h = ground (arith, under-at test bound k)
under-at test zero k below h = absurd (omega arith)

percent_table : under reads_back 101 ≡ true
unfolding under reads_back no_commas is_pos show_phase strip is_blank parse_int
percent_table = refl

-- What the table says of one percentage.
record ReadsBack (w : Text) (p : ℤ) : Type 0 where
  plain : no_commas w ≡ true
  inked : is_blank (strip w) ≡ false
  value : parse_int w ≡ some p

ReadsBack-parts :
    (n : ℕ) (w : Text)
    → (no_commas w && not (is_blank (strip w)) && is_pos n (parse_int w)) ≡ true
    → ReadsBack w (pos n)
unfolding is_pos
ReadsBack-parts n w h = record { plain = ground arith; inked = ground arith; value = ground arith }

show_int-ReadsBack : (p : ℤ) → is_outside p ≡ false → ReadsBack (show_int p) p
unfolding is_outside show_int
show_int-ReadsBack (pos n) h =
    ReadsBack-parts n (show_phase n)
      (unfold reads_back in under-at reads_back 101 n (ground arith) percent_table)
show_int-ReadsBack (negsuc n) h = cc

one_part :
    (w : Text) (p : ℤ) (ws : List Text) (ps : List ℤ)
    → ReadsBack w p
    → parse_parts ws ≡ some ps
    → parse_parts (w ∷ ws) ≡ some (p ∷ ps)
unfolding parse_parts
one_part w p ws ps r e = rw (r.inked, r.value, e)

abbrev Inside : List ℤ → Type 0
Inside = All (λ p. is_outside p ≡ false)

split-join :
    (p : ℤ) (ps : List ℤ)
    → Inside (p ∷ ps)
    → split_commas (join_commas (show_all (p ∷ ps))) ≡ show_all (p ∷ ps)
unfolding join_commas show_all
split-join p [] h = split-no_commas (show_int p) (show_int-ReadsBack p h.0).plain
split-join p (q ∷ ps) h =
    split-comma (show_int p) _ (show_int-ReadsBack p h.0).plain
    ∙ ap (λ ws. show_int p ∷ ws) (split-join q ps h.1)

parse-show_all : (ps : List ℤ) → Inside ps → parse_parts (show_all ps) ≡ some ps
unfolding show_all
parse-show_all [] h = unfold parse_parts in refl
parse-show_all (p ∷ ps) h =
    one_part (show_int p) p (show_all ps) ps (show_int-ReadsBack p h.0) (parse-show_all ps h.1)

Inside-of_check : (ps : List ℤ) → any is_outside ps ≡ false → Inside ps
Inside-of_check [] h = tt
Inside-of_check (p ∷ ps) h = (ground arith, Inside-of_check ps (ground arith))

check-Inside : (ps : List ℤ) → check_phases ps ≡ none → Inside ps
unfolding check_phases
check-Inside [] h = tt
check-Inside (p ∷ ps) h = Inside-of_check (p ∷ ps) (ground arith)

parse_csv_lem :
    (s : Text) (p : ℤ) (ps : List ℤ)
    → parse_parts (split_commas s) ≡ some (p ∷ ps)
    → parse_csv s ≡ some (p ∷ ps)
unfolding parse_csv or_none parse_parts
parse_csv_lem [] p ps h = cc
parse_csv_lem (c ∷ s) p ps h = rw h

-- The phases of an accepted request, written to the CSV column and read back, are unchanged.
pub parse-phases_csv :
    (ps : List ℤ) → check_phases ps ≡ none → parse_phases (some (phases_csv ps)) ≡ some ps
unfolding phases_csv parse_phases
parse-phases_csv [] h = unfold check_phases in cc
parse-phases_csv (p ∷ ps) h =
    let good = check-Inside (p ∷ ps) h in
    parse_csv_lem (join_commas (show_all (p ∷ ps))) p ps
      (ap parse_parts (split-join p ps good) ∙ parse-show_all (p ∷ ps) good)
