-- ===== src/Prelude/Chars.antt =====
-- Texts that the program takes apart: a list of code points. White space, letters and digits are
-- those of ASCII.
use Prim.Native.Char.{code}
use Prim.Native.Nat.{ℕ, ◌+◌}
use Prim.Native.String.{String}
use mathlib.Core.Path.{◌≡◌, refl}
use mathlib.Core.Logic.{◌↔◌}
use mathlib.Core.Bool.{Bool, true, false, ◌&&◌, ◌||◌}
use mathlib.Core.List.{List, [], ◌∷◌, map, reverse}
use native.Mathlib.Omega.{arith}
use nff_core.Prelude.Tests.{leb, nat_eqb, if◌then◌else◌, Eq}

abbrev pub Text : Type 0
Text = List ℕ

unfoldable pub is_space : ℕ → Bool
is_space c = leb 9 c && leb c 13 || leb 28 c && leb c 32

unfoldable pub is_digit : ℕ → Bool
is_digit c = leb b'0' c && leb c b'9'

lstrip : Text → Text
unfolding is_space
lstrip [] = []
lstrip (c ∷ s) = let rest = lstrip s in if is_space c then rest else c ∷ s

-- `s.strip()`
unfoldable pub strip : Text → Text
unfolding lstrip
strip s = reverse (lstrip (reverse (lstrip s)))

lower_char : ℕ → ℕ
lower_char c = if leb b'A' c && leb c b'Z' then c + 32 else c

-- `s.lower()`
unfoldable pub lower : Text → Text
unfolding lower_char
lower s = map lower_char s

unfoldable pub is_blank : Text → Bool
is_blank [] = true
is_blank (c ∷ s) = false

abbrev pub text_eqb : Text → Text → Bool
text_eqb [] [] = true
text_eqb [] (d ∷ t) = false
text_eqb (c ∷ s) [] = false
text_eqb (c ∷ s) (d ∷ t) = nat_eqb c d && text_eqb s t

pub text_eqb_iff : (s t : Text) → (text_eqb s t ≡ true) ↔ (s ≡ t)
text_eqb_iff [] [] = (λ h. refl, λ h. refl)
text_eqb_iff [] (d ∷ t) = (λ h. cc, λ h. cc)
text_eqb_iff (c ∷ s) [] = (λ h. cc, λ h. cc)
text_eqb_iff (c ∷ s) (d ∷ t) =
    let ih = text_eqb_iff s t in (λ h. ground (arith, ih.0), λ h. ground (arith, ih.1))

instance abbrev pub text_eq : Eq Text
text_eq = record { test = text_eqb; decides = text_eqb_iff }

-- The code points of a text literal
abbrev pub codes : String → Text
codes String.[] = []
codes (String.◌∷◌ c s) = code c ∷ codes s
