-- ===== src/Tools/Update/Versions.antt =====
-- Versions of releases, nff/tools/updater.py.
pub mod Order
use nff_core.Prelude.{
  ℕ, ltb, nat_eqb, ℤ, pos, negsuc, Bool, true, false, ◌&&◌, ◌||◌, Option, none, some, List, [], ◌∷◌,
  if◌then◌else◌, Text, strip, reverse,
}
use nff_core.Ota.Phases.{parse_int}

pub record Version : Type 0 where
  pub major : ℤ
  pub minor : ℤ
  pub patch : ℤ

-- `s.lstrip(c)`
unfoldable pub lstrip_char : ℕ → Text → Text
lstrip_char c [] = []
lstrip_char c (d ∷ s) = let rest = lstrip_char c s in if nat_eqb d c then rest else d ∷ s

unfoldable pub push_char : ℕ → List Text → List Text
push_char c [] = (c ∷ []) ∷ []
push_char c (w ∷ ws) = (c ∷ w) ∷ ws

-- `s.split(c)`
unfoldable pub split_char : ℕ → Text → List Text
unfolding push_char
split_char c [] = [] ∷ []
split_char c (d ∷ s) =
    let rest = split_char c s in if nat_eqb d c then [] ∷ rest else push_char d rest

version_of : Option ℤ → Option ℤ → Option ℤ → Option Version
version_of (some a) (some b) (some c) = some record { major = a; minor = b; patch = c }
version_of _ _ _ = none

parse_segments : List Text → Option Version
unfolding version_of
parse_segments (a ∷ b ∷ c ∷ []) = version_of (parse_int a) (parse_int b) (parse_int c)
parse_segments _ = none

unfoldable pub parse_version : Text → Option Version
unfolding parse_segments lstrip_char split_char
parse_version text = parse_segments (split_char b'.' (lstrip_char b'v' (strip text)))

last_segment : List Text → Text
last_segment [] = []
last_segment (s ∷ []) = s
last_segment (s ∷ t ∷ more) = last_segment (t ∷ more)

tag_version : Text → Option Version → Option Text
tag_version tail none = none
tag_version tail (some v) = some (lstrip_char b'v' tail)

-- `location.rstrip("/").rsplit("/", 1)[-1]`
tail_of : Text → Text
unfolding last_segment
tail_of location = last_segment (split_char b'/' (reverse (lstrip_char b'/' (reverse location))))

unfoldable pub parse_tag_version : Text → Option Text
unfolding tail_of tag_version
parse_tag_version location = tag_version (tail_of location) (parse_version (tail_of location))

int_lt : ℤ → ℤ → Bool
int_lt (pos a) (pos b) = ltb a b
int_lt (pos a) (negsuc b) = false
int_lt (negsuc a) (pos b) = true
int_lt (negsuc a) (negsuc b) = ltb b a

int_eq : ℤ → ℤ → Bool
int_eq (pos a) (pos b) = nat_eqb a b
int_eq (negsuc a) (negsuc b) = nat_eqb a b
int_eq _ _ = false

-- `a < b` of tuples
pub version_lt : Version → Version → Bool
unfolding int_lt int_eq
version_lt a b =
    int_lt a.major b.major
    || int_eq a.major b.major
      && (int_lt a.minor b.minor || int_eq a.minor b.minor && int_lt a.patch b.patch)

newer : Option Version → Option Version → Bool
newer (some a) (some b) = version_lt b a
newer _ _ = false

unfoldable pub is_newer : Text → Text → Bool
unfolding newer version_lt
is_newer candidate current = newer (parse_version candidate) (parse_version current)
