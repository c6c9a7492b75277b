-- ===== src/Tools/Update/Versions/Order.antt =====
-- Newer versions are a strict order.
use nff_core.Prelude.{
  ℤ, pos, negsuc, true, false, Option, none, some, Text, arith, ◌≡◌, refl, sym, Option-cases, inl,
  inr,
}
use nff_core.Tools.Update.Versions.{
  Version, parse_version, int_lt, int_eq, version_lt, newer, is_newer,
}

int_eq-eq : (a b : ℤ) → int_eq a b ≡ true → a ≡ b
unfolding int_eq
int_eq-eq (pos a) (pos b) h = ground arith
int_eq-eq (pos a) (negsuc b) h = cc
int_eq-eq (negsuc a) (pos b) h = cc
int_eq-eq (negsuc a) (negsuc b) h = ground arith

int_lt_irrefl : (a : ℤ) → int_lt a a ≡ false
unfolding int_lt
int_lt_irrefl (pos a) = ground arith
int_lt_irrefl (negsuc a) = ground arith

int_lt_trans : (a b c : ℤ) → int_lt a b ≡ true → int_lt b c ≡ true → int_lt a c ≡ true
unfolding int_lt
int_lt_trans (pos a) (pos b) (pos c) h k = ground arith
int_lt_trans (pos a) (pos b) (negsuc c) h k = cc
int_lt_trans (pos a) (negsuc b) c h k = cc
int_lt_trans (negsuc a) (pos b) (pos c) h k = refl
int_lt_trans (negsuc a) (pos b) (negsuc c) h k = cc
int_lt_trans (negsuc a) (negsuc b) (pos c) h k = refl
int_lt_trans (negsuc a) (negsuc b) (negsuc c) h k = ground arith

int_eq_refl : (a : ℤ) → int_eq a a ≡ true
unfolding int_eq
int_eq_refl (pos a) = ground arith
int_eq_refl (negsuc a) = ground arith

version_lt_irrefl : (a : Version) → version_lt a a ≡ false
unfolding version_lt
version_lt_irrefl a =
    ground (arith, int_lt_irrefl a.major, int_lt_irrefl a.minor, int_lt_irrefl a.patch)

module _ (a b c : ℤ) where
  int_lt-eq : int_lt a b ≡ true → int_eq b c ≡ true → int_lt a c ≡ true
  int_lt-eq h k = rw (sym (int_eq-eq b c k)) h

  int_eq-lt : int_eq a b ≡ true → int_lt b c ≡ true → int_lt a c ≡ true
  int_eq-lt h k = rw (int_eq-eq a b h) k

  int_eq_trans : int_eq a b ≡ true → int_eq b c ≡ true → int_eq a c ≡ true
  int_eq_trans h k = rw (int_eq-eq a b h) k

version_lt_trans :
    (a b c : Version) → version_lt a b ≡ true → version_lt b c ≡ true → version_lt a c ≡ true
unfolding version_lt
version_lt_trans a b c h k = ground (
  arith,
  int_lt_trans a.major b.major c.major,
  int_lt_trans a.minor b.minor c.minor,
  int_lt_trans a.patch b.patch c.patch,
  int_lt-eq a.major b.major c.major,
  int_eq-lt a.major b.major c.major,
  int_eq_trans a.major b.major c.major,
  int_lt-eq a.minor b.minor c.minor,
  int_eq-lt a.minor b.minor c.minor,
  int_eq_trans a.minor b.minor c.minor,
)

-- No version is newer than itself.
pub is_newer_irrefl : (v : Text) → is_newer v v ≡ false
unfolding is_newer newer
is_newer_irrefl v = elim (Option-cases (parse_version v)) [
  | inl e ↦ rw e refl
  | inr (w, e) ↦ rw e (version_lt_irrefl w)
]

newer_trans : (a b c : Option Version) → newer a b ≡ true → newer b c ≡ true → newer a c ≡ true
unfolding newer
newer_trans (some a) (some b) (some c) h k = version_lt_trans c b a k h
newer_trans (some a) (some b) none h k = cc
newer_trans (some a) none c h k = cc
newer_trans none b c h k = cc

-- A version that is newer than a newer one is newer, so that a chain of updates never comes back to a version
-- it has left.
pub is_newer_trans :
    (u v w : Text) → is_newer u v ≡ true → is_newer v w ≡ true → is_newer u w ≡ true
unfolding is_newer
is_newer_trans u v w h k = newer_trans (parse_version u) (parse_version v) (parse_version w) h k
