-- ===== src/Prelude/Order.antt =====
-- Sorting by a linear order, and Python's order of texts: by code points, the first difference first.
use Prim.Native.Nat.{suc, Ordering}
use Prim.Native.String.compare
use Prim.Native.String.{String, compare as compare_text}
use mathlib.Core.Path.{◌≡◌, refl, ap, sym, ◌∙◌}
use mathlib.Core.Logic.{◌≢◌, inl, inr}
use mathlib.Core.Bool.{Bool, true, false}
use mathlib.Core.List.{List, [], ◌∷◌, Permᴰ}
use native.Mathlib.Omega.{arith}
use text.Mathlib.Text.{is_le}
use text.Mathlib.TextEquality.{path_by_compare}
use nff_core.Prelude.Tests.{if◌then◌else◌, Bool-cases}
use nff_core.Prelude.Lists.{Distinct, length, All}

pub record LinearOrder {ℓ} (K : Type ℓ) : Type ℓ where
  pub le : K → K → Bool
  pub total : (a b : K) → le a b ≡ false → le b a ≡ true
  pub le_trans : (a b c : K) → le a b ≡ true → le b c ≡ true → le a c ≡ true
  pub antisym : (a b : K) → le a b ≡ true → le b a ≡ true → a ≡ b

module _ {ℓ} {K : Type ℓ} ⦃o : LinearOrder K⦄ where
  pub insert_sorted : K → List K → List K
  insert_sorted a [] = a ∷ []
  insert_sorted a (b ∷ bs) =
      let rest = insert_sorted a bs in if o.le a b then a ∷ b ∷ bs else b ∷ rest

  -- `sorted(xs)`
  unfoldable pub sorted : List K → List K
  unfolding insert_sorted
  sorted [] = []
  sorted (x ∷ xs) = insert_sorted x (sorted xs)

  pub length-insert_sorted : (a : K) (l : List K) → length (insert_sorted a l) ≡ suc (length l)
  unfolding insert_sorted
  length-insert_sorted a [] = refl
  length-insert_sorted a (b ∷ bs) = ground (arith, length-insert_sorted a bs)

  pub length-sorted : (l : List K) → length (sorted l) ≡ length l
  unfolding sorted
  length-sorted [] = refl
  length-sorted (x ∷ xs) = length-insert_sorted x (sorted xs) ∙ ap suc (length-sorted xs)

  insert_comm :
      (a b : K) (l : List K)
      → insert_sorted a (insert_sorted b l) ≡ insert_sorted b (insert_sorted a l)
  unfolding insert_sorted
  insert_comm a b [] = ground (arith, o.total a b, o.antisym a b)
  insert_comm a b (c ∷ l) = ground (
    arith,
    o.total a b,
    o.antisym a b,
    insert_comm a b l,
    o.le_trans a b c,
    o.le_trans b a c,
    o.total a c,
    o.total b c,
  )

  -- The sorted list depends on the items alone, whatever their order was.
  pub sorted-perm : (xs ys : List K) → Permᴰ xs ys → sorted xs ≡ sorted ys
  unfolding sorted
  sorted-perm _ _ Permᴰ.nil = refl
  sorted-perm _ _ (Permᴰ.cons {l₁ = l} {l₂ = m} e p) = cc (e, sorted-perm l m p)
  sorted-perm _ _ (Permᴰ.swap {a = a} {b = b} {l = l} e f) = cc (e, f, insert_comm a b (sorted l))
  sorted-perm _ _ (Permᴰ.trans {l₁ = l} {l₂ = m} {l₃ = n} p q) =
      sorted-perm l m p ∙ sorted-perm m n q

  pub All-insert_sorted {κ} :
      (P : K → Type κ) (a : K) (l : List K) → P a → All P l → All P (insert_sorted a l)
  unfolding insert_sorted
  All-insert_sorted P a [] pa h = (pa, tt)
  All-insert_sorted P a (b ∷ bs) pa h = elim (Bool-cases (o.le a b)) [
    | inl e ↦ rw e (pa, h)
    | inr e ↦ rw e (h.0, All-insert_sorted P a bs pa h.1)
  ]

  pub All-sorted {κ} : (P : K → Type κ) (l : List K) → All P l → All P (sorted l)
  unfolding sorted
  All-sorted P [] h = tt
  All-sorted P (x ∷ xs) h = All-insert_sorted P x (sorted xs) h.0 (All-sorted P xs h.1)

  Distinct-insert_sorted :
      (a : K) (l : List K) → All (λ y. a ≢ y) l → Distinct l → Distinct (insert_sorted a l)
  unfolding insert_sorted
  Distinct-insert_sorted a [] h d = (tt, tt)
  Distinct-insert_sorted a (b ∷ bs) h d = elim (Bool-cases (o.le a b)) [
    | inl e ↦ rw e (h, d)
    | inr e ↦ rw e (
      All-insert_sorted (λ y. b ≢ y) a bs (λ q. h.0 (sym q)) d.0,
      Distinct-insert_sorted a bs h.1 d.1,
    )
  ]

  pub Distinct-sorted : (l : List K) → Distinct l → Distinct (sorted l)
  unfolding sorted
  Distinct-sorted [] d = tt
  Distinct-sorted (x ∷ xs) d =
      Distinct-insert_sorted x (sorted xs) (All-sorted (λ y. x ≢ y) xs d.0) (Distinct-sorted xs d.1)

abbrev pub str_leb : String → String → Bool
str_leb s t = is_le (compare_text s t)

swapped : (s t : String) → str_leb s t ≡ false → compare_text t s ≡ Ordering.lt
swapped String.[] String.[] h = cc (h, compare.nil-nil)
swapped String.[] (String.◌∷◌ d t) h = ground (arith, compare.nil-cons d t)
swapped (String.◌∷◌ c s) String.[] h = ground (arith, compare.nil-cons c s)
swapped (String.◌∷◌ c s) (String.◌∷◌ d t) h =
    ground (arith, swapped s t, compare.cons-cons c d s t, compare.cons-cons d c t s)

pub str_leb_total : (s t : String) → str_leb s t ≡ false → str_leb t s ≡ true
str_leb_total s t h = rw (swapped s t h)

pub str_leb_trans : (s t u : String) → str_leb s t ≡ true → str_leb t u ≡ true → str_leb s u ≡ true
str_leb_trans String.[] t String.[] h k = ground (arith, compare.nil-nil)
str_leb_trans String.[] t (String.◌∷◌ e u) h k = ground (arith, compare.nil-cons e u)
str_leb_trans (String.◌∷◌ c s) String.[] u h k = ground (arith, compare.cons-nil c s)
str_leb_trans (String.◌∷◌ c s) (String.◌∷◌ d t) String.[] h k = ground (arith, compare.cons-nil d t)
str_leb_trans (String.◌∷◌ c s) (String.◌∷◌ d t) (String.◌∷◌ e u) h k = ground (
  arith,
  str_leb_trans s t u,
  compare.cons-cons c d s t,
  compare.cons-cons d e t u,
  compare.cons-cons c e s u,
)

both_le : (s t : String) → str_leb s t ≡ true → str_leb t s ≡ true → compare_text s t ≡ Ordering.eq
both_le String.[] String.[] h k = λ i. compare.nil-nil i
both_le String.[] (String.◌∷◌ d t) h k = ground (arith, compare.cons-nil d t)
both_le (String.◌∷◌ c s) String.[] h k = ground (arith, compare.cons-nil c s)
both_le (String.◌∷◌ c s) (String.◌∷◌ d t) h k =
    ground (arith, both_le s t, compare.cons-cons c d s t, compare.cons-cons d c t s)

pub str_leb_antisym : (s t : String) → str_leb s t ≡ true → str_leb t s ≡ true → s ≡ t
str_leb_antisym s t h k = path_by_compare s t (both_le s t h k)

instance abbrev pub string_order : LinearOrder String
string_order = record {
  le = str_leb;
  total = str_leb_total;
  le_trans = str_leb_trans;
  antisym = str_leb_antisym;
}
