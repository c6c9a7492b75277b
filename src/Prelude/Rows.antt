-- ===== src/Prelude/Rows.antt =====
-- Tables: rows in order, updated where a filter holds, compared row by row, found by a key.
use Prim.Native.String.{String}
use mathlib.Core.Path.{◌≡◌, refl, ap, subst, sym, ◌∙◌}
use mathlib.Core.Logic.{◌⊎◌, ◌≢◌, inl, inr}
use mathlib.Core.Bool.{Bool, true, false}
use mathlib.Core.Option.{Option, none, some}
use mathlib.Core.List.{List, [], ◌∷◌, ◌++◌, map}
use text.Mathlib.TextEquality.{eq_iff}
use nff_core.Prelude.Tests.{true≢false, if◌then◌else◌, Bool-cases, ◌==◌, string_eq}
use nff_core.Prelude.Lists.{Distinct, select, any, all, find, All, some_inj, none≢some}

module _ {A : Type 0} where
  -- Two lists of one length, related row by row.
  abbrev pub AllZip : (A → A → Type 0) → List A → List A → Type 0
  AllZip R [] [] = Unit
  AllZip R [] (y ∷ ys) = ⊥
  AllZip R (x ∷ xs) [] = ⊥
  AllZip R (x ∷ xs) (y ∷ ys) = R x y × AllZip R xs ys

  -- `x` stands in the list.
  abbrev pub Among : A → List A → Type 0
  Among x [] = ⊥
  Among x (y ∷ ys) = (y ≡ x) ⊎ Among x ys

module _ {A : Type 0} where
  pub AllZip-refl : (R : A → A → Type 0) (xs : List A) → ((x : A) → R x x) → AllZip R xs xs
  AllZip-refl R [] r = tt
  AllZip-refl R (x ∷ xs) r = (r x, AllZip-refl R xs r)

  pub AllZip-compose :
      (R S T : A → A → Type 0) (xs ys zs : List A)
      → ((x y z : A) → R x y → S y z → T x z)
      → AllZip R xs ys
      → AllZip S ys zs
      → AllZip T xs zs
  AllZip-compose R S T [] [] [] t h k = tt
  AllZip-compose R S T [] [] (z ∷ zs) t h k = absurd k
  AllZip-compose R S T [] (y ∷ ys) zs t h k = absurd h
  AllZip-compose R S T (x ∷ xs) [] zs t h k = absurd h
  AllZip-compose R S T (x ∷ xs) (y ∷ ys) [] t h k = absurd k
  AllZip-compose R S T (x ∷ xs) (y ∷ ys) (z ∷ zs) t h k =
      (t x y z h.0 k.0, AllZip-compose R S T xs ys zs t h.1 k.1)

  pub AllZip-weaken :
      (Q : A → Type 0) (R S : A → A → Type 0) (xs ys : List A)
      → All Q xs
      → ((x y : A) → Q x → R x y → S x y)
      → AllZip R xs ys
      → AllZip S xs ys
  AllZip-weaken Q R S [] [] q f h = tt
  AllZip-weaken Q R S [] (y ∷ ys) q f h = absurd h
  AllZip-weaken Q R S (x ∷ xs) [] q f h = absurd h
  AllZip-weaken Q R S (x ∷ xs) (y ∷ ys) q f h = (f x y q.0 h.0, AllZip-weaken Q R S xs ys q.1 f h.1)

  pub All-rows : (P : A → Type 0) (xs : List A) → ((x : A) → Among x xs → P x) → All P xs
  All-rows P [] h = tt
  All-rows P (x ∷ xs) h = (h x (inl refl), All-rows P xs (λ y m. h y (inr m)))

  -- `.update(…)` on the rows that the filters leave
  abbrev pub update_where : (A → Bool) → (A → A) → List A → List A
  update_where p f [] = []
  update_where p f (x ∷ xs) = (if p x then f x else x) ∷ update_where p f xs

  pub AllZip-update_where :
      (R : A → A → Type 0) (p : A → Bool) (f : A → A) (xs : List A)
      → ((x : A) → R x x)
      → All (λ x. p x ≡ true → R x (f x)) xs
      → AllZip R xs (update_where p f xs)
  AllZip-update_where R p f [] r h = tt
  AllZip-update_where R p f (x ∷ xs) r h = (
    elim (Bool-cases (p x)) [ inl e ↦ rw e (h.0 e) | inr e ↦ rw e (r x) ],
    AllZip-update_where R p f xs r h.1,
  )

  abbrev pub updated : (A → Bool) → (A → A) → Option A → Option A
  updated p f none = none
  updated p f (some x) = some (if p x then f x else x)

  -- A look-up by what the update leaves alone finds the updated row.
  pub find-update_where :
      (q p : A → Bool) (f : A → A) (xs : List A)
      → ((x : A) → q (f x) ≡ q x)
      → find q (update_where p f xs) ≡ updated p f (find q xs)
  find-update_where q p f [] h = refl
  find-update_where q p f (x ∷ xs) h = elim (Bool-cases (p x)) [
    | inl e ↦ elim (Bool-cases (q x)) [
      | inl t ↦ rw (e, h x, t, e)
      | inr t ↦ rw (e, h x, t) (find-update_where q p f xs h)
    ]
    | inr e ↦ elim (Bool-cases (q x)) [
      | inl t ↦ rw (e, t, e)
      | inr t ↦ rw (e, t) (find-update_where q p f xs h)
    ]
  ]

  pub any-Among : (p : A → Bool) (xs : List A) (x : A) → Among x xs → p x ≡ true → any p xs ≡ true
  any-Among p [] x m t = absurd m
  any-Among p (y ∷ ys) x (inl e) t = rw (e, t)
  any-Among p (y ∷ ys) x (inr m) t = elim (Bool-cases (p y)) [
    | inl e ↦ rw e
    | inr e ↦ rw e (any-Among p ys x m t)
  ]

  pub all-Among : (p : A → Bool) (xs : List A) (x : A) → Among x xs → p x ≡ false → all p xs ≡ false
  all-Among p [] x m t = absurd m
  all-Among p (y ∷ ys) x (inl e) t = rw (e, t)
  all-Among p (y ∷ ys) x (inr m) t = elim (Bool-cases (p y)) [
    | inl e ↦ rw e (all-Among p ys x m t)
    | inr e ↦ rw e
  ]

  -- After an update that leaves its own filter, no row passes the filter.
  pub any-update_where :
      (p : A → Bool) (f : A → A) (xs : List A)
      → ((x : A) → p x ≡ true → p (f x) ≡ false)
      → any p (update_where p f xs) ≡ false
  any-update_where p f [] h = refl
  any-update_where p f (x ∷ xs) h = elim (Bool-cases (p x)) [
    | inl e ↦ rw (e, h x e) (any-update_where p f xs h)
    | inr e ↦ rw (e, e) (any-update_where p f xs h)
  ]

  pub Among-select_intro :
      (p : A → Bool) (xs : List A) (x : A) → Among x xs → p x ≡ true → Among x (select p xs)
  Among-select_intro p [] x m t = absurd m
  Among-select_intro p (y ∷ ys) x (inl e) t = rw (subst (λ z. p z ≡ true) (sym e) t) (inl e)
  Among-select_intro p (y ∷ ys) x (inr m) t = elim (Bool-cases (p y)) [
    | inl e ↦ rw e (inr (Among-select_intro p ys x m t))
    | inr e ↦ rw e (Among-select_intro p ys x m t)
  ]

  pub All-of {κ} : (P : A → Type κ) (xs : List A) → ((x : A) → P x) → All P xs
  All-of P [] h = tt
  All-of P (x ∷ xs) h = (h x, All-of P xs h)

  pub All-among : (P : A → Type 0) (xs : List A) (x : A) → All P xs → Among x xs → P x
  All-among P [] x h m = absurd m
  All-among P (y ∷ ys) x h (inl e) = subst P e h.0
  All-among P (y ∷ ys) x h (inr m) = All-among P ys x h.1 m

  pub find-Among :
      (p : A → Bool) (xs : List A) (x : A) → find p xs ≡ some x → Among x xs × (p x ≡ true)
  find-Among p [] x h = absurd (none≢some h)
  find-Among p (y ∷ ys) x h = elim (Bool-cases (p y)) [
    | inl e ↦ let same : y ≡ x = some_inj (rw e at h) in (inl same, subst (λ z. p z ≡ true) same e)
    | inr e ↦ let (m, t) = find-Among p ys x (rw e at h) in (inr m, t)
  ]

  pub select-All : (p : A → Bool) (xs : List A) → All (λ x. p x ≡ true) (select p xs)
  select-All p [] = tt
  select-All p (x ∷ xs) = elim (Bool-cases (p x)) [
    | inl e ↦ rw e (e, select-All p xs)
    | inr e ↦ rw e (select-All p xs)
  ]

  pub Among-select :
      (p : A → Bool) (xs : List A) (x : A) → Among x (select p xs) → Among x xs × (p x ≡ true)
  Among-select p [] x m = absurd m
  Among-select p (y ∷ ys) x m = elim (Bool-cases (p y)) [
    | inl e ↦ elim (rw e at m) [
      | inl same ↦ (inl same, subst (λ z. p z ≡ true) same e)
      | inr later ↦ let (a, t) = Among-select p ys x later in (inr a, t)
    ]
    | inr e ↦ let (a, t) = Among-select p ys x (rw e at m) in (inr a, t)
  ]

module _ {A : Type 0} where
  pub Among-append : (xs ys : List A) (x : A) → Among x (xs ++ ys) → Among x xs ⊎ Among x ys
  Among-append [] ys x m = inr m
  Among-append (y ∷ xs) ys x (inl e) = inl (inl e)
  Among-append (y ∷ xs) ys x (inr m) = elim (Among-append xs ys x m) [
    | inl h ↦ inl (inr h)
    | inr h ↦ inr h
  ]

  pub any-elim :
      (p : A → Bool) (xs : List A) → any p xs ≡ true → (x : A) × Among x xs × (p x ≡ true)
  any-elim p [] h = absurd (true≢false (sym h))
  any-elim p (x ∷ xs) h = elim (Bool-cases (p x)) [
    | inl e ↦ (x, inl refl, e)
    | inr e ↦ let (y, m, t) = any-elim p xs (rw e at h) in (y, inr m, t)
  ]

  pub any-none : (p : A → Bool) (xs : List A) → All (λ x. p x ≡ false) xs → any p xs ≡ false
  any-none p [] h = refl
  any-none p (x ∷ xs) h = rw h.0 (any-none p xs h.1)

  pub map-id : (xs : List A) → map (λ (x : A). x) xs ≡ xs
  map-id [] = refl
  map-id (x ∷ xs) = ap (λ l. x ∷ l) (map-id xs)

  pub map-rows : (f g : A → A) (xs : List A) → All (λ x. f x ≡ g x) xs → map f xs ≡ map g xs
  map-rows f g [] h = refl
  map-rows f g (x ∷ xs) h = rw (h.0, map-rows f g xs h.1)

  pub map-update_where :
      (g : A → A) (p : A → Bool) (f : A → A) (xs : List A)
      → map g (update_where p f xs) ≡ map (λ x. g (if p x then f x else x)) xs
  map-update_where g p f [] = refl
  map-update_where g p f (x ∷ xs) =
      ap (λ l. g (if p x then f x else x) ∷ l) (map-update_where g p f xs)

  pub AllZip-map :
      (R : A → A → Type 0) (f : A → A) (xs : List A)
      → ((x : A) → R x (f x))
      → AllZip R xs (map f xs)
  AllZip-map R f [] h = tt
  AllZip-map R f (x ∷ xs) h = (h x, AllZip-map R f xs h)

module _ {A B : Type 0} where
  pub Among-map_elim :
      (f : A → B) (xs : List A) (y : B) → Among y (map f xs) → (x : A) × Among x xs × (y ≡ f x)
  Among-map_elim f [] y m = absurd m
  Among-map_elim f (x ∷ xs) y (inl e) = (x, inl refl, sym e)
  Among-map_elim f (x ∷ xs) y (inr m) = let (z, h, e) = Among-map_elim f xs y m in (z, inr h, e)

module _ {A : Type 0} (key : A → String) where
  Among-map : (x : A) (xs : List A) → Among x xs → Among (key x) (map key xs)
  Among-map x [] m = absurd m
  Among-map x (y ∷ ys) (inl e) = inl (ap key e)
  Among-map x (y ∷ ys) (inr m) = inr (Among-map x ys m)

  others :
      (x : A) (k : String) (ys : List A)
      → k ≡ key x
      → All (λ n. k ≢ n) (map key ys)
      → All (λ z. (key z == key x) ≡ true → z ≡ x) ys
  others x k [] e h = tt
  others x k (z ∷ zs) e h =
      (λ t. absurd (h.0 (e ∙ sym ((eq_iff (key z) (key x)).0 t))), others x k zs e h.1)

  -- With distinct keys, the row with the key of `x` is `x`.
  pub unique_row :
      (x : A) (xs : List A)
      → Distinct (map key xs)
      → Among x xs
      → All (λ y. (key y == key x) ≡ true → y ≡ x) xs
  unique_row x [] d m = tt
  unique_row x (y ∷ ys) d (inl e) = (λ t. e, others x (key y) ys (ap key e) d.0)
  unique_row x (y ∷ ys) d (inr m) = (
    λ t. absurd (
        All-among (λ n. key y ≢ n) (map key ys) (key x) d.0 (Among-map x ys m)
          ((eq_iff (key y) (key x)).0 t)),
    unique_row x ys d.1 m,
  )
