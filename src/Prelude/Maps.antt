-- ===== src/Prelude/Maps.antt =====
-- Python's dict with texts for keys: an association list in the order of insertion. A write to a key that
-- is there keeps its place, and `pop` on a key that is not there changes nothing.
use Prim.Native.String.{String}
use mathlib.Core.Path.{◌≡◌, refl, ap, sym, ◌∙◌}
use mathlib.Core.Logic.{◌≢◌, inl, inr}
use mathlib.Core.Bool.{true}
use mathlib.Core.Option.{Option, none, some}
use mathlib.Core.List.{List, [], ◌∷◌}
use text.Mathlib.TextEquality.{eq_iff}
use nff_core.Prelude.Tests.{if◌then◌else◌, Bool-cases, ◌==◌, string_eq, eqb_refl, true≢false}

abbrev pub Dict : Type 0 → Type 0
Dict V = List (String × V)

module _ {V : Type 0} where
  unfoldable pub get : String → Dict V → Option V
  get k [] = none
  get k ((key, v) ∷ d) = let rest = get k d in if key == k then some v else rest

  unfoldable pub put : String → V → Dict V → Dict V
  put k v [] = (k, v) ∷ []
  put k v ((key, w) ∷ d) =
      let rest = put k v d in if key == k then (key, v) ∷ d else (key, w) ∷ rest

  unfoldable pub pop : String → Dict V → Dict V
  pop k [] = []
  pop k ((key, w) ∷ d) = let rest = pop k d in if key == k then rest else (key, w) ∷ rest

  unfoldable pub values : Dict V → List V
  values [] = []
  values ((key, v) ∷ d) = v ∷ values d

same_key : (a k j : String) → (a == k) ≡ true → (a == j) ≡ (k == j)
same_key a k j h = ap (λ (t : String). t == j) ((eq_iff a k).0 h)

module _ {V : Type 0} where
  pub get-put :
      (j k : String) (v : V) (d : Dict V) → get j (put k v d) ≡ (if k == j then some v else get j d)
  unfolding get put
  get-put j k v [] = refl
  get-put j k v ((a, w) ∷ d) = elim (Bool-cases (a == k)) [
    | inl e ↦ elim (Bool-cases (k == j)) [
      | inl t ↦ rw (e, t, same_key a k j e, t)
      | inr t ↦ rw (e, t, same_key a k j e, t)
    ]
    | inr e ↦ elim (Bool-cases (a == j)) [
      | inl t ↦ elim (Bool-cases (k == j)) [
        | inl u ↦
            absurd
              (true≢false (sym ((eq_iff a k).1 ((eq_iff a j).0 t ∙ sym ((eq_iff k j).0 u))) ∙ e))
        | inr u ↦ rw (e, t, u)
      ]
      | inr t ↦ rw (e, t) (get-put j k v d)
    ]
  ]

  pub get-pop : (j k : String) (d : Dict V) → get j (pop k d) ≡ (if k == j then none else get j d)
  unfolding get pop
  get-pop j k [] = elim (Bool-cases (k == j)) [ inl e ↦ rw e | inr e ↦ rw e ]
  get-pop j k ((a, w) ∷ d) = elim (Bool-cases (a == k)) [
    | inl e ↦ elim (Bool-cases (k == j)) [
      | inl t ↦ rw (e, t) (get-pop j k d ∙ rw t)
      | inr t ↦ rw (e, t, same_key a k j e, t) (get-pop j k d ∙ rw t)
    ]
    | inr e ↦ elim (Bool-cases (a == j)) [
      | inl t ↦ elim (Bool-cases (k == j)) [
        | inl u ↦
            absurd
              (true≢false (sym ((eq_iff a k).1 ((eq_iff a j).0 t ∙ sym ((eq_iff k j).0 u))) ∙ e))
        | inr u ↦ rw (e, t, u)
      ]
      | inr t ↦ rw (e, t) (get-pop j k d)
    ]
  ]

  -- Another key is left alone.
  pub get-put_ne : (j k : String) (v : V) (d : Dict V) → k ≢ j → get j (put k v d) ≡ get j d
  get-put_ne j k v d h = elim (Bool-cases (k == j)) [
    | inl e ↦ absurd (h ((eq_iff k j).0 e))
    | inr e ↦ get-put j k v d ∙ rw e
  ]

  pub get-put_self : (k : String) (v : V) (d : Dict V) → get k (put k v d) ≡ some v
  get-put_self k v d = get-put k k v d ∙ rw (eqb_refl k)
