-- ===== src/Diagnosis/Groups/Partition.antt =====
-- Every crash is in at most one group, and in the best supported one that explains it.
use nff_core.Prelude.{
  ℕ, suc, ◌≤◌, leb, Bool, true, false, not, ◌||◌, List, [], ◌∷◌, ◌++◌, String, ◌==◌, string_eq,
  if◌then◌else◌, All, All-weaken, All-among, select-All, Among, Among-select_intro, ◌≡◌, refl, sym,
  ◌∙◌, subst, inl, inr, Bool-cases, arith, eq_iff, leb→le, any-elim,
}
use nff_core.Diagnosis.Cluster.{TimelineEntry}
use nff_core.Diagnosis.Groups.{
  Hypothesis, DeviceGroup, is_member, is_validated, insert_strongest, strongest_first, group_of,
  open_members, is_nothing, collect, build_groups,
}

-- No crash of a group is in a later one.
abbrev pub AreDisjoint : List DeviceGroup → Type 0
AreDisjoint [] = Unit
AreDisjoint (g ∷ gs) =
    All
      (λ (h : DeviceGroup).
        All (λ (c : String). is_member c g.member_crash_ids ≡ false) h.member_crash_ids)
      gs
    × AreDisjoint gs

-- The crash is in a group at least as well supported as the hypothesis.
abbrev pub IsExplained : String → ℕ → List DeviceGroup → Type 0
IsExplained c confidence gs =
    (g : DeviceGroup) × Among g gs × Among c g.member_crash_ids × (confidence ≤ g.confidence)

member_append :
    (c : String) (xs ys : List String) → is_member c (xs ++ ys) ≡ (is_member c xs || is_member c ys)
member_append c [] ys = refl
member_append c (x ∷ xs) ys = ground (arith, member_append c xs ys)

unclaimed :
    (h : Hypothesis) (claimed : List String)
    → All (λ (c : String). is_member c claimed ≡ false) (open_members h claimed)
unfolding open_members
unclaimed h claimed = elim (Bool-cases (is_validated h.status)) [
  | inr e ↦ rw e tt
  | inl e ↦ rw e (
      All-weaken _ (λ (c : String) (q : not (is_member c claimed) ≡ true). ground arith)
        (select-All (λ (c : String). not (is_member c claimed)) h.matching_crashers))
]

module _ (timeline : List TimelineEntry) where
  Fresh : List String → DeviceGroup → Type 0
  Fresh claimed g = All (λ (c : String). is_member c claimed ≡ false) g.member_crash_ids

  later_fresh :
      (members claimed : List String) (gs : List DeviceGroup)
      → All (Fresh (members ++ claimed)) gs
      → All (Fresh claimed) gs × All (Fresh members) gs
  unfolding Fresh
  later_fresh members claimed gs h = (
    All-weaken gs
        (λ (g : DeviceGroup) q.
          All-weaken g.member_crash_ids
            (λ (c : String) (r : is_member c (members ++ claimed) ≡ false).
              ground (arith, member_append c members claimed))
            q)
        h,
    All-weaken gs
        (λ (g : DeviceGroup) q.
          All-weaken g.member_crash_ids
            (λ (c : String) (r : is_member c (members ++ claimed) ≡ false).
              ground (arith, member_append c members claimed))
            q)
        h,
  )

  collect-Fresh :
      (number : ℕ) (claimed : List String) (hs : List Hypothesis)
      → All (Fresh claimed) (collect timeline number claimed hs)
        × AreDisjoint (collect timeline number claimed hs)
  unfolding collect Fresh group_of
  collect-Fresh number claimed [] = (tt, tt)
  collect-Fresh number claimed (h ∷ hs) =
      let members = open_members h claimed in
      elim (Bool-cases (is_nothing members)) [
        | inl e ↦ rw e (
            let ih = collect-Fresh number (members ++ claimed) hs in
            ((later_fresh members claimed _ ih.0).0, ih.1))
        | inr e ↦ rw e (
            let ih = collect-Fresh (suc number) (members ++ claimed) hs in
            let (of_claimed, of_members) = later_fresh members claimed _ ih.0 in
            ((unclaimed h claimed, of_claimed), (of_members, ih.1)))
      ]

  -- Whatever the hypotheses claim, no crash is in two groups.
  pub build_groups-AreDisjoint : (hyps : List Hypothesis) → AreDisjoint (build_groups hyps timeline)
  unfolding build_groups
  build_groups-AreDisjoint hyps = (collect-Fresh 0 [] (strongest_first hyps)).1

abbrev IsDescending : List Hypothesis → Type 0
IsDescending [] = Unit
IsDescending (h ∷ hs) = All (λ (k : Hypothesis). k.confidence ≤ h.confidence) hs × IsDescending hs

All-inserted :
    (bound : ℕ) (h : Hypothesis) (hs : List Hypothesis)
    → h.confidence ≤ bound
    → All (λ (k : Hypothesis). k.confidence ≤ bound) hs
    → All (λ (k : Hypothesis). k.confidence ≤ bound) (insert_strongest h hs)
unfolding insert_strongest
All-inserted bound h [] p q = (p, tt)
All-inserted bound h (k ∷ ks) p q = elim (Bool-cases (leb k.confidence h.confidence)) [
  | inl e ↦ rw e (p, q)
  | inr e ↦ rw e (q.0, All-inserted bound h ks p q.1)
]

insert-IsDescending :
    (h : Hypothesis) (hs : List Hypothesis) → IsDescending hs → IsDescending (insert_strongest h hs)
unfolding insert_strongest
insert-IsDescending h [] d = (tt, tt)
insert-IsDescending h (k ∷ ks) d = elim (Bool-cases (leb k.confidence h.confidence)) [
  | inl e ↦
      let le : k.confidence ≤ h.confidence = leb→le k.confidence h.confidence e in
      rw e (
        (le, All-weaken ks (λ (x : Hypothesis) (q : x.confidence ≤ k.confidence). omega arith) d.0),
        d,
      )
  | inr e ↦ rw e (All-inserted k.confidence h ks (ground arith) d.0, insert-IsDescending h ks d.1)
]

strongest_first-IsDescending : (hs : List Hypothesis) → IsDescending (strongest_first hs)
unfolding strongest_first
strongest_first-IsDescending [] = tt
strongest_first-IsDescending (h ∷ hs) =
    insert-IsDescending h (strongest_first hs) (strongest_first-IsDescending hs)

Among-inserted :
    (x h : Hypothesis) (hs : List Hypothesis) → Among x (h ∷ hs) → Among x (insert_strongest h hs)
unfolding insert_strongest
Among-inserted x h [] m = m
Among-inserted x h (k ∷ ks) m = elim (Bool-cases (leb k.confidence h.confidence)) [
  | inl e ↦ rw e m
  | inr e ↦ rw e (elim m [
    | inl here ↦ inr (Among-inserted x h ks (inl here))
    | inr later ↦ elim later [
      | inl at_k ↦ inl at_k
      | inr in_ks ↦ inr (Among-inserted x h ks (inr in_ks))
    ]
  ])
]

Among-strongest_first :
    (x : Hypothesis) (hs : List Hypothesis) → Among x hs → Among x (strongest_first hs)
unfolding strongest_first
Among-strongest_first x [] m = m
Among-strongest_first x (h ∷ hs) (inl e) = Among-inserted x h (strongest_first hs) (inl e)
Among-strongest_first x (h ∷ hs) (inr m) =
    Among-inserted x h (strongest_first hs) (inr (Among-strongest_first x hs m))

Among-member : (c : String) (xs : List String) → is_member c xs ≡ true → Among c xs
Among-member c xs h =
    let (d, m, e) = any-elim (λ (d : String). d == c) xs h in
    subst (λ k. Among k xs) ((eq_iff d c).0 e) m

Among-nothing : (c : String) (xs : List String) → is_nothing xs ≡ true → Among c xs → ⊥
unfolding is_nothing
Among-nothing c [] h m = m
Among-nothing c (x ∷ xs) h m = cc

module _ (timeline : List TimelineEntry) (x : Hypothesis) (c : String)
    (is : is_validated x.status ≡ true) (matches : Among c x.matching_crashers) where
  IsExplained-here :
      (number : ℕ) (h : Hypothesis) (members : List String) (later : List DeviceGroup)
      → Among c members
      → x.confidence ≤ h.confidence
      → IsExplained c x.confidence
          (if is_nothing members then later else group_of number h members timeline ∷ later)
  unfolding group_of
  IsExplained-here number h members later m le = elim (Bool-cases (is_nothing members)) [
    | inl e ↦ absurd (Among-nothing c members e m)
    | inr e ↦ rw e (group_of number h members timeline, inl refl, m, le)
  ]

  IsExplained-later :
      (b : Bool) (g : DeviceGroup) (later : List DeviceGroup)
      → IsExplained c x.confidence later
      → IsExplained c x.confidence (if b then later else g ∷ later)
  IsExplained-later true g later h = h
  IsExplained-later false g later (k, m, among, le) = (k, inr m, among, le)

  own_members :
      (h : Hypothesis) (claimed : List String)
      → h ≡ x
      → is_member c claimed ≡ false
      → Among c (open_members h claimed)
  unfolding open_members
  own_members h claimed e free =
      subst (λ k. Among c (open_members k claimed)) (sym e)
        (rw is (
          Among-select_intro (λ (c : String). not (is_member c claimed)) x.matching_crashers c
            matches (rw free refl)))

  collect-IsExplained :
      (number : ℕ) (claimed : List String) (hs : List Hypothesis)
      → IsDescending hs
      → Among x hs
      → is_member c claimed ≡ false
      → IsExplained c x.confidence (collect timeline number claimed hs)
  unfolding collect group_of
  collect-IsExplained number claimed [] d m free = absurd m
  collect-IsExplained number claimed (h ∷ hs) d (inl e) free =
      IsExplained-here number h (open_members h claimed) _ (own_members h claimed e free)
        (subst (λ (k : Hypothesis). x.confidence ≤ k.confidence) (sym e) (omega arith))
  collect-IsExplained number claimed (h ∷ hs) d (inr m) free =
      let members = open_members h claimed in
      elim (Bool-cases (is_member c members)) [
        | inl e ↦
            IsExplained-here number h members _ (Among-member c members e)
              (All-among (λ (k : Hypothesis). k.confidence ≤ h.confidence) hs x d.0 m)
        | inr e ↦ IsExplained-later (is_nothing members) (group_of number h members timeline) _ (
            collect-IsExplained (if is_nothing members then number else suc number)
              (members ++ claimed) hs d.1 m (member_append c members claimed ∙ rw e free))
      ]

  -- Every crash that a validated hypothesis matches is in a group, one whose hypothesis has at least the same
  -- confidence.
  pub build_groups-IsExplained :
      (hyps : List Hypothesis)
      → Among x hyps
      → IsExplained c x.confidence (build_groups hyps timeline)
  unfolding build_groups
  build_groups-IsExplained hyps m =
      collect-IsExplained 0 [] (strongest_first hyps) (strongest_first-IsDescending hyps)
        (Among-strongest_first x hyps m) refl
