-- ===== src/Diagnosis/Cluster/Runs.antt =====
-- Clusters are the runs of crashes with no gap over the window.
use nff_core.Prelude.{
  ℕ, suc, ◌+◌, ◌≤◌, ◌<◌, leb, Bool, true, false, List, [], ◌∷◌, ◌++◌, length, if◌then◌else◌, All,
  ◌≡◌, refl, sym, ap, ◌∙◌, subst, Bool-cases, inl, inr, arith, append_assoc, leb→le, All-weaken,
  count,
}
use nff_core.Diagnosis.Cluster.{
  TimelineEntry, TemporalCluster, insert_by_time, by_time, start_of, end_of, cluster_of, flush,
  starts_new, walk, cluster_by_time,
}

-- The clusters of some groups, numbered in order
abbrev pub numbered : ℕ → List (List TimelineEntry) → List TemporalCluster
numbered n [] = []
numbered n (g ∷ gs) = cluster_of n g ∷ numbered (suc n) gs

abbrev pub concat : List (List TimelineEntry) → List TimelineEntry
concat [] = []
concat (g ∷ gs) = g ++ concat gs

-- At least one crash, and none later than the window after the one before it
abbrev pub IsClose : ℕ → List TimelineEntry → Type 0
IsClose window [] = ⊥
IsClose window (e ∷ []) = Unit
IsClose window (e ∷ f ∷ es) = (f.received_at ≤ e.received_at + window) × IsClose window (f ∷ es)

-- Each group starts later than the window after the end of the one before it.
abbrev pub AreApart : ℕ → List (List TimelineEntry) → Type 0
AreApart window [] = Unit
AreApart window (g ∷ []) = Unit
AreApart window (g ∷ h ∷ gs) = (end_of g + window < start_of h) × AreApart window (h ∷ gs)

-- In the order of time
abbrev pub IsChronological : List TimelineEntry → Type 0
IsChronological [] = Unit
IsChronological (e ∷ es) =
    All (λ (f : TimelineEntry). e.received_at ≤ f.received_at) es × IsChronological es

groups : ℕ → List TimelineEntry → List TimelineEntry → List (List TimelineEntry)
groups window current [] = current ∷ []
groups window current (e ∷ es) =
    let new = starts_new window current e in
    let rest = groups window (if new then e ∷ [] else current ++ e ∷ []) es in
    if new then current ∷ rest else rest

length_snoc :
    (xs : List TemporalCluster) (x : TemporalCluster) → length (xs ++ x ∷ []) ≡ suc (length xs)
length_snoc [] x = refl
length_snoc (y ∷ ys) x = ap suc (length_snoc ys x)

walk-groups :
    (window : ℕ) (es : List TimelineEntry) (c : TimelineEntry) (current : List TimelineEntry)
    (clusters : List TemporalCluster)
    → walk window es (c ∷ current) clusters
      ≡ clusters ++ numbered (length clusters) (groups window (c ∷ current) es)
unfolding walk groups flush
walk-groups window [] c current clusters = refl
walk-groups window (e ∷ es) c current clusters =
    elim (Bool-cases (starts_new window (c ∷ current) e)) [
      | inl t ↦
          let closed = cluster_of (length clusters) (c ∷ current) in
          rw t (
            walk-groups window es e [] (clusters ++ closed ∷ [])
            ∙ rw (length_snoc clusters closed) (append_assoc clusters (closed ∷ []) _))
      | inr t ↦ rw t (walk-groups window es c (current ++ e ∷ []) clusters)
    ]

concat-groups :
    (window : ℕ) (current es : List TimelineEntry)
    → concat (groups window current es) ≡ current ++ es
unfolding groups
concat-groups window current [] = refl
concat-groups window current (e ∷ es) = elim (Bool-cases (starts_new window current e)) [
  | inl t ↦ rw t (ap (λ l. current ++ l) (concat-groups window (e ∷ []) es))
  | inr t ↦ rw t (concat-groups window (current ++ e ∷ []) es ∙ append_assoc current (e ∷ []) es)
]

IsClose-append :
    (window : ℕ) (c : TimelineEntry) (cs : List TimelineEntry) (e : TimelineEntry)
    → IsClose window (c ∷ cs)
    → e.received_at ≤ end_of (c ∷ cs) + window
    → IsClose window (c ∷ cs ++ e ∷ [])
unfolding end_of
IsClose-append window c [] e h k = (k, tt)
IsClose-append window c (d ∷ cs) e h k = (h.0, IsClose-append window d cs e h.1 k)

near :
    (window : ℕ) (c : TimelineEntry) (cs : List TimelineEntry) (e : TimelineEntry)
    → starts_new window (c ∷ cs) e ≡ false
    → e.received_at ≤ end_of (c ∷ cs) + window
unfolding starts_new
near window c cs e h = ground arith

far :
    (window : ℕ) (c : TimelineEntry) (cs : List TimelineEntry) (e : TimelineEntry)
    → starts_new window (c ∷ cs) e ≡ true
    → end_of (c ∷ cs) + window < e.received_at
unfolding starts_new
far window c cs e h = ground arith

groups-IsClose :
    (window : ℕ) (c : TimelineEntry) (cs es : List TimelineEntry)
    → IsClose window (c ∷ cs)
    → All (IsClose window) (groups window (c ∷ cs) es)
unfolding groups
groups-IsClose window c cs [] h = (h, tt)
groups-IsClose window c cs (e ∷ es) h = elim (Bool-cases (starts_new window (c ∷ cs) e)) [
  | inl t ↦ rw t (h, groups-IsClose window e [] es tt)
  | inr t ↦ rw t (
      groups-IsClose window c (cs ++ e ∷ []) es
        (IsClose-append window c cs e h (near window c cs e t)))
]

first_group :
    (window : ℕ) (c : TimelineEntry) (cs es : List TimelineEntry)
    → (g : List TimelineEntry) × (gs : List (List TimelineEntry)) × (groups window (c ∷ cs) es
        ≡ (c ∷ g) ∷ gs)
unfolding groups
first_group window c cs [] = (cs, [], refl)
first_group window c cs (e ∷ es) = elim (Bool-cases (starts_new window (c ∷ cs) e)) [
  | inl t ↦ rw t (cs, groups window (e ∷ []) es, refl)
  | inr t ↦ rw t (first_group window c (cs ++ e ∷ []) es)
]

groups-AreApart :
    (window : ℕ) (c : TimelineEntry) (cs es : List TimelineEntry)
    → AreApart window (groups window (c ∷ cs) es)
unfolding groups start_of
groups-AreApart window c cs [] = tt
groups-AreApart window c cs (e ∷ es) = elim (Bool-cases (starts_new window (c ∷ cs) e)) [
  | inl t ↦
      let (g, gs, same) = first_group window e [] es in
      rw t (
        subst (λ l. AreApart window ((c ∷ cs) ∷ l)) (sym same)
          (far window c cs e t, subst (AreApart window) same (groups-AreApart window e [] es)))
  | inr t ↦ rw t (groups-AreApart window c (cs ++ e ∷ []) es)
]

All-insert :
    (a : ℕ) (e : TimelineEntry) (es : List TimelineEntry)
    → a ≤ e.received_at
    → All (λ (f : TimelineEntry). a ≤ f.received_at) es
    → All (λ (f : TimelineEntry). a ≤ f.received_at) (insert_by_time e es)
unfolding insert_by_time
All-insert a e [] h k = (h, tt)
All-insert a e (f ∷ fs) h k = elim (Bool-cases (leb e.received_at f.received_at)) [
  | inl t ↦ rw t (h, k)
  | inr t ↦ rw t (k.0, All-insert a e fs h k.1)
]

insert-IsChronological :
    (e : TimelineEntry) (es : List TimelineEntry)
    → IsChronological es
    → IsChronological (insert_by_time e es)
unfolding insert_by_time
insert-IsChronological e [] h = (tt, tt)
insert-IsChronological e (f ∷ fs) h = elim (Bool-cases (leb e.received_at f.received_at)) [
  | inl t ↦
      let le : e.received_at ≤ f.received_at = leb→le e.received_at f.received_at t in
      rw t (
        (
          le,
          All-weaken fs (λ (x : TimelineEntry) (q : f.received_at ≤ x.received_at). omega arith)
              h.0,
        ),
        h,
      )
  | inr t ↦ rw t (All-insert f.received_at e fs (ground arith) h.0, insert-IsChronological e fs h.1)
]

by_time-IsChronological : (es : List TimelineEntry) → IsChronological (by_time es)
unfolding by_time
by_time-IsChronological [] = tt
by_time-IsChronological (e ∷ es) =
    insert-IsChronological e (by_time es) (by_time-IsChronological es)

count-insert :
    (p : TimelineEntry → Bool) (e : TimelineEntry) (es : List TimelineEntry)
    → count p (insert_by_time e es) ≡ count p (e ∷ es)
unfolding insert_by_time
count-insert p e [] = refl
count-insert p e (f ∷ fs) = ground (arith, count-insert p e fs)

count-by_time :
    (p : TimelineEntry → Bool) (es : List TimelineEntry) → count p (by_time es) ≡ count p es
unfolding by_time
count-by_time p [] = refl
count-by_time p (e ∷ es) = ground (arith, count-insert p e (by_time es), count-by_time p es)

-- A timeline's clusters, in order and numbered: groups that make up the whole timeline in the order of time,
-- each with gaps of at most the window, and each later than the one before it by more than the window.
pub record IsClustering (window : ℕ) (entries : List TimelineEntry)
    (clusters : List TemporalCluster) : Type 0 where
  pub parts : List (List TimelineEntry)
  pub are_parts : clusters ≡ numbered 0 parts
  pub ordered : IsChronological (concat parts)
  pub complete : (p : TimelineEntry → Bool) → count p (concat parts) ≡ count p entries
  pub close : All (IsClose window) parts
  pub apart : AreApart window parts

walk-IsClustering :
    (window : ℕ) (entries ordered : List TimelineEntry)
    → IsChronological ordered
    → ((p : TimelineEntry → Bool) → count p ordered ≡ count p entries)
    → IsClustering window entries (walk window ordered [] [])
unfolding walk starts_new flush
walk-IsClustering window entries [] h k = record {
  parts = [];
  are_parts = refl;
  ordered = tt;
  complete = k;
  close = tt;
  apart = tt;
}
walk-IsClustering window entries (e ∷ es) h k = record {
  parts = groups window (e ∷ []) es;
  are_parts = walk-groups window es e [] [];
  ordered = subst IsChronological (sym (concat-groups window (e ∷ []) es)) h;
  complete = λ p. ap (count p) (concat-groups window (e ∷ []) es) ∙ k p;
  close = groups-IsClose window e [] es tt;
  apart = groups-AreApart window e [] es;
}

-- The clusters of a timeline are its crashes in the order of time, split exactly at the gaps over the window.
pub cluster_by_time-IsClustering :
    (window : ℕ) (entries : List TimelineEntry)
    → IsClustering window entries (cluster_by_time window entries)
unfolding cluster_by_time
cluster_by_time-IsClustering window entries =
    walk-IsClustering window entries (by_time entries) (by_time-IsChronological entries)
      (λ p. count-by_time p entries)
