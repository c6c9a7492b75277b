-- ===== src/Diagnosis/Cluster.antt =====
-- Crashes that happened together, nff_diagnosis/correlation/cluster.py, and the entries of the timeline that it
-- groups. Times and the window are in microseconds; a cluster's id is its number.
pub mod Runs
use nff_core.Prelude.{
  ℕ, suc, ◌+◌, ltb, leb, Bool, true, false, Option, none, some, List, [], ◌∷◌, ◌++◌, map, length,
  String, if◌then◌else◌,
}

pub record TimelineEntry : Type 0 where
  pub crash_id : String
  pub device_id : Option String
  pub firmware_version : Option String
  pub received_at : ℕ
  pub crash_class : Option String

pub record TemporalCluster : Type 0 where
  pub number : ℕ
  pub start : ℕ
  pub end : ℕ
  pub size : ℕ
  pub crash_ids : List String

insert_by_time : TimelineEntry → List TimelineEntry → List TimelineEntry
insert_by_time e [] = e ∷ []
insert_by_time e (f ∷ fs) =
    let rest = insert_by_time e fs in
    if leb e.received_at f.received_at then e ∷ f ∷ fs else f ∷ rest

-- `sorted(entries, key=lambda e: e.received_at)`, which keeps the order of entries of one time
unfoldable pub by_time : List TimelineEntry → List TimelineEntry
unfolding insert_by_time
by_time [] = []
by_time (e ∷ es) = insert_by_time e (by_time es)

unfoldable pub start_of : List TimelineEntry → ℕ
start_of [] = 0
start_of (e ∷ es) = e.received_at

unfoldable pub end_of : List TimelineEntry → ℕ
end_of [] = 0
end_of (e ∷ []) = e.received_at
end_of (e ∷ f ∷ es) = end_of (f ∷ es)

unfoldable pub cluster_of : ℕ → List TimelineEntry → TemporalCluster
unfolding start_of end_of
cluster_of number group = record {
  number = number;
  start = start_of group;
  end = end_of group;
  size = length group;
  crash_ids = map (λ (e : TimelineEntry). e.crash_id) group;
}

flush : List TimelineEntry → List TemporalCluster → List TemporalCluster
unfolding cluster_of
flush [] clusters = clusters
flush (e ∷ group) clusters = clusters ++ cluster_of (length clusters) (e ∷ group) ∷ []

-- The gap from the last crash of the current cluster is over the window.
starts_new : ℕ → List TimelineEntry → TimelineEntry → Bool
unfolding end_of
starts_new window [] e = false
starts_new window (c ∷ current) e = ltb (end_of (c ∷ current) + window) e.received_at

walk : ℕ → List TimelineEntry → List TimelineEntry → List TemporalCluster → List TemporalCluster
unfolding flush starts_new
walk window [] current clusters = flush current clusters
walk window (e ∷ es) current clusters =
    let new = starts_new window current e in
    walk window es (if new then e ∷ [] else current ++ e ∷ [])
      (if new then flush current clusters else clusters)

unfoldable pub cluster_by_time : ℕ → List TimelineEntry → List TemporalCluster
unfolding walk
cluster_by_time window entries = walk window (by_time entries) [] []
