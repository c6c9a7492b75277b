-- ===== src/Diagnosis/Examples.antt =====
-- Timelines, hypotheses and versions at concrete inputs.
use nff_core.Prelude.{ℕ, true, some, List, [], ◌∷◌, String, ◌≡◌, refl, codes, inl, inr}
use nff_core.Diagnosis.Cluster.{TimelineEntry, by_time, cluster_of, cluster_by_time}
use nff_core.Diagnosis.Cluster.Runs.{IsClustering, cluster_by_time-IsClustering}
use nff_core.Diagnosis.Groups.{Hypothesis, validated, is_validated, build_groups}
use nff_core.Diagnosis.Groups.Partition.{
  AreDisjoint, IsExplained, build_groups-AreDisjoint, build_groups-IsExplained,
}
use nff_core.Diagnosis.Versions.{parse_version, compare_version, le, lt, ge, gt, eq}
use nff_core.Diagnosis.Versions.Order.{compare_version-zeros}

abbrev crash_at : String → ℕ → TimelineEntry
crash_at id at = record {
  crash_id = id;
  device_id = some "esp-1";
  firmware_version = some "3.5";
  received_at = at;
  crash_class = some "null_deref";
}

abbrev timeline : List TimelineEntry
timeline = crash_at "c" 900 ∷ crash_at "a" 10 ∷ crash_at "b" 250 ∷ []

cluster_by_time-IsClustering_example : IsClustering 300 timeline (cluster_by_time 300 timeline)
cluster_by_time-IsClustering_example = cluster_by_time-IsClustering 300 timeline

two_clusters :
    cluster_by_time 300 timeline
    ≡ record { number = 0; start = 10; end = 250; size = 2; crash_ids = "a" ∷ "b" ∷ [] }
      ∷ record { number = 1; start = 900; end = 900; size = 1; crash_ids = "c" ∷ [] }
      ∷ []
unfolding cluster_by_time by_time cluster_of
two_clusters = refl

abbrev broad : Hypothesis
broad = record {
  id = "hyp-0";
  statement = "Devices on firmware 3.5 crash with null_deref.";
  predicted_crash_class = some "null_deref";
  status = validated;
  confidence = 750;
  matching_crashers = "a" ∷ "b" ∷ "c" ∷ [];
}

abbrev narrow : Hypothesis
narrow = record broad { id = "hyp-1"; confidence = 900; matching_crashers = "c" ∷ [] }

abbrev hypotheses : List Hypothesis
hypotheses = broad ∷ narrow ∷ []

build_groups-AreDisjoint_example : AreDisjoint (build_groups hypotheses timeline)
build_groups-AreDisjoint_example = build_groups-AreDisjoint timeline hypotheses

build_groups-IsExplained_example : IsExplained "c" 750 (build_groups hypotheses timeline)
unfolding is_validated
build_groups-IsExplained_example =
    build_groups-IsExplained timeline broad "c" refl (inr (inr (inl refl))) hypotheses (inl refl)

compare_version-zeros_example : compare_version (some (codes "v3.5")) eq (codes "3.5.0") ≡ true
unfolding parse_version
compare_version-zeros_example =
    compare_version-zeros (codes "v3.5") (codes "3.5.0") (3 ∷ 5 ∷ []) 1 refl refl

-- A release candidate counts as later than its release.
candidate_above : compare_version (some (codes "3.5-rc1")) gt (codes "3.5") ≡ true
unfolding compare_version parse_version nff_core.Diagnosis.Versions.pad
candidate_above = refl
