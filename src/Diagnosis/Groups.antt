-- ===== src/Diagnosis/Groups.antt =====
-- Cohorts of devices that crashed for one reason, `_build_groups` of nff_diagnosis/correlation/engine.py, and the
-- crashes that no cohort explains. A confidence, which validation rounds to three digits, is in thousandths;
-- the dominant location and the narrative of a group are left out.
pub mod Partition
use nff_core.Prelude.{
  ℕ, suc, leb, Bool, true, false, not, Option, none, some, List, [], ◌∷◌, ◌++◌, map, length, String,
  ◌==◌, string_eq, if◌then◌else◌, any, select, sorted, string_order,
}
use nff_core.Diagnosis.Cluster.{TimelineEntry}

pub data HypothesisStatus : Type 0 where
  proposed validated refuted partial : HypothesisStatus

pub record Hypothesis : Type 0 where
  pub id : String
  pub statement : String
  pub predicted_crash_class : Option String
  pub status : HypothesisStatus
  pub confidence : ℕ
  pub matching_crashers : List String

pub record DeviceGroup : Type 0 where
  pub number : ℕ
  pub label : String
  pub crash_class : Option String
  pub member_device_ids : List String
  pub member_crash_ids : List String
  pub firmware_versions : List String
  pub hypothesis_id : String
  pub confidence : ℕ
  pub member_count : ℕ

abbrev pub is_member : String → List String → Bool
is_member c ids = any (λ (d : String). d == c) ids

unfoldable pub is_validated : HypothesisStatus → Bool
is_validated validated = true
is_validated proposed = false
is_validated refuted = false
is_validated partial = false

insert_strongest : Hypothesis → List Hypothesis → List Hypothesis
insert_strongest h [] = h ∷ []
insert_strongest h (k ∷ ks) =
    let rest = insert_strongest h ks in
    if leb k.confidence h.confidence then h ∷ k ∷ ks else k ∷ rest

-- `sorted(hyps, key=lambda x: x.confidence, reverse=True)`, which keeps the order of equals
unfoldable pub strongest_first : List Hypothesis → List Hypothesis
unfolding insert_strongest
strongest_first [] = []
strongest_first (h ∷ hs) = insert_strongest h (strongest_first hs)

later_or : Bool → TimelineEntry → Option TimelineEntry → Option TimelineEntry
later_or here e (some f) = some f
later_or true e none = some e
later_or false e none = none

-- `by_crash`: of the entries with one id, the last
entry_of : String → List TimelineEntry → Option TimelineEntry
unfolding later_or
entry_of c [] = none
entry_of c (e ∷ es) = later_or (e.crash_id == c) e (entry_of c es)

cons_entry : Option TimelineEntry → List TimelineEntry → List TimelineEntry
cons_entry none es = es
cons_entry (some e) es = e ∷ es

entries_of : List String → List TimelineEntry → List TimelineEntry
unfolding entry_of cons_entry
entries_of [] timeline = []
entries_of (c ∷ cs) timeline = cons_entry (entry_of c timeline) (entries_of cs timeline)

add_new : Option String → List String → List String
add_new none seen = seen
add_new (some s) seen = if s == "" then seen else if is_member s seen then seen else s ∷ seen

-- The set of the texts that are there and not empty
texts : List (Option String) → List String
unfolding add_new
texts [] = []
texts (o ∷ os) = add_new o (texts os)

group_of : ℕ → Hypothesis → List String → List TimelineEntry → DeviceGroup
unfolding entries_of texts
group_of number h members timeline =
    let entries = entries_of members timeline in
    record {
      number = number;
      label = h.statement;
      crash_class = h.predicted_crash_class;
      member_device_ids = sorted (texts (map (λ (e : TimelineEntry). e.device_id) entries));
      member_crash_ids = members;
      firmware_versions = sorted (texts (map (λ (e : TimelineEntry). e.firmware_version) entries));
      hypothesis_id = h.id;
      confidence = h.confidence;
      member_count = length members;
    }

-- The crashes of a hypothesis that are in no group yet; none of one that is not validated
open_members : Hypothesis → List String → List String
unfolding is_validated
open_members h claimed =
    if is_validated h.status
    then select (λ (c : String). not (is_member c claimed)) h.matching_crashers
    else []

is_nothing : List String → Bool
is_nothing [] = true
is_nothing (c ∷ cs) = false

collect : List TimelineEntry → ℕ → List String → List Hypothesis → List DeviceGroup
unfolding open_members group_of is_nothing
collect timeline number claimed [] = []
collect timeline number claimed (h ∷ hs) =
    let members = open_members h claimed in
    let later =
      collect timeline (if is_nothing members then number else suc number) (members ++ claimed)
        hs in
    if is_nothing members then later else group_of number h members timeline ∷ later

unfoldable pub build_groups : List Hypothesis → List TimelineEntry → List DeviceGroup
unfolding collect
build_groups hyps timeline = collect timeline 0 [] (strongest_first hyps)

unfoldable pub grouped_crashes : List DeviceGroup → List String
grouped_crashes [] = []
grouped_crashes (g ∷ gs) = g.member_crash_ids ++ grouped_crashes gs

unfoldable pub unexplained_ids : List TimelineEntry → List DeviceGroup → List String
unfolding grouped_crashes
unexplained_ids timeline gs =
    select (λ (c : String). not (is_member c (grouped_crashes gs)))
      (map (λ (e : TimelineEntry). e.crash_id) timeline)
