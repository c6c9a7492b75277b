-- ===== src/Ota/FixSubmit/Upgrades.antt =====
-- Which fixes are put in the queue.
use nff_core.Ota.FixSubmit.Current.{
  IsCurrent, IsSimulated, current_or_baseline-IsCurrent, found_device,
}
use nff_core.Ota.FixSubmit.Refusals.{
  IsOver, Refused, unversioned, low, down, unless_over, device_error,
}
use nff_core.Prelude.{
  Option-cases, true, sym, List, subst, ◌∙◌, ℕ, nat_eqb, arith, false, Option, none, some, String,
  string_eq, Result, ok, err, ◌≡◌, refl, ap, inl, inr, Bool-cases,
}
use nff_core.Ota.Store.{Device, find_device}
use nff_core.Ota.FixQueue.{FixJob, enqueue}
use nff_core.Ota.FixSubmit.{
  Semver, semver, semver_le, Revision, Fixes, latest_revision, Served, version_of,
  current_or_baseline, ensure_baseline, ensure_baseline, FixError, not_greater, enqueue_failed,
  device_project_id, FixParams, request, Turn, enqueued, is_not_above, above, with_project,
  with_version, submit_firmware_fix,
}

abbrev pub IsOverBare : Semver → Option Semver → Type 0
IsOverBare new none = Unit
IsOverBare new (some current) = IsOver new current

-- The version of the revision, the parent of the fix
abbrev pub held_version : Option Revision → Option String
held_version none = none
held_version (some r) = some r.version

-- The version is over that of the revision, where there is one and its version is bare semver.
abbrev pub IsAbove : Semver → Option Revision → Type 0
IsAbove new none = Unit
IsAbove new (some r) = IsOverBare new (semver r.version)

IsOver-if : (new current : Semver) → semver_le new current ≡ false → IsOver new current
unfolding semver_le
IsOver-if (a, b, c) (d, e, f) h = elim (Bool-cases (nat_eqb a d)) [
  | inr other ↦ inl (ground (arith, h, other))
  | inl major ↦ inr (
    ground (arith, major),
    elim (Bool-cases (nat_eqb b e)) [
      | inr other ↦ inl (ground (arith, h, major, other))
      | inl minor ↦ inr (ground (arith, minor), ground (arith, h, major, minor))
    ],
  )
]

IsOverBare-if :
    (new : Semver) (current : Option Semver)
    → is_not_above new current ≡ false
    → IsOverBare new current
unfolding is_not_above
IsOverBare-if new none h = tt
IsOverBare-if new (some current) h = IsOver-if new current h

-- One job more, for a device that the path serves, with a bare version over the revision that it holds
pub record IsUpgrade (t : Turn) (p : FixParams) (before after : Fixes) : Type 0 where
  pub new : Semver
  pub is_semver : semver p.version ≡ some new
  pub device : Device
  pub found : find_device p.device_id before.db ≡ some device
  pub project : String
  pub simulated : IsSimulated device project
  pub current : Option Revision
  pub is_current : IsCurrent t.now t.served p.device_id device before.revisions current
  pub is_above : IsAbove new current
  pub queued :
      after.queue
      ≡ enqueue t.now
          record {
            id = t.job_id;
            project_id = some project;
            device_id = p.device_id;
            version = p.version;
            source = p.source;
            parent_version = held_version current;
            changelog = p.changelog;
            author = "agent";
          }
          before.queue

abbrev pub Submitted : Turn → FixParams → Fixes → Fixes × Result FixError String → Type 0
Submitted t p before (after, err e) = (after.queue ≡ before.queue) × Refused t p before e
Submitted t p before (after, ok job_id) = (job_id ≡ t.job_id) × IsUpgrade t p before after

not_enqueued :
    (t : Turn) (p : FixParams) (project : String) (current : Option Revision) (s : Fixes)
    → t.insert_fails ≡ true
    → enqueued t p project current s ≡ (s, err enqueue_failed)
unfolding enqueued
not_enqueued t p project current s h = rw h refl

now_enqueued :
    (t : Turn) (p : FixParams) (project : String) (current : Option Revision) (s : Fixes)
    → t.insert_fails ≡ false
    → enqueued t p project current s ≡ (
      record s { queue = enqueue t.now (request t.job_id p project current) s.queue },
      ok t.job_id,
    )
unfolding enqueued
now_enqueued t p project current s h = rw h refl

module _ (t : Turn) (p : FixParams) (before : Fixes) (new : Semver)
    (bare : semver p.version ≡ some new) (project : String)
    (owner : device_project_id p.device_id before.db ≡ ok project) where
  looked_up : Fixes × Option Revision
  looked_up =
      current_or_baseline t.now t.served p.device_id (latest_revision p.device_id before.revisions)
        before

  job_of :
      (current : Option Revision) (queue : List FixJob)
      → enqueue t.now (request t.job_id p project current) queue
        ≡ enqueue t.now
            record {
              id = t.job_id;
              project_id = some project;
              device_id = p.device_id;
              version = p.version;
              source = p.source;
              parent_version = held_version current;
              changelog = p.changelog;
              author = "agent";
            }
            queue
  unfolding request version_of
  job_of none queue = refl
  job_of (some r) queue = refl

  device_at :
      (current : Option Revision)
      → looked_up.1 ≡ current
      → (d : Device) × (find_device p.device_id before.db ≡ some d)
        × IsSimulated d project
        × IsCurrent t.now t.served p.device_id d before.revisions current
  unfolding looked_up device_project_id
  device_at current f =
      let (d, there, owned, simulated) =
        found_device (find_device p.device_id before.db) project owner in
      (
        d,
        there,
        simulated,
        subst (IsCurrent t.now t.served p.device_id d before.revisions) f
            (current_or_baseline-IsCurrent t.now t.served p.device_id d project before there owned),
      )

  enqueued-Submitted :
      (current : Option Revision)
      → looked_up.1 ≡ current
      → looked_up.0.queue ≡ before.queue
      → IsAbove new current
      → Submitted t p before (enqueued t p project current looked_up.0)
  unfolding enqueued
  enqueued-Submitted current f q a = elim (Bool-cases t.insert_fails) [
    | inl fails ↦
        subst (Submitted t p before) (sym (not_enqueued t p project current looked_up.0 fails))
          (q, down fails)
    | inr works ↦
        let (d, there, simulated, is_current) = device_at current f in
        subst (Submitted t p before) (sym (now_enqueued t p project current looked_up.0 works)) (
          refl,
          record {
            new = new;
            is_semver = bare;
            device = d;
            found = there;
            project = project;
            simulated = simulated;
            current = current;
            is_current = is_current;
            is_above = a;
            queued =
                ap (enqueue t.now (request t.job_id p project current)) q
                ∙ job_of current before.queue;
          },
        )
  ]

  low-Refused :
      (r : Revision)
      → looked_up.1 ≡ some r
      → is_not_above new (semver r.version) ≡ true
      → Refused t p before (not_greater r.version)
  unfolding is_not_above
  low-Refused r f h = elim (Option-cases (semver r.version)) [
    | inl e ↦ let no : false ≡ true = rw e at h in cc
    | inr (current, e) ↦
        let (d, there, simulated, is_current) = device_at (some r) f in
        let under : semver_le new current ≡ true = rw e at h in
        low new current d r bare there is_current e (unless_over new current under)
  ]

  above-Submitted :
      (current : Option Revision)
      → looked_up.1 ≡ current
      → looked_up.0.queue ≡ before.queue
      → Submitted t p before (above t p new project current looked_up.0)
  unfolding above
  above-Submitted none f q = enqueued-Submitted none f q tt
  above-Submitted (some r) f q = elim (Bool-cases (is_not_above new (semver r.version))) [
    | inl under ↦ rw under (q, low-Refused r f under)
    | inr high ↦
        rw high (enqueued-Submitted (some r) f q (IsOverBare-if new (semver r.version) high))
  ]

queue_kept :
    (now : ℕ) (served : Option Served) (device_id : String) (found : Option Revision) (s : Fixes)
    → (current_or_baseline now served device_id found s).0.queue ≡ s.queue
unfolding current_or_baseline ensure_baseline
queue_kept now served device_id none s = refl
queue_kept now served device_id (some r) s = refl

project-Submitted :
    (t : Turn) (p : FixParams) (before : Fixes) (new : Semver) (answer : Result FixError String)
    → semver p.version ≡ some new
    → device_project_id p.device_id before.db ≡ answer
    → Submitted t p before (with_project t p new answer before)
unfolding with_project looked_up
project-Submitted t p before new (err e) bare owner = (
  refl,
  device_error t p before (find_device p.device_id before.db) e refl
      (unfold device_project_id in owner),
)
project-Submitted t p before new (ok project) bare owner =
    above-Submitted t p before new bare project owner _ refl
      (queue_kept t.now t.served p.device_id (latest_revision p.device_id before.revisions) before)

version-Submitted :
    (t : Turn) (p : FixParams) (before : Fixes) (version : Option Semver)
    → semver p.version ≡ version
    → Submitted t p before (with_version t p version before)
unfolding with_version
version-Submitted t p before none e = (refl, unversioned e)
version-Submitted t p before (some new) e =
    project-Submitted t p before new (device_project_id p.device_id before.db) e refl

-- A submission that is answered with a job has put exactly that job at the end of the queue: for a device with a
-- project that is a mock or emulated, with a bare version over that of the device's latest revision, which is the
-- baseline where it had none and one is served, wherever that version is bare. Any other leaves
-- the queue alone, and its error says why: the version is not bare, the device is not there, has no project or is
-- real hardware, its revision so found is bare and the version not over it, or the insert failed.
pub submit-Submitted :
    (t : Turn) (p : FixParams) (before : Fixes)
    → Submitted t p before (submit_firmware_fix t p before)
unfolding submit_firmware_fix
submit-Submitted t p before = version-Submitted t p before (semver p.version) refl
