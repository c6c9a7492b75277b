-- ===== src/Ota/Supervisor/Tally.antt =====
-- The released cohort counted: its jobs, those that failed and those that have not ended; the threshold and the soak time.
use nff_core.Prelude.{
  ℕ, suc, ◌+◌, ◌*◌, ◌<◌, ◌≤◌, ◌≡◌, ◌≢◌, refl, true, false, not, ◌&&◌, Option, none, some, List, [],
  ◌∷◌, String, ◌==◌, string_eq, length, leb, ltb, count, select, ◌⊎◌, inl, inr, Bool-cases, arith,
  eq_iff,
}
use nff_core.Float.{Float, is_zero}
use nff_core.Ota.Status.{JobStatus}
use nff_core.Ota.Store.{Job, Settings}
use nff_core.Ota.Jobs.{is_failed, is_terminal}
use nff_core.Ota.Jobs.Rollup.Decided.{differs, HasEnded, ended_lem}
use nff_core.Ota.Supervisor.{threshold_of, has_soaked}

-- The states of a job that failed
abbrev pub HasFailed : JobStatus → Type 0
HasFailed JobStatus.failure = Unit
HasFailed JobStatus.timed_out = Unit
HasFailed _ = ⊥

-- How many jobs of the deployment are in the waves up to the phase, how many of these failed, and how many have
-- not ended
pub data Tally (id : String) (phase : ℕ) : List Job → ℕ → ℕ → ℕ → Type 0 where
  nothing : Tally id phase [] 0 0 0
  outside :
      {j : Job} {js : List Job} {jobs failed left : ℕ}
      → (j.deployment_id ≢ id) ⊎ (phase < j.wave)
      → Tally id phase js jobs failed left
      → Tally id phase (j ∷ js) jobs failed left
  fault :
      {j : Job} {js : List Job} {jobs failed left : ℕ}
      → (j.deployment_id ≡ id) × (j.wave ≤ phase)
      → HasFailed j.status
      → Tally id phase js jobs failed left
      → Tally id phase (j ∷ js) (suc jobs) (suc failed) left
  ended :
      {j : Job} {js : List Job} {jobs failed left : ℕ}
      → (j.deployment_id ≡ id) × (j.wave ≤ phase)
      → HasEnded j.status
      → (HasFailed j.status → ⊥)
      → Tally id phase js jobs failed left
      → Tally id phase (j ∷ js) (suc jobs) failed left
  going :
      {j : Job} {js : List Job} {jobs failed left : ℕ}
      → (j.deployment_id ≡ id) × (j.wave ≤ phase)
      → (HasEnded j.status → ⊥)
      → Tally id phase js jobs failed left
      → Tally id phase (j ∷ js) (suc jobs) failed (suc left)

-- The row's threshold, or the default one where it has none or 0.0
abbrev pub IsThreshold : Float → Option Float → Float → Type 0
IsThreshold default none t = t ≡ default
IsThreshold default (some own) t = ((own.units ≡ 0) × (t ≡ default)) ⊎ ((0 < own.units) × (t ≡ own))

-- The phase has lasted its time, in microseconds.
abbrev pub HasSoaked : ℕ → ℕ → Option ℕ → Type 0
HasSoaked now soak_seconds none = Unit
HasSoaked now soak_seconds (some entered) =
    (soak_seconds ≡ 0) ⊎ (entered + soak_seconds * 1000000 ≤ now)

failed_lem :
    (status : JobStatus)
    → ((is_failed status ≡ true) × (is_terminal status ≡ true) × HasFailed status)
      ⊎ ((is_failed status ≡ false) × (HasFailed status → ⊥))
failed_lem JobStatus.pending = inr (refl, λ u. u)
failed_lem JobStatus.downloading = inr (refl, λ u. u)
failed_lem JobStatus.installing = inr (refl, λ u. u)
failed_lem JobStatus.rebooting = inr (refl, λ u. u)
failed_lem JobStatus.verifying = inr (refl, λ u. u)
failed_lem JobStatus.committed = inr (refl, λ u. u)
failed_lem JobStatus.success = inr (refl, λ u. u)
failed_lem JobStatus.already_installed = inr (refl, λ u. u)
failed_lem JobStatus.failure = inl (refl, refl, tt)
failed_lem JobStatus.rolled_back = inr (refl, λ u. u)
failed_lem JobStatus.aborted = inr (refl, λ u. u)
failed_lem JobStatus.timed_out = inl (refl, refl, tt)
failed_lem JobStatus.decommissioned = inr (refl, λ u. u)

-- The counts as the sweep makes them
abbrev Counted : String → ℕ → List Job → List Job → Type 0
Counted id phase js cohort =
    Tally id phase js (length cohort) (count (λ (j : Job). is_failed j.status) cohort)
      (count (λ (j : Job). not (is_terminal j.status)) cohort)

module _ (id : String) (phase : ℕ) where
  unfoldable pub cohort : List Job → List Job
  cohort js = select (λ (j : Job). j.deployment_id == id && leb j.wave phase) js

  own_lem :
      (j : Job) (js : List Job)
      → (j.deployment_id ≡ id) × (j.wave ≤ phase)
      → Counted id phase js (cohort js)
      → Counted id phase (j ∷ js) (j ∷ cohort js)
  own_lem j js own rest = elim (failed_lem j.status) [
    | inl (f, t, x) ↦ rw (f, t) (fault own x rest)
    | inr (f, x) ↦ elim (ended_lem j.status) [
      | inl (t, e) ↦ rw (f, t) (ended own e x rest)
      | inr (t, e) ↦ rw (f, t) (going own e rest)
    ]
  ]

  pub counted_lem : (js : List Job) → Counted id phase js (cohort js)
  unfolding cohort
  counted_lem [] = nothing
  counted_lem (j ∷ js) = elim (Bool-cases (j.deployment_id == id)) [
    | inr other ↦ rw other (outside (inl (differs j.deployment_id id other)) (counted_lem js))
    | inl own ↦ elim (Bool-cases (leb j.wave phase)) [
      | inl early ↦
          rw (own, early)
            (own_lem j js ((eq_iff j.deployment_id id).0 own, ground (arith, early))
              (counted_lem js))
      | inr late ↦ rw (own, late) (outside (inr (ground (arith, late))) (counted_lem js))
    ]
  ]

pub threshold_lem :
    (settings : Settings) (own : Option Float)
    → IsThreshold settings.default_failure_threshold own (threshold_of settings own)
unfolding threshold_of is_zero
threshold_lem settings none = refl
threshold_lem settings (some own) = elim (Bool-cases (is_zero own)) [
  | inl z ↦ rw z (inl (ground (arith, z), refl))
  | inr z ↦ rw z (inr (ground (arith, z), refl))
]

pub soaked_lem :
    (now soak_seconds : ℕ) (entered : Option ℕ)
    → ((has_soaked now soak_seconds entered ≡ true) × HasSoaked now soak_seconds entered)
      ⊎ ((has_soaked now soak_seconds entered ≡ false) × (HasSoaked now soak_seconds entered → ⊥))
unfolding has_soaked
soaked_lem now soak_seconds none = inl (refl, tt)
soaked_lem now soak_seconds (some entered) = elim (Bool-cases (ltb 0 soak_seconds)) [
  | inr instant ↦ inl (rw instant refl, inl (ground (arith, instant)))
  | inl long ↦ elim (Bool-cases (leb (entered + soak_seconds * 1000000) now)) [
    | inl over ↦ inl (rw (long, over) refl, inr (ground (arith, over)))
    | inr early ↦ inr (
      rw (long, early) refl,
      λ soaked. elim soaked [
        | inl none_set ↦ ground (arith, long, none_set)
        | inr over ↦ ground (arith, early, over)
      ],
    )
  ]
]
