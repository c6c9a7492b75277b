-- ===== src/Ota/Supervisor/Looks.antt =====
-- What one look of the supervisor at a phased deployment decides: to halt it, to advance it, or to wait.
use nff_core.Prelude.{
  ℕ, ◌+◌, ◌-◌, ◌<◌, ◌≤◌, ◌≡◌, refl, sym, ◌∙◌, Bool, true, false, not, Option, none, some, List,
  string_eq, ℤ, length, leb, ltb, nat_eqb, count, get_elem?, ◌⊎◌, inl, inr, Bool-cases, arith,
  true≢false,
}
use nff_core.Float.{Float, div, lt_float}
use nff_core.Ota.Status.{DeploymentStatus}
use nff_core.Ota.Phases.{parse_phases}
use nff_core.Ota.Waves.{Decision, halt, advance, wait, phase_decision}
use nff_core.Ota.Store.{
  Db, Deployment, Job, Settings, HaltReason, find_deployment, update_deployment,
}
use nff_core.Ota.Store.Lookup.{find_deployment-update_deployment}
use nff_core.Ota.Jobs.{is_failed, is_terminal}
use nff_core.Ota.Delivery.{Outside}
use nff_core.Ota.Start.{deliver_wave}
use nff_core.Ota.Supervisor.{
  released, threshold_of, has_soaked, verdict, pause, act, supervise_phases, supervise_one,
  next_phase, halt_reason,
}
use nff_core.Ota.Supervisor.Tally.{
  Tally, IsThreshold, HasSoaked, cohort, counted_lem, threshold_lem, soaked_lem,
}

-- The row is paused with what went wrong, and no job moves; past the last phase nothing is written.
abbrev pub Halted : Deployment → Option ℤ → ℕ → ℕ → Float → Db → Db → Type 0
Halted dep none jobs failed t before after = after ≡ before
Halted dep (some percent) jobs failed t before after =
    ((row : Deployment)
      → find_deployment dep.id before ≡ some row
      → find_deployment dep.id after
        ≡ some (record row {
          status = DeploymentStatus.paused;
          halted_reason = some (HaltReason.auto_halt dep.current_phase percent failed jobs t);
        }))
    × (after.jobs ≡ before.jobs)

module _ (settings : Settings) (out : Outside) (dep : Deployment) (phases : List ℤ)
    (before : Db) where
  -- What is decided of that many jobs, failed jobs and open jobs, with that threshold
  pub data Decides (jobs failed left : ℕ) (t : Float) (after : Db) : Type 0 where
    halts :
        0 < jobs
        → t.units < (div failed jobs).units
        → Halted dep (get_elem? phases dep.current_phase) jobs failed t before after
        → Decides jobs failed left t after
    advances :
        0 < jobs
        → (div failed jobs).units ≤ t.units
        → left ≡ 0
        → HasSoaked out.now dep.soak_seconds dep.phase_entered_at
        → dep.current_phase + 1 < length phases
        → after
          ≡ (deliver_wave settings out
              (record dep {
                current_phase = dep.current_phase + 1;
                phase_entered_at = some out.now;
              })
              dep.id
              (dep.current_phase + 1)
              false
              (update_deployment dep.id
                (λ d. record d {
                  current_phase = dep.current_phase + 1;
                  phase_entered_at = some out.now;
                })
                before)).0
        → Decides jobs failed left t after
    waits :
        (jobs ≡ 0)
          ⊎ (((div failed jobs).units ≤ t.units)
              × ((0 < left)
                  ⊎ (HasSoaked out.now dep.soak_seconds dep.phase_entered_at → ⊥)
                  ⊎ (length phases ≤ dep.current_phase + 1)))
        → after ≡ before
        → Decides jobs failed left t after

  -- The counts, the threshold and the decision
  pub record Look (after : Db) : Type 0 where
    pub jobs : ℕ
    pub failed : ℕ
    pub left : ℕ
    pub tally : Tally dep.id dep.current_phase before.jobs jobs failed left
    pub threshold : Float
    pub is_threshold :
        IsThreshold settings.default_failure_threshold dep.failure_threshold threshold
    pub decides : Decides jobs failed left threshold after

module _ (settings : Settings) (out : Outside) (dep : Deployment) (phases : List ℤ)
    (before : Db) where
  paused-Halted :
      (percent : Option ℤ)
      → Halted dep percent
          (length (released dep.id dep.current_phase before))
          (count (λ (j : Job). is_failed j.status) (released dep.id dep.current_phase before))
          (threshold_of settings dep.failure_threshold)
          before
          (pause settings dep percent before)
  unfolding pause halt_reason update_deployment
  paused-Halted none = refl
  paused-Halted (some percent) =
      (λ row found. find_deployment-update_deployment dep.id _ before row (λ d. refl) found, refl)

  pub data View (jobs failed left : ℕ) (soaked last : Bool) (t : Float) : Decision → Type 0 where
    bare : jobs ≡ 0 → View jobs failed left soaked last t wait
    over : 0 < jobs → t.units < (div failed jobs).units → View jobs failed left soaked last t halt
    under :
        0 < jobs
        → (div failed jobs).units ≤ t.units
        → (left ≡ 0) × (soaked ≡ true) × (last ≡ false)
        → View jobs failed left soaked last t advance
    held :
        (div failed jobs).units ≤ t.units
        → (0 < left) ⊎ (soaked ≡ false) ⊎ (last ≡ true)
        → View jobs failed left soaked last t wait

  decision_view :
      (jobs failed left : ℕ) (soaked last : Bool) (t : Float)
      → View jobs failed left soaked last t (phase_decision jobs failed left soaked last t)
  unfolding phase_decision lt_float
  decision_view jobs failed left soaked last t = elim (Bool-cases (leb jobs 0)) [
    | inl empty ↦ rw empty (bare (ground (arith, empty)))
    | inr some_job ↦ elim (Bool-cases (ltb t.units (div failed jobs).units)) [
      | inl e ↦ rw (some_job, e) (over (ground (arith, some_job)) (ground (arith, e)))
      | inr e ↦ elim (Bool-cases (nat_eqb left 0)) [
        | inr o ↦ rw (some_job, e, o) (held (ground (arith, e)) (inl (ground (arith, o))))
        | inl o ↦ elim (Bool-cases soaked) [
          | inr s ↦ rw (some_job, e, o, s) (held (ground (arith, e)) (inr (inl refl)))
          | inl s ↦ elim (Bool-cases last) [
            | inl z ↦ rw (some_job, e, o, s, z) (held (ground (arith, e)) (inr (inr refl)))
            | inr z ↦
                rw (some_job, e, o, s, z)
                  (under (ground (arith, some_job)) (ground (arith, e))
                    (ground (arith, o), refl, refl))
          ]
        ]
      ]
    ]
  ]

  abbrev seen : List Job
  seen = released dep.id dep.current_phase before

  abbrev t_used : Float
  t_used = threshold_of settings dep.failure_threshold

  decided :
      (d : Decision)
      → View
          (length seen)
          (count (λ (j : Job). is_failed j.status) seen)
          (count (λ (j : Job). not (is_terminal j.status)) seen)
          (has_soaked out.now dep.soak_seconds dep.phase_entered_at)
          (leb (length phases - 1) dep.current_phase)
          t_used
          d
      → Decides settings out dep phases before
          (length seen)
          (count (λ (j : Job). is_failed j.status) seen)
          (count (λ (j : Job). not (is_terminal j.status)) seen)
          t_used
          (act settings out dep phases before d)
  unfolding act next_phase
  decided wait (bare none_there) = waits (inl none_there) refl
  decided halt (over some_job high) =
      halts some_job high (paused-Halted (get_elem? phases dep.current_phase))
  decided advance (under some_job low (all_ended, soaked, more)) =
      elim (soaked_lem out.now dep.soak_seconds dep.phase_entered_at) [
        | inl (s, held_out) ↦ advances some_job low all_ended held_out (ground (arith, more)) refl
        | inr (s, u) ↦ absurd (true≢false (sym soaked ∙ s))
      ]
  decided wait (held low why) = waits (inr (low, reason why)) refl
    where
      reason :
          ((0 < count (λ (j : Job). not (is_terminal j.status)) seen)
            ⊎ (has_soaked out.now dep.soak_seconds dep.phase_entered_at ≡ false)
            ⊎ (leb (length phases - 1) dep.current_phase ≡ true))
          → (0 < count (λ (j : Job). not (is_terminal j.status)) seen)
            ⊎ (HasSoaked out.now dep.soak_seconds dep.phase_entered_at → ⊥)
            ⊎ (length phases ≤ dep.current_phase + 1)
      reason (inl some_left) = inl some_left
      reason (inr (inl early)) = elim (soaked_lem out.now dep.soak_seconds dep.phase_entered_at) [
        | inl (s, held_out) ↦ absurd (true≢false (sym s ∙ early))
        | inr (s, u) ↦ inr (inl u)
      ]
      reason (inr (inr at_last)) = inr (inr (ground (arith, at_last)))

  -- One look at a deployment whose phases parse decides by its jobs in the waves up to its phase. It halts, if
  -- there is such a job and the share that failed is over the row's threshold, or over the default one where the
  -- row has none or 0.0: the row is paused with phase, percentage, counts and threshold as its reason, and no job
  -- moves; past the last phase nothing is written. It moves to the next phase, from that moment on, and delivers
  -- the waves up to it, if there is such a job, the share is not over it, all of them have ended, the phase has
  -- lasted its time, and it is not the last. Else it changes nothing.
  pub supervise_one_decides :
      parse_phases dep.phases ≡ some phases
      → Look settings out dep phases before (supervise_one settings out dep before)
  unfolding supervise_one supervise_phases verdict seen t_used cohort
  supervise_one_decides parsed = rw parsed record {
    jobs = length seen;
    failed = count (λ (j : Job). is_failed j.status) seen;
    left = count (λ (j : Job). not (is_terminal j.status)) seen;
    tally = unfold released in counted_lem dep.id dep.current_phase before.jobs;
    threshold = t_used;
    is_threshold = threshold_lem settings dep.failure_threshold;
    decides = decided (verdict settings out.now dep phases before) (
        decision_view (length seen) (count (λ (j : Job). is_failed j.status) seen)
          (count (λ (j : Job). not (is_terminal j.status)) seen)
          (has_soaked out.now dep.soak_seconds dep.phase_entered_at)
          (leb (length phases - 1) dep.current_phase) t_used);
  }
