-- ===== src/Ota/Handoff/Spacing.antt =====
-- How often the routine summaries of a project are handed off.
use nff_core.Prelude.{
  ℕ, ◌+◌, ◌≤◌, nat_eqb, Bool, true, false, not, ◌&&◌, ◌||◌, Option, none, some, List, [], ◌∷◌,
  String, ◌==◌, string_eq, if◌then◌else◌, arith, Dict, get, put, get-put, ◌≡◌, ◌⊎◌, refl, subst,
  ◌∙◌, inl, inr, Bool-cases, eq_iff,
}
use nff_core.Ota.Status.{DeploymentStatus}
use nff_core.Ota.Store.{Deployment}
use nff_core.Ota.Handoff.{
  failed_jobs, Prompt, has_any, Settings, Ended, is_cooling, emitted, for_project, for_row,
  notify_deployment_terminal,
}
use nff_core.Ota.Handoff.Cooldown.{some_failed, some_failed_lem}

-- The end of a deployment, with its time
pub record Call : Type 0 where
  pub at : ℕ
  pub ended : Ended
  pub status : DeploymentStatus

-- Is it a summary of the project, of a deployment without failures?
is_routine : String → Bool → Option (String × Prompt) → Bool
is_routine id bad none = false
is_routine id bad (some (project, prompt)) = if project == id then not bad else false

-- The times of the routine summaries of the project among the ends
unfoldable pub summaries : Settings → String → List Call → Dict ℕ → List ℕ
unfolding is_routine
summaries cfg id [] stamps = []
summaries cfg id (c ∷ cs) stamps =
    let (stamps', message) = notify_deployment_terminal c.at cfg c.ended c.status stamps in
    let later = summaries cfg id cs stamps' in
    if is_routine id (some_failed c.ended.jobs) message then c.at ∷ later else later

abbrev pub After : ℕ → Option ℕ → ℕ → Type 0
After cooldown none t = Unit
After cooldown (some last) t = last + cooldown ≤ t

-- Each of the times is at least the cooldown after the one before it.
abbrev pub Spaced : ℕ → Option ℕ → List ℕ → Type 0
Spaced cooldown last [] = Unit
Spaced cooldown last (t ∷ ts) = After cooldown last t × Spaced cooldown (some t) ts

abbrev Paced : ℕ → ℕ → String → Bool → Dict ℕ → Dict ℕ × Option (String × Prompt) → Type 0
unfolding is_routine
Paced now cooldown id bad stamps (stamps', message) =
    ((is_routine id bad message ≡ true)
      × After cooldown (get id stamps) now
      × (get id stamps' ≡ some now))
    ⊎ ((is_routine id bad message ≡ false) × (get id stamps' ≡ get id stamps))

After-cold :
    (now cooldown : ℕ) (last : Option ℕ)
    → is_cooling now cooldown last ≡ false
    → After cooldown last now
unfolding is_cooling
After-cold now cooldown none h = tt
After-cold now cooldown (some last) h = ground arith

put_same :
    (id project : String) (now : ℕ) (stamps : Dict ℕ)
    → (project == id) ≡ true
    → get id (put project now stamps) ≡ some now
put_same id project now stamps same = get-put id project now stamps ∙ rw same refl

put_other :
    (id project : String) (now : ℕ) (stamps : Dict ℕ)
    → (project == id) ≡ false
    → get id (put project now stamps) ≡ get id stamps
put_other id project now stamps other = get-put id project now stamps ∙ rw other refl

emitted-Paced :
    (now : ℕ) (cfg : Settings) (e : Ended) (dep : Deployment) (status : DeploymentStatus)
    (project id : String) (stamps : Dict ℕ)
    → nat_eqb cfg.cooldown 0 ≡ false
    → Paced now cfg.cooldown id
        (has_any (failed_jobs e.jobs))
        stamps
        (emitted now cfg e dep status project stamps)
unfolding emitted is_routine
emitted-Paced now cfg e dep status project id stamps positive =
    elim (Bool-cases (has_any (failed_jobs e.jobs))) [
      | inl bad ↦ elim (Bool-cases (project == id)) [
        | inl same ↦ rw (bad, same) (inr (refl, refl))
        | inr other ↦ rw (bad, other) (inr (refl, refl))
      ]
      | inr good ↦ elim (Bool-cases (is_cooling now cfg.cooldown (get project stamps))) [
        | inl cooling ↦ rw (good, positive, cooling) (inr (refl, refl))
        | inr cold ↦ elim (Bool-cases (project == id)) [
          | inl same ↦
              rw (good, positive, cold)
                (inl (
                  rw same refl,
                  subst (λ k. After cfg.cooldown (get k stamps) now) ((eq_iff project id).0 same)
                      (After-cold now cfg.cooldown (get project stamps) cold),
                  put_same id project now stamps same,
                ))
          | inr other ↦
              rw (good, positive, cold) (inr (rw other refl, put_other id project now stamps other))
        ]
      ]
    ]

project-Paced :
    (now : ℕ) (cfg : Settings) (e : Ended) (dep : Deployment) (status : DeploymentStatus)
    (owner : Option String) (id : String) (stamps : Dict ℕ)
    → nat_eqb cfg.cooldown 0 ≡ false
    → Paced now cfg.cooldown id
        (has_any (failed_jobs e.jobs))
        stamps
        (for_project now cfg e dep status owner stamps)
unfolding for_project is_routine
project-Paced now cfg e dep status none id stamps positive = inr (refl, refl)
project-Paced now cfg e dep status (some project) id stamps positive =
    elim (Bool-cases (project == "" || cfg.skip_demo && e.is_demo_or_pool)) [
      | inl skipped ↦ rw skipped (inr (refl, refl))
      | inr told ↦ rw told (emitted-Paced now cfg e dep status project id stamps positive)
    ]

row-Paced :
    (now : ℕ) (cfg : Settings) (e : Ended) (status : DeploymentStatus) (row : Option Deployment)
    (id : String) (stamps : Dict ℕ)
    → nat_eqb cfg.cooldown 0 ≡ false
    → Paced now cfg.cooldown id
        (has_any (failed_jobs e.jobs))
        stamps
        (for_row now cfg e status row stamps)
unfolding for_row is_routine
row-Paced now cfg e status none id stamps positive = inr (refl, refl)
row-Paced now cfg e status (some dep) id stamps positive =
    project-Paced now cfg e dep status dep.project_id id stamps positive

told-Paced :
    (on : Bool) (now : ℕ) (cfg : Settings) (e : Ended) (status : DeploymentStatus) (id : String)
    (stamps : Dict ℕ)
    → nat_eqb cfg.cooldown 0 ≡ false
    → Paced now cfg.cooldown id
        (has_any (failed_jobs e.jobs))
        stamps
        (if on then for_row now cfg e status e.row stamps else (stamps, none))
unfolding is_routine
told-Paced true now cfg e status id stamps positive =
    row-Paced now cfg e status e.row id stamps positive
told-Paced false now cfg e status id stamps positive = inr (refl, refl)

notify-Paced :
    (now : ℕ) (cfg : Settings) (e : Ended) (status : DeploymentStatus) (id : String)
    (stamps : Dict ℕ)
    → nat_eqb cfg.cooldown 0 ≡ false
    → Paced now cfg.cooldown id
        (some_failed e.jobs)
        stamps
        (notify_deployment_terminal now cfg e status stamps)
unfolding notify_deployment_terminal
notify-Paced now cfg e status id stamps positive =
    subst
      (λ bad.
        Paced now cfg.cooldown id bad stamps (notify_deployment_terminal now cfg e status stamps))
      (some_failed_lem e.jobs) (told-Paced cfg.agent_on_finish now cfg e status id stamps positive)

-- With a cooldown, whatever deployments end and whenever they do, the routine summaries of one project, those
-- of deployments without failures, are handed off at least the cooldown apart.
pub summaries-Spaced :
    (cfg : Settings) (id : String) (cs : List Call) (stamps : Dict ℕ)
    → nat_eqb cfg.cooldown 0 ≡ false
    → Spaced cfg.cooldown (get id stamps) (summaries cfg id cs stamps)
unfolding summaries
summaries-Spaced cfg id [] stamps positive = tt
summaries-Spaced cfg id (c ∷ cs) stamps positive =
    let (stamps', message) = notify_deployment_terminal c.at cfg c.ended c.status stamps in
    let ih = summaries-Spaced cfg id cs stamps' positive in
    elim (notify-Paced c.at cfg c.ended c.status id stamps positive) [
      | inl (out, spaced, noted) ↦
          rw out (spaced, subst (λ o. Spaced cfg.cooldown o (summaries cfg id cs stamps')) noted ih)
      | inr (none_out, kept) ↦
          rw none_out (subst (λ o. Spaced cfg.cooldown o (summaries cfg id cs stamps')) kept ih)
    ]
