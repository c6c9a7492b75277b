-- ===== src/Ota/Handoff/Cooldown.antt =====
-- Which hand-offs are made, and what they ask for.
use nff_core.Prelude.{
  sym, ◌≢◌, true≢false, eq_iff, ℕ, Bool, true, false, ◌&&◌, ◌||◌, Option, none, some, List, [], ◌∷◌,
  String, ◌==◌, string_eq, Dict, ◌≡◌, ◌⊎◌, refl, ◌∙◌, inl, inr, Bool-cases, any,
}
use nff_core.Ota.Status.{JobStatus, job_status_eq, DeploymentStatus}
use nff_core.Ota.Store.{Deployment, Job}
use nff_core.Ota.Handoff.{
  Playbook, open_fix_pr, submit_firmware_fix, is_failed_job, failed_jobs, Prompt, playbook_for,
  has_any, Run, build_summary_prompt, Settings, Ended, prompt_of, emitted, for_project, for_row,
  notify_deployment_terminal,
}

-- A device failed or was timed out.
abbrev pub some_failed : List Job → Bool
some_failed jobs =
    any (λ (j : Job). j.status == JobStatus.failure || j.status == JobStatus.timed_out) jobs

pub some_failed_lem : (jobs : List Job) → has_any (failed_jobs jobs) ≡ some_failed jobs
unfolding has_any failed_jobs is_failed_job
some_failed_lem [] = refl
some_failed_lem (j ∷ js) =
    elim (Bool-cases (j.status == JobStatus.failure || j.status == JobStatus.timed_out)) [
      | inl e ↦ rw e refl
      | inr e ↦ rw e (some_failed_lem js)
    ]

-- The deployment is there and has a project, which the settings do not skip.
abbrev pub IsTold : Settings → Ended → Deployment → String → Type 0
IsTold cfg e dep project =
    (cfg.agent_on_finish ≡ true)
    × (e.row ≡ some dep)
    × (dep.project_id ≡ some project)
    × ((project == "") ≡ false)
    × ((cfg.skip_demo && e.is_demo_or_pool) ≡ false)

told :
    (now : ℕ) (cfg : Settings) (e : Ended) (dep : Deployment) (status : DeploymentStatus)
    (project : String) (stamps : Dict ℕ)
    → IsTold cfg e dep project
    → notify_deployment_terminal now cfg e status stamps
      ≡ emitted now cfg e dep status project stamps
unfolding notify_deployment_terminal for_row for_project
told now cfg e dep status project stamps (on, row, owner, named, real) =
    rw (on, row, owner, named, real) refl

-- The fix that fits: a pull request on the repository, or a firmware fix where there is none or it has no name
abbrev pub IsFix : Option String → Option Playbook → Type 0
IsFix none playbook = playbook ≡ some submit_firmware_fix
IsFix (some repo) playbook =
    ((repo ≡ "") × (playbook ≡ some submit_firmware_fix))
    ⊎ ((repo ≢ "") × (playbook ≡ some (open_fix_pr repo)))

-- What a prompt asks for: a summary only where a pipeline run is there, else the fix that fits
abbrev pub IsAskedFor : Option Run → Option String → Prompt → Type 0
IsAskedFor run connected prompt =
    ((r : Run) × (run ≡ some r) × (prompt.playbook ≡ none) × (prompt.summarize_only ≡ true))
    ⊎ ((run ≡ none) × IsFix connected prompt.playbook)

IsFix-playbook_for : (connected : Option String) → IsFix connected (some (playbook_for connected))
unfolding playbook_for
IsFix-playbook_for none = refl
IsFix-playbook_for (some repo) = elim (Bool-cases (repo == "")) [
  | inl e ↦ rw e (inl ((eq_iff repo "").0 e, refl))
  | inr e ↦ rw e (inr (λ same. true≢false (sym ((eq_iff repo "").1 same) ∙ e), refl))
]

asked_for :
    (e : Ended) (dep : Deployment) (status : DeploymentStatus) (run : Option Run)
    → e.run ≡ run
    → has_any (failed_jobs e.jobs) ≡ true
    → IsAskedFor e.run e.connected (prompt_of e dep status run)
unfolding prompt_of build_summary_prompt
asked_for e dep status (some run) same bad = inl (run, same, refl, bad)
asked_for e dep status none same bad = inr (same, rw bad (IsFix-playbook_for e.connected))

emits_failure :
    (now : ℕ) (cfg : Settings) (e : Ended) (dep : Deployment) (status : DeploymentStatus)
    (project : String) (stamps : Dict ℕ)
    → has_any (failed_jobs e.jobs) ≡ true
    → emitted now cfg e dep status project stamps
      ≡ (stamps, some (project, prompt_of e dep status e.run))
unfolding emitted
emits_failure now cfg e dep status project stamps bad = rw bad refl

-- A failure of a deployment that has a project, not skipped by the settings, is handed off, however short ago
-- the last hand-off of the project was. With a pipeline run it asks for a summary only and for no fix; without
-- one it asks for a pull request on the connected repository, or for a firmware fix where there is none or it has
-- no name. It does not count for the spacing of later ones.
pub failure_handed_off :
    (now : ℕ) (cfg : Settings) (e : Ended) (dep : Deployment) (status : DeploymentStatus)
    (project : String) (stamps : Dict ℕ)
    → IsTold cfg e dep project
    → some_failed e.jobs ≡ true
    → (prompt : Prompt) × (notify_deployment_terminal now cfg e status stamps
        ≡ (stamps, some (project, prompt)))
      × IsAskedFor e.run e.connected prompt
failure_handed_off now cfg e dep status project stamps t bad =
    let failing = some_failed_lem e.jobs ∙ bad in
    (
      prompt_of e dep status e.run,
      told now cfg e dep status project stamps t
          ∙ emits_failure now cfg e dep status project stamps failing,
      asked_for e dep status e.run refl failing,
    )
