-- ===== src/Ota/Control/Counts.antt =====
-- What the status report counts.
use nff_core.Prelude.{
  ℕ, ◌+◌, ◌≡◌, refl, Bool, true, false, List, [], ◌∷◌, ◌==◌, if◌then◌else◌, arith, count,
}
use nff_core.Ota.Status.{JobStatus, job_status_eq}
use nff_core.Ota.Store.{Job, Deployment}
use nff_core.Ota.Control.{StatusCounts, count_status, status_counts}

-- The states that the report has no column for
abbrev pub is_uncounted : JobStatus → Bool
is_uncounted JobStatus.pending = false
is_uncounted JobStatus.downloading = false
is_uncounted JobStatus.installing = false
is_uncounted JobStatus.rebooting = false
is_uncounted JobStatus.success = false
is_uncounted JobStatus.failure = false
is_uncounted JobStatus.aborted = false
is_uncounted JobStatus.already_installed = false
is_uncounted _ = true

abbrev pub reported : StatusCounts → ℕ
reported c =
    c.pending_count + c.downloading_count + c.installing_count + c.rebooting_count + c.success_count
    + c.failure_count + c.aborted_count + c.already_installed_count

abbrev one : Bool → ℕ
one b = if b then 1 else 0

count-cons : (p : Job → Bool) (j : Job) (js : List Job) → count p (j ∷ js) ≡ one (p j) + count p js
count-cons p j js = ground arith

one_state :
    (s : JobStatus)
    → one (s == JobStatus.pending)
        + one (s == JobStatus.downloading)
        + one (s == JobStatus.installing)
        + one (s == JobStatus.rebooting)
        + one (s == JobStatus.success)
        + one (s == JobStatus.failure)
        + one (s == JobStatus.aborted)
        + one (s == JobStatus.already_installed)
        + one (is_uncounted s)
      ≡ 1
one_state JobStatus.pending = refl
one_state JobStatus.downloading = refl
one_state JobStatus.verifying = refl
one_state JobStatus.installing = refl
one_state JobStatus.rebooting = refl
one_state JobStatus.committed = refl
one_state JobStatus.success = refl
one_state JobStatus.already_installed = refl
one_state JobStatus.failure = refl
one_state JobStatus.rolled_back = refl
one_state JobStatus.aborted = refl
one_state JobStatus.timed_out = refl
one_state JobStatus.decommissioned = refl

-- The eight counts of a status report miss exactly the jobs that were timed out or decommissioned, or
-- stand in a state of another writer.
pub status_counts_total :
    (dep : Deployment) (jobs : List Job)
    → reported (status_counts dep jobs) + count (λ (j : Job). is_uncounted j.status) jobs
      ≡ (status_counts dep jobs).total_count
unfolding status_counts count_status
status_counts_total dep [] = refl
status_counts_total dep (j ∷ js) = omega (
  arith,
  status_counts_total dep js,
  one_state j.status,
  count-cons (λ k. k.status == JobStatus.pending) j js,
  count-cons (λ k. k.status == JobStatus.downloading) j js,
  count-cons (λ k. k.status == JobStatus.installing) j js,
  count-cons (λ k. k.status == JobStatus.rebooting) j js,
  count-cons (λ k. k.status == JobStatus.success) j js,
  count-cons (λ k. k.status == JobStatus.failure) j js,
  count-cons (λ k. k.status == JobStatus.aborted) j js,
  count-cons (λ k. k.status == JobStatus.already_installed) j js,
  count-cons (λ k. is_uncounted k.status) j js,
)
