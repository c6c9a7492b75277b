-- ===== src/Ota/Delivery/RateLimit.antt =====
-- Which devices the rate limit holds back.
use nff_core.Prelude.{
  ℕ, ◌+◌, ◌<◌, ◌≡◌, ◌≢◌, ◌↔◌, sym, true, List, String, ◌==◌, string_eq, arith, nat_eqb, any-elim,
  any-Among, Among, Bool-cases, inl, inr, true≢false, eq_iff, ◌∙◌,
}
use nff_core.Ota.Status.{JobStatus, job_eqb_iff, job_status_eq}
use nff_core.Ota.Store.{Job}
use nff_core.Ota.Delivery.{holds_back, is_rate_limited}

-- A job that has left `pending`, of another deployment for this device, that moved within the window.
pub record HoldsBack (now window : ℕ) (own device : String) (j : Job) : Type 0 where
  pub device_id : j.device_id ≡ device
  pub other : j.deployment_id ≢ own
  pub left : j.status ≢ JobStatus.pending
  pub recent : now < j.last_updated + window

holds_back_iff :
    (now window : ℕ) (own device : String) (j : Job)
    → (holds_back now window own device j ≡ true) ↔ HoldsBack now window own device j
unfolding holds_back
holds_back_iff now window own device j =
    let (dev_eq, eq_dev) = eq_iff j.device_id device in
    let (own_eq, eq_own) = eq_iff j.deployment_id own in
    let (pend_eq, eq_pend) = job_eqb_iff j.status JobStatus.pending in
    elim (Bool-cases (j.device_id == device)) [
      | inr e ↦ rw e (
        λ h. absurd (true≢false (sym h)),
        λ h. absurd (true≢false (sym (eq_dev h.device_id) ∙ e)),
      )
      | inl d ↦ elim (Bool-cases (j.deployment_id == own)) [
        | inl o ↦ grind arith
        | inr o ↦ elim (Bool-cases (j.status == JobStatus.pending)) [
          | inl s ↦ grind arith
          | inr s ↦ grind arith
        ]
      ]
    ]

module _ (now window : ℕ) (own : String) (jobs : List Job) (device : String) where
  -- A device is held back exactly if the window is not zero and there is a job of another deployment for it
  -- that has left pending, whatever it became, and that moved within the window.
  pub is_rate_limited_iff :
      (is_rate_limited now window own jobs device ≡ true)
      ↔ ((0 < window) × ((j : Job) × Among j jobs × HoldsBack now window own device j))
  unfolding is_rate_limited
  is_rate_limited_iff = elim (Bool-cases (nat_eqb window 0)) [
    | inl e ↦ rw e (λ h. absurd (true≢false (sym h)), λ h. absurd (ground (arith, h.0)))
    | inr e ↦ rw e (
      λ h.
          let (j, m, t) = any-elim (holds_back now window own device) jobs h in
          (ground arith, (j, m, (holds_back_iff now window own device j).0 t)),
      λ h.
          let (j, m, t) = h.1 in
          any-Among (holds_back now window own device) jobs j m
            ((holds_back_iff now window own device j).1 t),
    )
  ]
