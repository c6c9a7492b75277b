-- ===== src/Ota/FixQueue/Attempts.antt =====
-- How often a fix is built, and by whom.
use nff_core.Prelude.{
  ℕ, ◌≤◌, ◌<◌, ◌≡◌, refl, ap, ◌∙◌, subst, Bool, true, Option, none, some, List, [], ◌∷◌, String,
  ◌==◌, string_eq, arith, leb, any, select, update_where, map, All, All-rows, All-among, All-weaken,
  Among, Among-select, Option-cases, Distinct, unique_row, Bool-cases, inl, inr,
}
use nff_core.Ota.FixQueue.Claims.{probe-Among}
use nff_core.Ota.FixQueue.{
  is_pending, FixJob, is_stale, is_running_row, requeued, reclaim_each, reclaim_stale, probe,
  is_claimable, claimed, claim, claim_probed, claim_next, finished_row, finish, Built, verdict_of,
  run_claimed, fix_sweep,
}

-- No job has run more often than allowed, and one that waits may run again.
pub record WithinLimit (max_attempts : ℕ) (j : FixJob) : Type 0 where
  pub ran : j.attempts ≤ max_attempts
  pub may_run : is_pending j.status ≡ true → j.attempts < max_attempts

running_id : (id : String) (x : FixJob) → is_running_row id x ≡ true → (x.id == id) ≡ true
unfolding is_running_row
running_id id x h = ground arith

ended : (b : Built) → is_pending (verdict_of b).status ≡ true → ⊥
ended b h = ground arith

module _ (m : ℕ) where
  All-update_where :
      (P : FixJob → Type 0) (p : FixJob → Bool) (f : FixJob → FixJob) (q : List FixJob)
      → ((x : FixJob) → p x ≡ true → P x → P (f x))
      → All P q
      → All P (update_where p f q)
  All-update_where P p f [] s h = tt
  All-update_where P p f (x ∷ xs) s h = (
    elim (Bool-cases (p x)) [ inl e ↦ rw e (s x e h.0) | inr e ↦ rw e h.0 ],
    All-update_where P p f xs s h.1,
  )

  claim-WithinLimit :
      (now : ℕ) (job : FixJob) (q : List FixJob)
      → job.attempts < m
      → All (WithinLimit m) q
      → All (WithinLimit m) (claim now job q).0
  unfolding claim
  claim-WithinLimit now job q lt h = elim (Bool-cases (any (is_claimable job.id) q)) [
    | inr e ↦ rw e h
    | inl e ↦ rw e (
        All-update_where (WithinLimit m) (is_claimable job.id) (claimed now job.attempts) q
          (λ x t w. unfold claimed in record { ran = omega arith; may_run = λ p. cc }) h)
  ]

  claim_next-WithinLimit :
      (now : ℕ) (q : List FixJob) → All (WithinLimit m) q → All (WithinLimit m) (claim_next now q).0
  unfolding claim_next
  claim_next-WithinLimit now q h = elim (Option-cases (probe q)) [
    | inl e ↦ rw (e, claim_probed) h
    | inr (job, e) ↦
        let (found, waits) = probe-Among q job e in
        rw (e, claim_probed)
          (claim-WithinLimit now job q ((All-among (WithinLimit m) q job h found).may_run waits) h)
  ]

  -- The rows that a stale job's id finds have its attempts.
  abbrev Agrees : List FixJob → FixJob → Type 0
  Agrees [] r = Unit
  Agrees (j ∷ js) r = ((r.id == j.id) ≡ true → r.attempts ≡ j.attempts) × Agrees js r

  Agrees-same :
      (js : List FixJob) (r k : FixJob)
      → k.id ≡ r.id
      → k.attempts ≡ r.attempts
      → Agrees js r
      → Agrees js k
  Agrees-same [] r k e f h = tt
  Agrees-same (j ∷ js) r k e f h =
      (λ t. f ∙ h.0 (subst (λ s. (s == j.id) ≡ true) e t), Agrees-same js r k e f h.1)

  requeued-Agrees :
      (now n : ℕ) (js : List FixJob) (r : FixJob) → Agrees js r → Agrees js (requeued now m n r)
  unfolding requeued
  requeued-Agrees now n js r h =
      Agrees-same js r (requeued now m n r) (ground arith) (ground arith) h

  requeued-WithinLimit :
      (now : ℕ) (j r : FixJob)
      → r.attempts ≡ j.attempts
      → WithinLimit m r
      → WithinLimit m (requeued now m j.attempts r)
  unfolding requeued
  requeued-WithinLimit now j r same w = elim (Bool-cases (leb m j.attempts)) [
    | inl e ↦ rw e (record { ran = w.ran; may_run = λ p. cc })
    | inr e ↦ rw e (record { ran = w.ran; may_run = λ p. ground arith })
  ]

  reclaim_each-WithinLimit :
      (now : ℕ) (js q : List FixJob)
      → All (λ r. WithinLimit m r × Agrees js r) q
      → All (WithinLimit m) (reclaim_each now m js q)
  unfolding reclaim_each
  reclaim_each-WithinLimit now [] q h = All-weaken q (λ r p. p.0) h
  reclaim_each-WithinLimit now (j ∷ js) q h =
      reclaim_each-WithinLimit now js
        (update_where (is_running_row j.id) (requeued now m j.attempts) q)
        (All-weaken (update_where (is_running_row j.id) (requeued now m j.attempts) q)
          (λ r w. (w.0, w.1.1))
          (All-update_where (λ r. WithinLimit m r × Agrees (j ∷ js) r) (is_running_row j.id)
            (requeued now m j.attempts) q
            (λ x t w. (
              requeued-WithinLimit now j x (w.1.0 (running_id j.id x t)) w.0,
              requeued-Agrees now j.attempts (j ∷ js) x w.1,
            ))
            h))

  stale-Agrees :
      (js q : List FixJob) (r : FixJob)
      → ((j : FixJob) → Among j js → Among j q)
      → Distinct (map (λ (j : FixJob). j.id) q)
      → Among r q
      → Agrees js r
  stale-Agrees [] q r sub keys found = tt
  stale-Agrees (j ∷ js) q r sub keys found = (
    λ t.
        ap (λ (x : FixJob). x.attempts)
          (All-among (λ (y : FixJob). (y.id == j.id) ≡ true → y ≡ j) q r
            (unique_row (λ (y : FixJob). y.id) j q keys (sub j (inl refl))) found t),
    stale-Agrees js q r (λ k n. sub k (inr n)) keys found,
  )

  reclaim_stale-WithinLimit :
      (now stale : ℕ) (q : List FixJob)
      → Distinct (map (λ (j : FixJob). j.id) q)
      → All (WithinLimit m) q
      → All (WithinLimit m) (reclaim_stale now stale m q).0
  unfolding reclaim_stale
  reclaim_stale-WithinLimit now stale q keys h =
      reclaim_each-WithinLimit now (select (is_stale now stale) q) q (
        All-rows _ q (λ r found. (
          All-among (WithinLimit m) q r h found,
          stale-Agrees (select (is_stale now stale) q) q r
              (λ j n. (Among-select (is_stale now stale) q j n).0) keys found,
        )))

  finish-WithinLimit :
      (now : ℕ) (id : String) (b : Built) (q : List FixJob)
      → All (WithinLimit m) q
      → All (WithinLimit m) (finish now id (verdict_of b) q)
  unfolding finish finished_row
  finish-WithinLimit now id b q h =
      All-update_where (WithinLimit m) (λ j. j.id == id) (finished_row now (verdict_of b)) q
        (λ x t w. record { ran = w.ran; may_run = λ p. absurd (ended b p) }) h

  run_claimed-WithinLimit :
      (now : ℕ) (build : FixJob → Built) (q : List FixJob) (o : Option FixJob)
      → All (WithinLimit m) q
      → All (WithinLimit m) (run_claimed now build (q, o)).0
  unfolding run_claimed
  run_claimed-WithinLimit now build q none h = h
  run_claimed-WithinLimit now build q (some job) h = finish-WithinLimit now job.id (build job) q h

  -- With distinct ids, a sweep of the worker keeps every job within the allowed number of runs, whatever
  -- its build does, and every waiting job strictly below it.
  pub fix_sweep-WithinLimit :
      (now stale : ℕ) (build : FixJob → Built) (q : List FixJob)
      → Distinct (map (λ (j : FixJob). j.id) q)
      → All (WithinLimit m) q
      → All (WithinLimit m) (fix_sweep now stale m build q).0
  unfolding fix_sweep
  fix_sweep-WithinLimit now stale build q keys h =
      let after = claim_next now (reclaim_stale now stale m q).0 in
      run_claimed-WithinLimit now build after.0 after.1 (
        claim_next-WithinLimit now (reclaim_stale now stale m q).0
          (reclaim_stale-WithinLimit now stale q keys h))
