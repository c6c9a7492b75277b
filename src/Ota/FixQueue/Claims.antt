-- ===== src/Ota/FixQueue/Claims.antt =====
-- Who gets a waiting fix.
use nff_core.Prelude.{
  ℕ, ◌≡◌, refl, Bool, true, false, Option, none, some, List, [], ◌∷◌, String, string_eq, arith, any,
  update_where, Among, Among-select, any-update_where, any-Among, Bool-cases, inl, inr, ◌⊎◌, eq_iff,
  some_inj, none≢some,
}
use nff_core.Ota.FixQueue.{
  is_pending, FixJob, is_running_row, older, oldest, probe, is_claimable, claimed, claim,
}

older_cases :
    (j : FixJob) (o : Option FixJob) (x : FixJob) → older j o ≡ some x → (j ≡ x) ⊎ (o ≡ some x)
unfolding older
older_cases j none x h = inl (some_inj h)
older_cases j (some k) x h = ground arith

oldest-Among : (js : List FixJob) (x : FixJob) → oldest js ≡ some x → Among x js
unfolding oldest
oldest-Among [] x h = absurd (none≢some h)
oldest-Among (j ∷ js) x h = elim (older_cases j (oldest js) x h) [
  | inl e ↦ inl e
  | inr e ↦ inr (oldest-Among js x e)
]

pub probe-Among :
    (q : List FixJob) (x : FixJob) → probe q ≡ some x → Among x q × (is_pending x.status ≡ true)
unfolding probe
probe-Among q x h = Among-select (λ (j : FixJob). is_pending j.status) q x (oldest-Among _ x h)

unclaimed :
    (now n : ℕ) (id : String) (x : FixJob)
    → is_claimable id x ≡ true
    → is_claimable id (claimed now n x) ≡ false
unfolding is_claimable claimed
unclaimed now n id x h = ground arith

runs :
    (now n : ℕ) (id : String) (x : FixJob)
    → is_claimable id x ≡ true
    → is_running_row id (claimed now n x) ≡ true
unfolding is_claimable claimed is_running_row
runs now n id x h = ground arith

any-updated :
    (p q : FixJob → Bool) (f : FixJob → FixJob) (xs : List FixJob)
    → ((x : FixJob) → p x ≡ true → q (f x) ≡ true)
    → any p xs ≡ true
    → any q (update_where p f xs) ≡ true
any-updated p q f [] s h = h
any-updated p q f (x ∷ xs) s h = elim (Bool-cases (p x)) [
  | inl e ↦ rw (e, s x e) refl
  | inr e ↦ elim (Bool-cases (q x)) [
    | inl t ↦ rw (e, t) refl
    | inr t ↦ rw (e, t) (any-updated p q f xs s (rw e at h))
  ]
]

claimable : (job : FixJob) → is_pending job.status ≡ true → is_claimable job.id job ≡ true
unfolding is_claimable
claimable job h = rw ((eq_iff job.id job.id).1 refl, h) refl

-- Two workers that both probed a job before either claimed it: the first claim sets it running, and the
-- second one gets nothing and changes nothing.
pub claim_once :
    (now later : ℕ) (job : FixJob) (queue : List FixJob)
    → probe queue ≡ some job
    → (any (is_running_row job.id) (claim now job queue).0 ≡ true)
      × (claim later job (claim now job queue).0 ≡ ((claim now job queue).0, none))
unfolding claim
claim_once now later job queue h =
    let (m, waits) = probe-Among queue job h in
    let there : any (is_claimable job.id) queue ≡ true =
      any-Among (is_claimable job.id) queue job m (claimable job waits) in
    let gone =
      any-update_where (is_claimable job.id) (claimed now job.attempts) queue
        (unclaimed now job.attempts job.id) in
    rw there (
      any-updated (is_claimable job.id) (is_running_row job.id) (claimed now job.attempts) queue
          (runs now job.attempts job.id) there,
      rw gone refl,
    )
