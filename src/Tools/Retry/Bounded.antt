-- ===== src/Tools/Retry/Bounded.antt =====
-- How often a command runs, and which of its outcomes is the answer.
use nff_core.Prelude.{
  ℕ, zero, suc, ◌+◌, ◌-◌, ◌≤◌, ◌<◌, ◌≡◌, ◌⊎◌, refl, sym, Bool, true, false, not, ◌&&◌, List, [],
  ◌∷◌, arith, inl, inr, count, length, min, get_elem?, some, Bool-cases, Option-cases, subst,
}
use nff_core.Tools.Retry.{
  RunResult, Action, attempted, announced, recovered, slept, Ended, returned, index_error,
  delay_for, run_from, run_with_retry, stream_from, stream_with_retry, return_code,
}

abbrev is_attempt : {Output : Type 0} → Action Output → Bool
is_attempt (attempted i) = true
is_attempt _ = false

abbrev pub attempts : {Output : Type 0} → List (Action Output) → ℕ
attempts trace = count is_attempt trace

get_elem?-some :
    {A : Type 0} (xs : List A) (i : ℕ) → i < length xs → (x : A) × (get_elem? xs i ≡ some x)
get_elem?-some [] i h = absurd (omega arith)
get_elem?-some (x ∷ xs) zero h = (x, refl)
get_elem?-some (x ∷ xs) (suc i) h = get_elem?-some xs i (omega arith)

-- With a backoff there is a delay for every attempt.
delay : (i : ℕ) (backoff : List ℕ) → 0 < length backoff → (d : ℕ) × (delay_for i backoff ≡ some d)
unfolding delay_for
delay i backoff h = get_elem?-some backoff (min i (length backoff - 1)) (omega arith)

worth : (s c : Bool) → (not s && c) ≡ true → (s ≡ false) × (c ≡ true)
worth s c h = ground arith

done : (s c : Bool) (L : Type 0) → (not s && c) ≡ false → (s ≡ true) ⊎ (c ≡ false) ⊎ L
done true c L h = inl refl
done false c L h = inr (inl h)

lt-or_eq : (n i : ℕ) → n < i + 1 → (n < i) ⊎ (n ≡ i)
lt-or_eq n i h = ground arith

module _ {Output : Type 0} (attempt : ℕ → RunResult Output) (classify : Output → Bool)
    (backoff : List ℕ) where
  -- The answer is the k-th attempt: all before it failed in a way worth a retry, and it did not, or it
  -- was the last.
  pub record Stops (retries k : ℕ) : Type 0 where
    pub bound : k ≤ retries
    pub earlier :
        (i : ℕ) → i < k → ((attempt i).success ≡ false) × (classify (attempt i).output ≡ true)
    pub reason :
        ((attempt k).success ≡ true) ⊎ (classify (attempt k).output ≡ false) ⊎ (k ≡ retries)

  abbrev Retried : ℕ → Type 0
  Retried i = ((attempt i).success ≡ false) × (classify (attempt i).output ≡ true)

  extend : (i : ℕ) → ((n : ℕ) → n < i → Retried n) → Retried i → (n : ℕ) → n < i + 1 → Retried n
  extend i before now n h = elim (lt-or_eq n i h) [
    | inl lt ↦ before n lt
    | inr e ↦ subst Retried (sym e) now
  ]

  abbrev Answer : ℕ → ℕ → Ended (RunResult Output) × List (Action Output) → Type 0
  Answer retries i r =
      (k : ℕ) × (r.0 ≡ returned (attempt k)) × Stops retries k × (attempts r.1 ≡ k + 1)

  stops_here :
      (retries i : ℕ) (trace : List (Action Output))
      → i ≤ retries
      → ((n : ℕ) → n < i → Retried n)
      → attempts trace ≡ i
      → ((attempt i).success ≡ true) ⊎ (classify (attempt i).output ≡ false) ⊎ (i ≡ retries)
      → Answer retries i (returned (attempt i), attempted i ∷ trace)
  stops_here retries i trace le before n why =
      (i, refl, record { bound = le; earlier = before; reason = why }, omega arith)

  answers :
      (retries i left : ℕ) (trace : List (Action Output))
      → 0 < length backoff
      → i + left ≡ retries
      → ((n : ℕ) → n < i → Retried n)
      → attempts trace ≡ i
      → Answer retries i (run_from attempt classify backoff i left trace)
  unfolding run_from
  answers retries i zero trace some_delay sum before n =
      stops_here retries i trace (omega arith) before n (inr (inr (omega arith)))
  answers retries i (suc left) trace some_delay sum before n =
      elim (Bool-cases (not (attempt i).success && classify (attempt i).output)) [
        | inr e ↦
            rw (e, run_from)
              (stops_here retries i trace (omega arith) before n
                (done (attempt i).success (classify (attempt i).output) (i ≡ retries) e))
        | inl e ↦
            let (d, at) = delay i backoff some_delay in
            rw (e, run_from, at)
              (answers retries (i + 1) left
                (slept d ∷ recovered (attempt i).output ∷ announced (i + 1) ∷ attempted i ∷ trace)
                some_delay (omega arith)
                (extend i before (worth (attempt i).success (classify (attempt i).output) e))
                (omega arith))
      ]

  -- With a backoff, a command is run at most once more than the retries, and the answer is the first
  -- outcome that succeeds or is no transient failure, else the last one.
  pub run_with_retry_answer :
      (retries : ℕ)
      → 0 < length backoff
      → (k : ℕ) × ((run_with_retry attempt classify backoff retries).0 ≡ returned (attempt k))
        × Stops retries k
        × (attempts (run_with_retry attempt classify backoff retries).1 ≡ k + 1)
  unfolding run_with_retry
  run_with_retry_answer retries h =
      answers retries 0 retries [] h (omega arith) (λ n lt. absurd (omega arith)) refl

  abbrev pub code_of : Ended (RunResult Output) → Ended ℕ
  code_of (returned r) = returned (return_code attempt classify backoff r)
  code_of index_error = index_error

  stream_from_lem :
      (i left : ℕ) (xs ys : List (Action Output))
      → (stream_from attempt classify backoff i left xs).0
        ≡ code_of (run_from attempt classify backoff i left ys).0
  unfolding stream_from run_from
  stream_from_lem i zero xs ys = refl
  stream_from_lem i (suc left) xs ys =
      elim (Bool-cases (not (attempt i).success && classify (attempt i).output)) [
        | inr e ↦ rw (e, stream_from, run_from) refl
        | inl e ↦ elim (Option-cases (delay_for i backoff)) [
          | inl none_left ↦ rw (e, stream_from, run_from, none_left) refl
          | inr d ↦ rw (e, stream_from, run_from, d.1) (stream_from_lem (i + 1) left _ _)
        ]
      ]

  -- The streaming driver ends as the other one does, with its outcome's return code.
  pub stream_with_retry_code :
      (retries : ℕ)
      → (stream_with_retry attempt classify backoff retries).0
        ≡ code_of (run_with_retry attempt classify backoff retries).0
  unfolding stream_with_retry run_with_retry
  stream_with_retry_code retries = stream_from_lem 0 retries [] []
