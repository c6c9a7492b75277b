-- ===== src/Tools/Policy/Accounts.antt =====
-- What the graph counts.
use nff_core.Prelude.{
  ℕ, ◌+◌, ◌≤◌, ◌<◌, ◌≡◌, refl, Bool, List, [], ◌∷◌, String, string_eq, if◌then◌else◌, arith, All,
  Bool-cases, inl, inr,
}
use nff_core.Tools.Policy.{
  BenchState, Observed, Edge, Graph, is_edge, counted_again, count_edge, is_skipped,
  record_transition, apply_outcome, observe, observe_all,
}

-- The calls that the edges stand for
abbrev pub recorded : List Edge → ℕ
recorded [] = 0
recorded (e ∷ es) = e.count + recorded es

-- No edge without a call, and no more successes than calls
abbrev pub Sound : Edge → Type 0
Sound e = (0 < e.count) × (e.success_count ≤ e.count)

count_edge-recorded :
    (o a t : String) (s : Bool) (w : ℕ) (es : List Edge)
    → recorded (count_edge o a t s w es) ≡ recorded es + 1
unfolding count_edge counted_again
count_edge-recorded o a t s w [] = refl
count_edge-recorded o a t s w (e ∷ es) = elim (Bool-cases (is_edge o a t e)) [
  | inl h ↦ rw h (omega arith)
  | inr h ↦ rw h (omega (arith, count_edge-recorded o a t s w es))
]

count_edge-Sound :
    (o a t : String) (s : Bool) (w : ℕ) (es : List Edge)
    → All Sound es
    → All Sound (count_edge o a t s w es)
unfolding count_edge counted_again
count_edge-Sound o a t s w [] h = (ground arith, tt)
count_edge-Sound o a t s w (e ∷ es) h = elim (Bool-cases (is_edge o a t e)) [
  | inl m ↦ rw m (ground (arith, h.0), h.1)
  | inr m ↦ rw m (h.0, count_edge-Sound o a t s w es h.1)
]

module _ (id : BenchState → String) where
  -- The calls of a session that the skip rule lets through
  abbrev pub kept : BenchState → List (Observed × ℕ) → ℕ
  kept pre [] = 0
  kept pre ((o, w) ∷ calls) =
      (if is_skipped id pre o (apply_outcome pre o) then 0 else 1)
      + kept (apply_outcome pre o) calls

  step_recorded :
      (graph : Graph) (pre : BenchState) (o : Observed) (w : ℕ) (post : BenchState)
      → recorded (record_transition id graph pre o w post).0.edges
        ≡ recorded graph.edges + (if is_skipped id pre o post then 0 else 1)
  unfolding record_transition
  step_recorded graph pre o w post = elim (Bool-cases (is_skipped id pre o post)) [
    | inl h ↦ rw h (omega arith)
    | inr h ↦ rw h (count_edge-recorded (id pre) o.tool (id post) o.success w graph.edges)
  ]

  step_Sound :
      (graph : Graph) (pre : BenchState) (o : Observed) (w : ℕ) (post : BenchState)
      → All Sound graph.edges
      → All Sound (record_transition id graph pre o w post).0.edges
  unfolding record_transition
  step_Sound graph pre o w post h = elim (Bool-cases (is_skipped id pre o post)) [
    | inl m ↦ rw m h
    | inr m ↦ rw m (count_edge-Sound (id pre) o.tool (id post) o.success w graph.edges h)
  ]

  -- Over a session, the counts of the edges grow by exactly the calls that the skip rule lets through.
  pub observe_all_accounts :
      (calls : List (Observed × ℕ)) (pre : BenchState) (graph : Graph)
      → recorded (observe_all id (pre, graph) calls).1.edges ≡ recorded graph.edges + kept pre calls
  unfolding observe_all observe
  observe_all_accounts [] pre graph = omega arith
  observe_all_accounts ((o, w) ∷ calls) pre graph =
      let post = apply_outcome pre o in
      let next = (record_transition id graph pre o w post).0 in
      omega (arith, observe_all_accounts calls post next, step_recorded graph pre o w post)

  -- No session makes an edge with more successes than calls, or without a call.
  pub observe_all-Sound :
      (calls : List (Observed × ℕ)) (pre : BenchState) (graph : Graph)
      → All Sound graph.edges
      → All Sound (observe_all id (pre, graph) calls).1.edges
  unfolding observe_all observe
  observe_all-Sound [] pre graph h = h
  observe_all-Sound ((o, w) ∷ calls) pre graph h =
      let post = apply_outcome pre o in
      observe_all-Sound calls post (record_transition id graph pre o w post).0
        (step_Sound graph pre o w post h)
