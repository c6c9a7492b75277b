-- ===== src/Tools/Policy.antt =====
-- The bench's belief and the graph of its transitions, nff/tools/policy.py. The id of a state, a SHA-256
-- digest in hexadecimal cut to 16 characters, is an argument. A graph is in the order of its insertions.
pub mod Accounts
pub mod Belief
use nff_core.Prelude.{
  ℕ, zero, suc, ◌+◌, Bool, true, false, not, ◌&&◌, ◌||◌, Option, none, some, List, [], ◌∷◌, ◌++◌,
  String, ◌==◌, string_eq, if◌then◌else◌, any, update_where,
}

-- "none", "compile:fail", "flash:fail" and "crash:<CrashClass>"
pub data Fault : Type 0 where
  healthy compile_fail flash_fail : Fault
  crash : String → Fault

pub record BenchState : Type 0 where
  pub device : String
  pub fault : Fault

-- The arguments of apply_outcome besides the state; `board` is "" where no device was found
pub record Observed : Type 0 where
  pub tool : String
  pub success : Bool
  pub crash_class : Option String
  pub board : Option String
  pub serial_clean : Bool

-- ACTUATION_TOOLS
unfoldable pub is_actuation : String → Bool
is_actuation tool =
    tool == "compile"
    || tool == "flash"
    || tool == "reset_device"
    || tool == "serial_write"
    || tool == "ota_deploy"

seen_device : Option String → String → String
seen_device none device = device
seen_device (some board) device = if board == "" then "none" else board

after_compile : Bool → Fault → Fault
after_compile true Fault.compile_fail = Fault.healthy
after_compile true fault = fault
after_compile false fault = Fault.compile_fail

after_serial : Fault → Fault
after_serial (Fault.crash c) = Fault.healthy
after_serial fault = fault

tool_fault : Observed → Fault → Fault
unfolding after_compile after_serial
tool_fault o fault =
    if o.tool == "compile"
    then after_compile o.success fault
    else if o.tool == "flash"
    then (if o.success then Fault.healthy else Fault.flash_fail)
    else if o.tool == "serial_read" && o.serial_clean
    then after_serial fault
    else fault

crash_or : Option String → Fault → Fault
crash_or none fault = fault
crash_or (some c) fault = if c == "" then fault else Fault.crash c

-- apply_outcome
unfoldable pub apply_outcome : BenchState → Observed → BenchState
unfolding seen_device tool_fault crash_or
apply_outcome state o = record {
  device = seen_device o.board state.device;
  fault = crash_or o.crash_class (tool_fault o state.fault);
}

pub record Node : Type 0 where
  pub id : String
  pub dims : BenchState
  pub visits : ℕ

pub record Edge : Type 0 where
  pub origin : String
  pub action : String
  pub target : String
  pub count : ℕ
  pub success_count : ℕ
  pub sum_wall_ms : ℕ

pub record Graph : Type 0 where
  pub nodes : List Node
  pub edges : List Edge

-- load_graph where there is no file
unfoldable pub empty_graph : Graph
empty_graph = record { nodes = []; edges = [] }

unfoldable pub visit : String → BenchState → List Node → List Node
visit id state nodes =
    if any (λ (n : Node). n.id == id) nodes
    then update_where (λ (n : Node). n.id == id) (λ n. record n { visits = n.visits + 1 }) nodes
    else nodes ++ record { id = id; dims = state; visits = 1 } ∷ []

is_edge : String → String → String → Edge → Bool
is_edge origin action target e = e.origin == origin && e.action == action && e.target == target

unfoldable pub counted_again : Bool → ℕ → Edge → Edge
counted_again success wall_ms e = record e {
  count = e.count + 1;
  success_count = e.success_count + (if success then 1 else 0);
  sum_wall_ms = e.sum_wall_ms + wall_ms;
}

-- The first edge that matches is counted again; without one, an edge is appended.
unfoldable pub count_edge : String → String → String → Bool → ℕ → List Edge → List Edge
unfolding is_edge
count_edge origin action target success wall_ms [] =
    record {
      origin = origin;
      action = action;
      target = target;
      count = 1;
      success_count = if success then 1 else 0;
      sum_wall_ms = wall_ms;
    }
    ∷ []
count_edge origin action target success wall_ms (e ∷ es) =
    let rest = count_edge origin action target success wall_ms es in
    if is_edge origin action target e then counted_again success wall_ms e ∷ es else e ∷ rest

module _ (id : BenchState → String) where
  -- The skip rule: a pure observation that changed nothing and succeeded
  unfoldable pub is_skipped : BenchState → Observed → BenchState → Bool
  is_skipped pre o post = id pre == id post && not (is_actuation o.tool) && o.success

  -- record_transition
  unfoldable pub record_transition : Graph → BenchState → Observed → ℕ → BenchState → Graph × Bool
  record_transition graph pre o wall_ms post = if is_skipped pre o post then (graph, false) else (
    record {
      nodes = visit (id post) post (visit (id pre) pre graph.nodes);
      edges = count_edge (id pre) o.tool (id post) o.success wall_ms graph.edges;
    },
    true,
  )

  -- observe_tool, up to the directive: the new belief and the graph
  unfoldable pub observe : BenchState × Graph → Observed × ℕ → BenchState × Graph
  observe (pre, graph) (o, wall_ms) =
      let post = apply_outcome pre o in (post, (record_transition graph pre o wall_ms post).0)

  unfoldable pub observe_all : BenchState × Graph → List (Observed × ℕ) → BenchState × Graph
  observe_all s [] = s
  observe_all s (call ∷ calls) = observe_all (observe s call) calls
