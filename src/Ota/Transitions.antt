-- ===== src/Ota/Transitions.antt =====
-- observability/nff-ota/nff_ota/transitions.py: the legal status changes, keyed by words.
pub mod Graph
use nff_core.Prelude.{
  String, ◌≡◌, refl, Bool, true, false, ◌||◌, Option, none, some, List, [], ◌∷◌, any, ◌==◌,
  string_eq, if◌then◌else◌, Result, ok, err,
}

abbrev pub Registry : Type 0
Registry = List (String × List String)

-- DEVICE_TRANSITIONS
pub device_transitions : Registry
device_transitions =
    ("pending", "accepted" ∷ "rejected" ∷ [])
    ∷ ("preauthorized", "accepted" ∷ [])
    ∷ ("accepted", "rejected" ∷ "decommissioned" ∷ [])
    ∷ ("rejected", "accepted" ∷ [])
    ∷ ("decommissioned", [])
    ∷ []

-- DEPLOYMENT_TRANSITIONS
pub deployment_transitions : Registry
deployment_transitions =
    ("scheduled", "active" ∷ "aborted" ∷ [])
    ∷ ("active", "paused" ∷ "finished" ∷ "aborted" ∷ [])
    ∷ ("paused", "active" ∷ "aborted" ∷ [])
    ∷ ("finished", [])
    ∷ ("aborted", [])
    ∷ []

-- DEVICE_DEPLOYMENT_TRANSITIONS
pub device_deployment_transitions : Registry
device_deployment_transitions =
    ("pending", "downloading" ∷ "aborted" ∷ "decommissioned" ∷ [])
    ∷ ("downloading", "installing" ∷ "failure" ∷ "aborted" ∷ [])
    ∷ ("installing", "rebooting" ∷ "failure" ∷ "aborted" ∷ [])
    ∷ ("rebooting", "success" ∷ "failure" ∷ "aborted" ∷ [])
    ∷ ("success", [])
    ∷ ("failure", "pending" ∷ [])
    ∷ ("already-installed", [])
    ∷ ("aborted", [])
    ∷ ("decommissioned", [])
    ∷ []

-- `d.get(key, set())`
pub targets : String → Registry → List String
targets key [] = []
targets key ((k, ts) ∷ rest) = let others = targets key rest in if k == key then ts else others

-- _REGISTRIES.get(entity)
pub registry_of : String → Option Registry
unfolding device_transitions deployment_transitions device_deployment_transitions
registry_of entity =
    if entity == "device"
    then some device_transitions
    else if entity == "deployment"
    then some deployment_transitions
    else if entity == "device_deployment"
    then some device_deployment_transitions
    else none

-- The two `ValueError`s, with the values that their messages show.
pub data TransitionError : Type 0 where
  unknown_entity : String → TransitionError
  illegal : String → String → String → List String → TransitionError

checked : String → String → String → Option Registry → Result TransitionError (Unit {0})
unfolding targets
checked entity current target none = err (unknown_entity entity)
checked entity current target (some registry) =
    let allowed = targets current registry in
    if any (λ t. t == target) allowed then ok tt else err (illegal entity current target allowed)

unfoldable pub validate_transition : String → String → String → Result TransitionError (Unit {0})
unfolding registry_of checked
validate_transition entity current target = checked entity current target (registry_of entity)
