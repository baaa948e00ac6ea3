-- ===== src/Scenario.antt =====
-- Scenario planning: the draft form (frontend/lib/scenario-planning/inputs.ts) and, in
-- Scenario/Context, the check that a job belongs to its workspace (client.ts). Instants are
-- milliseconds since the epoch, which `Date.parse` gives of the texts that the schema admits; the
-- schema's verdict and the check of the weights, which are floating-point numbers, are arguments.
use reinforcement_learning_c.Prelude.{
  ℕ, String, Bool, true, false, ◌&&◌, ◌||◌, not, Option, none, some, List, [], ◌∷◌, ◌==◌, string_eq,
  nat_eq, leb, ltb, any, trim, Result, ok, err, ◌>>=◌, ◌>>◌, throw_if, if◌then◌else◌,
}
pub mod Inputs
pub mod Context
pub mod Reading
pub mod Writing
mod Tests

pub record ScenarioError : Type 0 where
  pub status : ℕ
  pub code : String

abbrev pub bad_input : String → ScenarioError
bad_input code = record { status = 400; code = code }

pub data Override : Type 0 where
  technician_unavailable : (technician_id : String) (start_at end_at : ℕ) → Override
  defer_maintenance : (maintenance_request_id : String) (earliest_start_at : ℕ) → Override
  maintenance_duration : (maintenance_request_id : String) (minutes : ℕ) → Override

pub record MaintenanceRequest : Type 0 where
  pub maintenance_request_id : String
  pub status : String

pub record Baseline : Type 0 where
  pub start_at : ℕ
  pub end_at : ℕ
  pub technicians : List String  -- the ids; none where the member is absent
  pub maintenance_requests : List MaintenanceRequest

pub record Draft : Type 0 where
  pub name : String
  pub note : String
  pub overrides : List Override

abbrev pub target : Override → String
target (technician_unavailable t s e) = t
target (defer_maintenance r s) = r
target (maintenance_duration r m) = r

-- Whether two overrides have one key `type:target`; no type has a colon in it.
unfoldable pub same_override : Override → Override → Bool
same_override (technician_unavailable a s e) (technician_unavailable b s' e') = a == b
same_override (defer_maintenance a s) (defer_maintenance b s') = a == b
same_override (maintenance_duration a m) (maintenance_duration b m') = a == b
same_override _ _ = false

-- A request with the id that is neither completed nor cancelled.
abbrev pub is_open_request : String → MaintenanceRequest → Bool
is_open_request id r =
    r.maintenance_request_id == id && not (r.status == "COMPLETED" || r.status == "CANCELLED")

unfoldable pub has_target : Baseline → Override → Bool
has_target b (technician_unavailable t s e) = any (λ id. id == t) b.technicians
has_target b (defer_maintenance r s) = any (is_open_request r) b.maintenance_requests
has_target b (maintenance_duration r m) = any (is_open_request r) b.maintenance_requests

unfoldable pub is_bad_window : Baseline → Override → Bool
is_bad_window b (technician_unavailable t s e) = ltb s b.start_at || ltb b.end_at e || leb e s
is_bad_window b (defer_maintenance r s) = ltb s b.start_at || leb b.end_at s
is_bad_window b (maintenance_duration r m) = false

-- The loop over the overrides; `seen` are those before.
unfoldable pub validate_overrides :
    Baseline → List Override → List Override → Result ScenarioError (Unit {0})
validate_overrides b seen [] = ok tt
validate_overrides b seen (o ∷ os) = do
  let rest = validate_overrides b (o ∷ seen) os
  throw_if (any (λ p. same_override p o) seen) (bad_input "DUPLICATE_OVERRIDE")
  throw_if (not (has_target b o)) (bad_input "INVALID_TARGET")
  throw_if (is_bad_window b o) (bad_input "INVALID_WINDOW")
  rest

-- `validateDraft`: `fits_schema` says of the trimmed draft what `matchesScenarioSchema` says, and
-- `weights` is the outcome of `validateWeights`.
unfoldable pub validate_draft :
    (fits_schema : Draft → Bool) (weights : Result ScenarioError (Unit {0}))
    → Draft
    → Baseline
    → Result ScenarioError Draft
validate_draft fits_schema weights input b = do
  let draft = record input { name = trim input.name; note = trim input.note }
  throw_if (not (fits_schema draft)) (bad_input "INVALID_INPUT")
  weights
  validate_overrides b [] draft.overrides
  ok draft
