-- ===== src/Overview/Reading.antt =====
-- The hook that reads the overview (frontend/lib/operations-api/use-operations-overview.ts): the
-- events are the effect for a factory, its cleanup, a refresh or retry, and the answer of the request
-- under way; an aborted or superseded request brings no event. The texts of the states are left out.
use Prim.Native.String.{[], ◌∷◌}
use Prim.Native.Char.{code}
use reinforcement_learning_c.Prelude.{
  ℕ, ◌+◌, String, Bool, true, false, ◌&&◌, ◌||◌, not, Option, none, some, List, ◌==◌, string_eq,
  nat_eq, is_blank, Result, ok, err, if◌then◌else◌,
}
use reinforcement_learning_c.Overview.{
  Overview, OverviewError, integrity, context_mismatch, validate_overview,
}
pub mod Shown

pub data OverviewThrown : Type 0 where
  invalid : OverviewError → OverviewThrown
  syntax_error auth_redirect_error type_error unknown_error : OverviewThrown
  operations_api_error : (status : ℕ) (code : String) → OverviewThrown  -- "" without a code

pub data OverviewFailure : Type 0 where
  unauthorized forbidden not_found unavailable network_error integrity_error other_context error :
      OverviewFailure

-- `text.startsWith(part)` and `text.includes(part)`
unfoldable pub starts_with : (part text : String) → Bool
starts_with [] text = true
starts_with (c ∷ part) [] = false
starts_with (c ∷ part) (d ∷ text) = code c == code d && starts_with part text

unfoldable pub includes_text : (part text : String) → Bool
includes_text part [] = starts_with part []
includes_text part (d ∷ text) = starts_with part (d ∷ text) || includes_text part text

unfoldable pub api_failure : ℕ → String → OverviewFailure
api_failure status code =
    if status == 401
    then unauthorized
    else if status == 403
    then forbidden
    else if status == 404
    then not_found
    else if status == 503
    then unavailable
    else if status == 200 || includes_text "INTEGRITY" code
    then integrity_error
    else error

-- `failure`
unfoldable pub overview_failure : OverviewThrown → OverviewFailure
unfolding api_failure
overview_failure (invalid context_mismatch) = other_context
overview_failure (invalid integrity) = integrity_error
overview_failure syntax_error = integrity_error
overview_failure auth_redirect_error = unauthorized
overview_failure (operations_api_error status code) = api_failure status code
overview_failure type_error = network_error
overview_failure unknown_error = error

pub data OverviewView : Type 0 where
  loading missing_factory : OverviewView
  ready : Overview → OverviewView
  failed : OverviewFailure → OverviewView

pub record OverviewReader : Type 0 where
  pub factory_id : String  -- of the render
  pub state_factory_id : String  -- of the state
  pub view : OverviewView
  pub reading : Bool  -- whether a request is under way

pub data OverviewEvent : Type 0 where
  effect : (factory_id : String) → OverviewEvent
  cleanup refresh : OverviewEvent
  answered : Result OverviewThrown Overview → OverviewEvent

-- `read`, up to its await.
unfoldable pub start_read : OverviewReader → OverviewReader
start_read r =
    if is_blank r.factory_id
    then record r { state_factory_id = r.factory_id; view = missing_factory; reading = false }
    else record r { state_factory_id = r.factory_id; view = loading; reading = true }

module _ (is_date : String → Bool) where
  -- What the rest of `read` shows.
  unfoldable pub checked_view : Overview → Result OverviewError (Unit {0}) → OverviewView
  checked_view o (ok u) = ready o
  checked_view o (err e) = failed (overview_failure (invalid e))

  unfoldable pub answer_view : Result OverviewThrown Overview → String → OverviewView
  unfolding checked_view
  answer_view (ok o) factory_id = checked_view o (validate_overview is_date o factory_id)
  answer_view (err t) factory_id = failed (overview_failure t)

  unfoldable pub overview_step : OverviewEvent → OverviewReader → OverviewReader
  unfolding start_read
  overview_step (effect factory_id) r = start_read (record r { factory_id = factory_id })
  overview_step cleanup r = record r { reading = false }
  overview_step refresh r = start_read r
  overview_step (answered a) r =
      if r.reading
      then record r {
        state_factory_id = r.factory_id;
        view = answer_view a r.factory_id;
        reading = false;
      }
      else r

  unfoldable pub overview_run : List OverviewEvent → OverviewReader → OverviewReader
  overview_run List.[] r = r
  overview_run (List.◌∷◌ e es) r = overview_run es (overview_step e r)

-- `visible`: a state of another factory is not shown.
unfoldable pub visible : OverviewReader → OverviewView
visible r = if r.state_factory_id == r.factory_id then r.view else loading
