-- ===== src/Overview/Basis.antt =====
-- The hook that reads the factory's snapshot and published schedule together
-- (frontend/lib/operations-api/use-operations-context.ts). The events are the effect for a factory,
-- its cleanup, a retry, a change that some factory announces, and the outcome of the two requests
-- under way: both answers, or the first failure. An aborted read brings no event.
use reinforcement_learning_c.Prelude.{
  ℕ, String, Bool, true, false, ◌&&◌, ◌||◌, not, Option, none, some, List, [], ◌∷◌, ◌==◌, string_eq,
  nat_eq, if◌then◌else◌,
}
use reinforcement_learning_c.Preview.Reads.{SnapshotResponse, ScheduleResponse}
pub mod Consistent

pub data ContextThrown : Type 0 where
  auth_redirect_error : ContextThrown
  operations_api_error : (status : ℕ) → ContextThrown
  other_error : ContextThrown

pub data ContextState : Type 0 where
  loading unauthorized unavailable network_error mismatch error : ContextState
  ready : SnapshotResponse → ScheduleResponse → ContextState

-- `failureState`, without the texts.
unfoldable pub context_failure : ContextThrown → ContextState
context_failure auth_redirect_error = unauthorized
context_failure (operations_api_error status) =
    if status == 401 || status == 403
    then unauthorized
    else if status == 404
    then unavailable
    else if status == 503
    then unavailable
    else error
context_failure other_error = network_error

unfoldable pub is_mixed_read : SnapshotResponse → ScheduleResponse → Bool
is_mixed_read n c = not (n.snapshot_id == c.snapshot_id) || not (n.plan_version == c.plan_version)

unfoldable pub loaded_state : SnapshotResponse → ScheduleResponse → ContextState
loaded_state n c = if is_mixed_read n c then mismatch else ready n c

pub record ContextHook : Type 0 where
  pub factory_id : String
  pub state : ContextState
  pub reading : Bool

pub data ContextEvent : Type 0 where
  effect : (factory_id : String) → ContextEvent
  cleanup retry : ContextEvent
  changed : (factory_id : String) → ContextEvent
  loaded : SnapshotResponse → ScheduleResponse → ContextEvent
  thrown : ContextThrown → ContextEvent

-- The effect aborts the read before, and starts one from the loading state.
unfoldable pub load_context : ContextHook → ContextHook
load_context h = record h { state = loading; reading = true }

unfoldable pub settle_context : ContextState → ContextHook → ContextHook
settle_context s h = if h.reading then record h { state = s; reading = false } else h

unfoldable pub context_step : ContextEvent → ContextHook → ContextHook
unfolding load_context settle_context context_failure loaded_state
context_step (effect factory_id) h = load_context (record h { factory_id = factory_id })
context_step cleanup h = record h { reading = false }
context_step retry h = load_context h
context_step (changed factory_id) h = if factory_id == h.factory_id then load_context h else h
context_step (loaded n c) h = settle_context (loaded_state n c) h
context_step (thrown t) h = settle_context (context_failure t) h

unfoldable pub context_run : List ContextEvent → ContextHook → ContextHook
context_run [] h = h
context_run (e ∷ es) h = context_run es (context_step e h)
