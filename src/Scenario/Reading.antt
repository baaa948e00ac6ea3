-- ===== src/Scenario/Reading.antt =====
-- The read hook of scenario planning, which polls with a growing delay
-- (frontend/lib/scenario-planning/hooks.ts, useScenarioRead). A read that is cancelled is dropped:
-- its signal is aborted and its generation past, so that its answer is ignored.
use reinforcement_learning_c.Prelude.{
  ℕ, ◌+◌, ◌*◌, String, Bool, true, false, ◌&&◌, not, Option, none, some, List, [], ◌∷◌, ◌==◌,
  string_eq, leb, Result, ok, err, ◌>>=◌, ◌>>◌, throw_if, if◌then◌else◌,
}
use reinforcement_learning_c.WorkOrders.Intent.{Actor, same_actor}
use reinforcement_learning_c.Scenario.{ScenarioError}
pub mod Delays

pub data View (T : Type 0) : Type 0 where
  loading : Option T → View T
  ready : T → View T
  error : ScenarioError → View T

-- What the hook waits for: an answer of a read with its delay, or a timer, which starts a read.
pub data Wait : Type 0 where
  nothing : Wait
  answer : (delay : ℕ) → Wait
  timer : (delay next : ℕ) → Wait

pub record Reader (T : Type 0) : Type 0 where
  pub key : String  -- of the render
  pub enabled : Bool
  pub actor : Actor
  pub state_key : String  -- of the state
  pub view : View T
  pub wait : Wait
  pub reads : ℕ

pub data Signal (T : Type 0) : Type 0 where
  effect : (key : String) (actor : Actor) (enabled : Bool) → Signal T
  cleanup : Signal T
  refresh : Signal T  -- also the focus of the window
  access_invalidated : Signal T
  timer_fired : Signal T
  answered : Result ScenarioError T → Result ScenarioError Actor → Signal T

-- `Math.min(delay * 2, 15000)`
unfoldable pub next_delay : ℕ → ℕ
next_delay delay = if leb (delay * 2) 15000 then delay * 2 else 15000

abbrev pub session_error : ScenarioError
session_error = record { status = 401; code = "SESSION_CHANGED" }

module _ {T : Type 0} (polling : T → Bool) where
  abbrev pub data_of : View T → Option T
  data_of (loading d) = d
  data_of (ready d) = some d
  data_of (error e) = none

  -- `load(delay)`
  unfoldable pub load : ℕ → Reader T → Reader T
  load delay r =
      let kept = if r.enabled && r.state_key == r.key then data_of r.view else none in
      let shown : Reader T = record r { state_key = r.key; view = loading kept; wait = nothing } in
      if r.enabled then record shown { wait = answer delay; reads = r.reads + 1 } else shown

  -- The rest of `execute`, and what follows it.
  unfoldable pub verified :
      Actor → Result ScenarioError T → Result ScenarioError Actor → Result ScenarioError T
  verified actor fetched identity = do
    value ← fetched
    current ← identity
    throw_if (not (same_actor current actor)) session_error
    ok value

  unfoldable pub show : ℕ → Result ScenarioError T → Reader T → Reader T
  show delay (ok d) r = record r {
    state_key = r.key;
    view = ready d;
    wait = if polling d then timer delay (next_delay delay) else nothing;
  }
  show delay (err e) r = record r { state_key = r.key; view = error e; wait = nothing }

  unfoldable pub on_answer : Wait → Result ScenarioError T → Reader T → Reader T
  unfolding show
  on_answer (answer delay) outcome r = show delay outcome r
  on_answer _ outcome r = r

  unfoldable pub on_timer : Wait → Reader T → Reader T
  unfolding load
  on_timer (timer delay next) r = load next r
  on_timer _ r = r

  unfoldable pub read_step : Signal T → Reader T → Reader T
  unfolding load on_timer on_answer verified
  read_step (effect key actor enabled) r =
      load 2000 (record r { key = key; actor = actor; enabled = enabled })
  read_step cleanup r = record r { wait = nothing }
  read_step refresh r = load 2000 r
  read_step access_invalidated r = load 2000 (record r { state_key = r.key; view = loading none })
  read_step timer_fired r = on_timer r.wait r
  read_step (answered fetched identity) r = on_answer r.wait (verified r.actor fetched identity) r

  unfoldable pub read_run : List (Signal T) → Reader T → Reader T
  read_run [] r = r
  read_run (s ∷ ss) r = read_run ss (read_step s r)

  -- What the hook returns: a state of another key is not shown.
  unfoldable pub shown_view : Reader T → View T
  shown_view r = if r.state_key == r.key then r.view else loading none
