-- ===== src/Scenario/Writing.antt =====
-- The write hook of scenario planning (frontend/lib/scenario-planning/hooks.ts, useScenarioIntent),
-- with the memory that all such hooks share. The events are those of the work orders' hook; an
-- execution that the cleanup cancelled is dropped, and the callbacks return.
use reinforcement_learning_c.Prelude.{
  ℕ, String, Bool, true, false, ◌&&◌, ◌||◌, not, Option, none, some, List, [], ◌∷◌, ◌==◌, string_eq,
  nat_eq, leb, ltb, is_some, lookup, insert, remove, if◌then◌else◌,
}
use reinforcement_learning_c.WorkOrders.Intent.{Actor, same_actor, is_changed}
use reinforcement_learning_c.Scenario.{ScenarioError}
use reinforcement_learning_c.Scenario.Reading.{session_error}
pub mod Settled
mod Tests

-- The `rejection` of an intent, which changes, is kept beside it under the intent's key.
pub record FrozenIntent (T : Type 0) : Type 0 where
  pub key : String
  pub body : T

-- `intents` and `identityScope`.
pub record ScenarioMemory (T : Type 0) : Type 0 where
  pub intents : List (String × FrozenIntent T)
  pub rejections : List (String × ScenarioError)
  pub identity_scope : Option Actor

pub data WriteKind : Type 0 where
  idle pending accepted : WriteKind
  uncertain : Option ScenarioError → WriteKind
  rejected : ScenarioError → WriteKind

-- Where an execution stands: the first check, the send, or the second check.
pub data Stage : Type 0 where
  checking sending confirming : Stage

pub record Run (T : Type 0) : Type 0 where
  pub intent : FrozenIntent T
  pub stage : Stage

pub record Writer (T : Type 0) : Type 0 where
  pub memory : ScenarioMemory T
  pub actor : Actor
  pub scope : String
  pub kind : WriteKind
  pub active : Option (FrozenIntent T)
  pub locked : Bool
  pub running : Option (Run T)
  pub sends : List (FrozenIntent T)  -- the calls of `send`, the last one first

pub data WriteEvent (T : Type 0) : Type 0 where
  effect : Actor → String → WriteEvent T
  cleanup : WriteEvent T
  cleared : WriteEvent T  -- another hook found that the session changed
  start : String → T → WriteEvent T  -- with the key that `crypto.randomUUID` gives
  retry reviewed replied : WriteEvent T
  identified : Actor → WriteEvent T
  failed : ScenarioError → WriteEvent T  -- with what `scenarioError` makes of it
  timeout : WriteEvent T

abbrev pub cancelled_error : ScenarioError
cancelled_error = record { status = 0; code = "NETWORK_ERROR" }

abbrev pub is_unsure : WriteKind → Bool
is_unsure (uncertain e) = true
is_unsure _ = false

abbrev pub is_confirming : Stage → Bool
is_confirming confirming = true
is_confirming _ = false

unfoldable pub rejects : Stage → ScenarioError → Bool
rejects s e = not (is_confirming s) && leb 400 e.status && ltb e.status 500

module _ {T : Type 0} where
  -- `clearScenarioMemory`
  unfoldable pub clear_scenario_memory : ScenarioMemory T → ScenarioMemory T
  clear_scenario_memory m = record m { intents = []; identity_scope = none }

  -- `bindScenarioMemory`
  unfoldable pub bind_scenario_memory : Actor → ScenarioMemory T → ScenarioMemory T
  bind_scenario_memory a m = record m {
    intents = if is_changed m.identity_scope a then [] else m.intents;
    identity_scope = some a;
  }

  abbrev pub rejected_before : Option (FrozenIntent T) → ScenarioMemory T → Option ScenarioError
  rejected_before none m = none
  rejected_before (some i) m = lookup i.key m.rejections

  abbrev pub kind_found : Option (FrozenIntent T) → Option ScenarioError → WriteKind
  kind_found i (some e) = rejected e
  kind_found (some i) none = uncertain none
  kind_found none none = idle

  unfoldable pub write_effect : Actor → String → Writer T → Writer T
  write_effect a scope h =
      let memory = bind_scenario_memory a h.memory in
      let found = lookup scope memory.intents in
      record h {
        memory = memory;
        actor = a;
        scope = scope;
        active = found;
        locked = false;
        kind = kind_found found (rejected_before found memory);
        running = none;
      }

  -- The start of `execute`, up to its first await.
  unfoldable pub execute_write : FrozenIntent T → Writer T → Writer T
  execute_write i h = if h.locked then h else record h {
    locked = true;
    kind = pending;
    running = some (record { intent = i; stage = checking });
  }

  -- The `catch` block, by whether the session changed and whether the request is rejected.
  abbrev pub after_error :
      (session rejecting : Bool) → ScenarioError → FrozenIntent T → Writer T → Writer T
  after_error true r e i h = record h {
    memory = clear_scenario_memory h.memory;
    active = none;
    kind = rejected e;
  }
  after_error false true e i h = record h {
    memory = record h.memory { rejections = insert i.key e h.memory.rejections };
    kind = rejected e;
  }
  after_error false false e i h = record h { kind = uncertain (some e) }

  unfoldable pub write_error : ScenarioError → Run T → Writer T → Writer T
  unfolding clear_scenario_memory
  write_error e x h =
      record (after_error (e.code == "SESSION_CHANGED") (rejects x.stage e) e x.intent h) {
        locked = false;
        running = none;
      }

  -- The identity that an await brought is that of the actor: send, or accept the receipt and
  -- forget the intent.
  abbrev pub write_checked : Stage → Run T → Writer T → Writer T
  write_checked checking x h = record h {
    running = some (record x { stage = sending });
    sends = x.intent ∷ h.sends;
  }
  write_checked sending x h = h
  write_checked confirming x h = record h {
    memory = record h.memory { intents = remove h.scope h.memory.intents };
    active = none;
    kind = accepted;
    locked = false;
    running = none;
  }

  abbrev pub write_mismatch : Stage → Run T → Writer T → Writer T
  write_mismatch sending x h = h
  write_mismatch checking x h = write_error session_error x h
  write_mismatch confirming x h = write_error session_error x h

  unfoldable pub write_identified : Actor → Run T → Writer T → Writer T
  write_identified a x h =
      if same_actor a h.actor then write_checked x.stage x h else write_mismatch x.stage x h

  unfoldable pub write_replied : Run T → Writer T → Writer T
  write_replied x h = elim x.stage [
    | sending ↦ record h { running = some (record x { stage = confirming }) }
    | _ ↦ h
  ]

  unfoldable pub start_write : String → T → Writer T → Writer T
  unfolding execute_write
  start_write key body h =
      let intent : FrozenIntent T = record { key = key; body = body } in
      if h.locked || is_some h.active
      then h
      else execute_write intent (record h {
        active = some intent;
        memory = record h.memory { intents = insert h.scope intent h.memory.intents };
      })

  unfoldable pub retry_write : Option (FrozenIntent T) → Writer T → Writer T
  unfolding execute_write
  retry_write none h = h
  retry_write (some i) h = if is_unsure h.kind then execute_write i h else h

  unfoldable pub review_write : Writer T → Writer T
  review_write h = if h.locked || is_unsure h.kind then h else record h {
    memory = record h.memory { intents = remove h.scope h.memory.intents };
    active = none;
    kind = idle;
  }

  unfoldable pub with_run : (Run T → Writer T → Writer T) → Option (Run T) → Writer T → Writer T
  with_run f none h = h
  with_run f (some x) h = f x h

  unfoldable pub write_step : WriteEvent T → Writer T → Writer T
  unfolding write_effect clear_scenario_memory start_write retry_write review_write
  write_step (effect a scope) h = write_effect a scope h
  write_step cleanup h = record h { running = none }
  write_step cleared h = record h { memory = clear_scenario_memory h.memory }
  write_step (start key body) h = start_write key body h
  write_step retry h = retry_write h.active h
  write_step reviewed h = review_write h
  write_step replied h = with_run write_replied h.running h
  write_step (identified a) h = with_run (write_identified a) h.running h
  write_step (failed e) h = with_run (write_error e) h.running h
  write_step timeout h = with_run (write_error cancelled_error) h.running h

  unfoldable pub write_run : List (WriteEvent T) → Writer T → Writer T
  write_run [] h = h
  write_run (e ∷ es) h = write_run es (write_step e h)
