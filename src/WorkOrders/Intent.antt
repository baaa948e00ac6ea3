-- ===== src/WorkOrders/Intent.antt =====
-- The hook that sends a work-order write under one key and keeps the request until it is reviewed
-- (frontend/lib/work-orders/use-work-order-intent.ts), with the memory that all such hooks share.
-- The events are the effect and its cleanup, the user's calls, and what the awaits of `execute`
-- bring, one at a time. An execution that the cleanup cancelled is dropped: its signal is aborted
-- before any later send, and its result is compared with the generation and ignored. The callbacks return.
use reinforcement_learning_c.Prelude.{
  ℕ, ◌+◌, String, Bool, true, false, ◌&&◌, ◌||◌, not, Option, none, some, List, [], ◌∷◌, ◌==◌,
  string_eq, leb, ltb, is_some, lookup, insert, remove, if◌then◌else◌,
}
pub mod Outcomes
pub mod Errors

pub record WorkOrdersError : Type 0 where
  pub status : ℕ
  pub code : String

-- What a call may throw.
pub data Thrown : Type 0 where
  work_orders_error : WorkOrdersError → Thrown
  auth_redirect_error : Thrown
  other_error : Thrown

unfoldable pub work_order_error : Thrown → WorkOrdersError
work_order_error (work_orders_error e) = e
work_order_error auth_redirect_error = record { status = 401; code = "UNAUTHORIZED" }
work_order_error other_error = record { status = 0; code = "NETWORK_ERROR" }

pub record Actor : Type 0 where
  pub id : String
  pub role : String

abbrev pub session_changed : WorkOrdersError
session_changed = record { status = 401; code = "SESSION_CHANGED" }

unfoldable pub same_actor : Actor → Actor → Bool
same_actor a b = a.id == b.id && a.role == b.role

-- The `rejection` of an intent, which changes, is kept beside it under the intent's key.
pub record Intent (T : Type 0) : Type 0 where
  pub key : String
  pub body : T

-- `pending` and `boundActor`.
pub record Memory (T : Type 0) : Type 0 where
  pub pending : List (String × Intent T)
  pub rejections : List (String × WorkOrdersError)
  pub bound_actor : Option Actor

pub data Kind : Type 0 where
  idle pending accepted : Kind
  uncertain : Option WorkOrdersError → Kind
  rejected : WorkOrdersError → Kind

-- Where an execution stands: the first identity, the send, or the second identity.
pub data Await : Type 0 where
  identity receipt identity_after : Await

pub record Execution (T : Type 0) : Type 0 where
  pub intent : Intent T
  pub await : Await

pub record IntentHook (T : Type 0) : Type 0 where
  pub memory : Memory T
  pub actor : Actor
  pub scope : String
  pub kind : Kind
  pub active : Option (Intent T)
  pub locked : Bool
  pub generation : ℕ
  pub execution : Option (Execution T)
  pub sends : List (Intent T)  -- the calls of `send`, the last one first

pub data Happening (T : Type 0) : Type 0 where
  effect : Actor → String → Happening T
  cleanup : Happening T
  cleared : Happening T  -- another hook found that the session changed
  start : String → T → Happening T  -- with the key that `crypto.randomUUID` gives
  retry : Happening T
  reviewed : Happening T
  identified : Actor → Happening T
  replied : Happening T
  thrown : Thrown → Happening T
  timeout : Happening T

abbrev pub is_changed : Option Actor → Actor → Bool
is_changed none a = false
is_changed (some b) a = not (same_actor b a)

unfoldable pub is_session_changed : WorkOrdersError → Bool
is_session_changed e = e.code == "SESSION_CHANGED"

-- Whether the error rejects the request: an answer of the server before any receipt.
unfoldable pub is_rejection : Bool → WorkOrdersError → Bool
is_rejection receipt_received e =
    (not receipt_received || is_session_changed e) && leb 400 e.status && ltb e.status 500

abbrev pub is_after_receipt : Await → Bool
is_after_receipt identity_after = true
is_after_receipt _ = false

abbrev pub is_uncertain : Kind → Bool
is_uncertain (uncertain e) = true
is_uncertain _ = false

module _ {T : Type 0} where
  -- `clearWorkOrderMemory`
  unfoldable pub clear_work_order_memory : Memory T → Memory T
  clear_work_order_memory m = record m { pending = []; bound_actor = none }

  -- `bindWorkOrderMemory`
  unfoldable pub bind_work_order_memory : Actor → Memory T → Memory T
  unfolding same_actor
  bind_work_order_memory a m = record m {
    pending = if is_changed m.bound_actor a then [] else m.pending;
    bound_actor = some a;
  }

  abbrev pub rejection_of : Option (Intent T) → Memory T → Option WorkOrdersError
  rejection_of none m = none
  rejection_of (some i) m = lookup i.key m.rejections

  -- What the effect shows for the intent that it found.
  abbrev pub found_kind : Option (Intent T) → Option WorkOrdersError → Kind
  found_kind i (some e) = rejected e
  found_kind (some i) none = uncertain none
  found_kind none none = idle

  unfoldable pub on_effect : Actor → String → IntentHook T → IntentHook T
  unfolding bind_work_order_memory
  on_effect a scope h =
      let memory = bind_work_order_memory a h.memory in
      let found = lookup scope memory.pending in
      record h {
        memory = memory;
        actor = a;
        scope = scope;
        generation = h.generation + 1;
        locked = false;
        active = found;
        kind = found_kind found (rejection_of found memory);
        execution = none;
      }

  -- The start of `execute`, up to its first await.
  unfoldable pub execute_intent : Intent T → IntentHook T → IntentHook T
  execute_intent i h = if h.locked then h else record h {
    locked = true;
    memory = record h.memory { rejections = remove i.key h.memory.rejections };
    kind = pending;
    execution = some (record { intent = i; await = identity });
  }

  -- The `catch` block, and `finally`.
  abbrev pub forget_if : Bool → IntentHook T → IntentHook T
  forget_if true h = record h { active = none; memory = clear_work_order_memory h.memory }
  forget_if false h = h

  abbrev pub reject_if : Bool → WorkOrdersError → Intent T → IntentHook T → IntentHook T
  reject_if true e i h = record h {
    memory = record h.memory { rejections = insert i.key e h.memory.rejections };
    kind = rejected e;
  }
  reject_if false e i h = record h { kind = uncertain (some e) }

  unfoldable pub on_error : WorkOrdersError → Execution T → IntentHook T → IntentHook T
  unfolding clear_work_order_memory
  on_error e x h =
      let forgotten = forget_if (is_session_changed e) h in
      let told = reject_if (is_rejection (is_after_receipt x.await) e) e x.intent forgotten in
      record told { locked = false; execution = none }

  -- The identity that an await brought is compared with the actor; then the request is sent, or
  -- its receipt is accepted.
  unfoldable pub on_identified : Actor → Execution T → IntentHook T → IntentHook T
  unfolding same_actor on_error
  on_identified a x h =
      if same_actor a h.actor
      then elim x.await [
        | identity ↦ record h {
          execution = some (record x { await = receipt });
          sends = x.intent ∷ h.sends;
        }
        | receipt ↦ h
        | identity_after ↦ record h { kind = accepted; locked = false; execution = none }
      ]
      else elim x.await [ receipt ↦ h | _ ↦ on_error session_changed x h ]

  unfoldable pub on_replied : Execution T → IntentHook T → IntentHook T
  on_replied x h = elim x.await [
    | receipt ↦ record h { execution = some (record x { await = identity_after }) }
    | _ ↦ h
  ]

  unfoldable pub with_execution :
      (Execution T → IntentHook T → IntentHook T)
      → Option (Execution T)
      → IntentHook T
      → IntentHook T
  with_execution f none h = h
  with_execution f (some x) h = f x h

  unfoldable pub start_intent : String → T → IntentHook T → IntentHook T
  unfolding execute_intent
  start_intent key body h =
      let intent : Intent T = record { key = key; body = body } in
      if is_some h.active || h.locked
      then h
      else execute_intent intent (record h {
        active = some intent;
        memory = record h.memory { pending = insert h.scope intent h.memory.pending };
      })

  unfoldable pub retry_intent : Option (Intent T) → IntentHook T → IntentHook T
  unfolding execute_intent
  retry_intent none h = h
  retry_intent (some i) h = if not h.locked && is_uncertain h.kind then execute_intent i h else h

  unfoldable pub review_intent : IntentHook T → IntentHook T
  review_intent h = if h.locked || is_uncertain h.kind then h else record h {
    memory = record h.memory { pending = remove h.scope h.memory.pending };
    active = none;
    kind = idle;
  }

  unfoldable pub happen : Happening T → IntentHook T → IntentHook T
  unfolding on_effect clear_work_order_memory start_intent retry_intent review_intent
  happen (effect a scope) h = on_effect a scope h
  happen cleanup h = record h { generation = h.generation + 1; execution = none }
  happen cleared h = record h { memory = clear_work_order_memory h.memory }
  happen (start key body) h = start_intent key body h
  happen retry h = retry_intent h.active h
  happen reviewed h = review_intent h
  happen (identified a) h = with_execution (on_identified a) h.execution h
  happen replied h = with_execution on_replied h.execution h
  happen (thrown t) h = with_execution (on_error (work_order_error t)) h.execution h
  happen timeout h = with_execution (on_error (work_order_error other_error)) h.execution h

  unfoldable pub happen_all : List (Happening T) → IntentHook T → IntentHook T
  happen_all [] h = h
  happen_all (e ∷ es) h = happen_all es (happen e h)
