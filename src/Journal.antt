-- ===== src/Journal.antt =====
-- frontend/lib/operations-api/use-operations-action.ts: the journal of one decision write. The
-- hook is a state and its callbacks are events; what an event makes React render is the new state
-- (the message texts are left out). `storage` is the entry of sessionStorage, and each write to it
-- may fail, which the event says. `posts` is the trace of the calls of `send`. structuredClone and
-- the JSON round trip of the entry are the identity on the model's values.
pub mod Once
pub mod Retain
pub mod Hold
mod Tests
use reinforcement_learning_c.Prelude.{
  ℕ, String, Bool, true, false, not, ◌&&◌, ◌||◌, List, [], ◌∷◌, Option, none, some, ◌==◌, nat_eq,
  string_eq, leb, ltb, is_some, is_empty, if◌then◌else◌,
}
use reinforcement_learning_c.Preview.Requests.{is_key}

-- `OperationsApiError` by its status, an AuthRedirectError, or anything else (network, abort).
pub data Failure : Type 0 where
  api : ℕ → Failure
  auth_redirect : Failure
  other : Failure

module _ (B : Type 0) where
  pub record Action : Type 0 where
    pub key : String
    pub body : B
    pub actor_id : Option String

  pub record Post : Type 0 where
    pub key : String
    pub actor : String
    pub body : B

-- What `execute` awaits.
pub data Stage : Type 0 where
  actor send : Stage

pub data State (B : Type 0) : Type 0 where
  idle : State B
  pending recoverable accepted : Action B → State B
  conflict unauthorized error : State B

pub record Request (B : Type 0) : Type 0 where
  pub action : Action B
  pub stage : Stage

pub record Hook (B : Type 0) : Type 0 where
  pub state : State B
  pub active : Option (Action B)
  pub storage : Option (Action B)
  pub mounted : Bool
  pub locked : Bool
  pub request : Option (Request B)
  pub posts : List (Post B)

-- The Boolean says whether the session storage could be read or written.
pub data Event (B : Type 0) : Type 0 where
  mount : Bool → Event B
  unmount : Event B
  start : String → B → Bool → Event B
  recover : Event B
  acknowledge : Bool → Event B
  actor_resolved : String → Bool → Event B
  sent : Event B
  failed : Failure → Bool → Event B
  timeout : Event B

-- How the catch block sorts a failure.
pub data Verdict : Type 0 where
  is_conflict is_unauthorized is_rejected is_unconfirmed : Verdict

unfoldable pub verdict : Failure → Verdict
verdict (api status) =
    if status == 409
    then is_conflict
    else if status == 401 || status == 403
    then is_unauthorized
    else if leb 400 status && ltb status 500
    then is_rejected
    else is_unconfirmed
verdict auth_redirect = is_unauthorized
verdict other = is_unconfirmed

-- `action.actorId && action.actorId !== actorId`
unfoldable pub is_other_actor : Option String → String → Bool
is_other_actor none id = false
is_other_actor (some a) id = not (is_empty a) && not (a == id)

module _ {B : Type 0} where
  abbrev pub write : Bool → Option (Action B) → Option (Action B) → Option (Action B)
  write ok new old = if ok then new else old

  -- `clearJournal`
  unfoldable pub clear : Bool → Hook B → Hook B
  clear ok h = record h { active = none; storage = write ok none h.storage }

  -- The start of `execute`, up to its first await.
  unfoldable pub execute : Action B → Hook B → Hook B
  execute a h = if h.locked then h else record h {
    locked = true;
    state = pending a;
    request = some (record { action = a; stage = actor });
  }

  -- The `finally` block.
  unfoldable pub settle : Hook B → Hook B
  settle h = record h { locked = false; request = none }

  unfoldable pub on_verdict : Verdict → Action B → Bool → Hook B → Hook B
  unfolding clear
  on_verdict is_conflict a ok h = record (clear ok h) { state = conflict }
  on_verdict is_unauthorized a ok h = record h { state = unauthorized }
  on_verdict is_rejected a ok h = record (clear ok h) { state = error }
  on_verdict is_unconfirmed a ok h = record h { state = recoverable a }

  -- The `catch` block, then `finally`.
  unfoldable pub fail : Failure → Bool → Request B → Hook B → Hook B
  unfolding settle
  fail f ok q h = if h.mounted then settle (on_verdict (verdict f) q.action ok h) else settle h

  -- The action object is shared by the request, the reference and the rendered state.
  abbrev pub share : Option (Action B) → Action B → Option (Action B)
  share none a = none
  share (some old) a = some a

  -- The actor is known: check it, save it, and call `send`.
  unfoldable pub post : String → Bool → Request B → Hook B → Hook B
  post id ok q h =
      let a : Action B = record q.action { actor_id = some id } in
      if is_other_actor q.action.actor_id id then fail (api 403) ok q h else record h {
        active = share h.active a;
        storage = write ok (some a) h.storage;
        state = pending a;
        request = some (record { action = a; stage = send });
        posts = record { key = a.key; actor = id; body = a.body } ∷ h.posts;
      }

  unfoldable pub on_actor : String → Bool → Option (Request B) → Hook B → Hook B
  on_actor id ok none h = h
  on_actor id ok (some q) h = elim q.stage [ actor ↦ post id ok q h | send ↦ h ]

  unfoldable pub on_sent : Option (Request B) → Hook B → Hook B
  unfolding settle
  on_sent none h = h
  on_sent (some q) h = elim q.stage [
    | actor ↦ h
    | send ↦ settle (if h.mounted then record h { state = accepted q.action } else h)
  ]

  unfoldable pub on_failed : Failure → Bool → Option (Request B) → Hook B → Hook B
  on_failed f ok none h = h
  on_failed f ok (some q) h = fail f ok q h

  -- What the effect restores from the storage entry.
  unfoldable pub restore : Option (Action B) → Hook B → Hook B
  unfolding is_key
  restore none h = h
  restore (some a) h =
      if is_key a.key then record h { active = some a; state = recoverable a } else h

  unfoldable pub on_mount : Bool → Hook B → Hook B
  unfolding restore
  on_mount ok h =
      let fresh : Hook B = record h {
        mounted = true;
        active = none;
        locked = false;
        request = none;
        state = idle;
      } in
      restore (if ok then h.storage else none) fresh

  unfoldable pub on_start : String → B → Bool → Hook B → Hook B
  unfolding execute
  on_start key body ok h =
      let a : Action B = record { key = key; body = body; actor_id = none } in
      if h.locked || is_some h.active
      then h
      else execute a (record h { active = some a; storage = write ok (some a) h.storage })

  unfoldable pub on_recover : Option (Action B) → Hook B → Hook B
  unfolding execute
  on_recover none h = h
  on_recover (some a) h = execute a h

  unfoldable pub step : Event B → Hook B → Hook B
  unfolding on_mount settle on_start on_recover clear on_sent
  step (mount ok) h = on_mount ok h
  step unmount h = settle (record h { mounted = false })
  step (start key body ok) h = on_start key body ok h
  step recover h = on_recover h.active h
  step (acknowledge ok) h = if h.locked then h else record (clear ok h) { state = idle }
  step (actor_resolved id ok) h = on_actor id ok h.request h
  step sent h = on_sent h.request h
  step (failed f ok) h = on_failed f ok h.request h
  step timeout h = on_failed other true h.request h

  unfoldable pub run : List (Event B) → Hook B → Hook B
  run [] h = h
  run (e ∷ es) h = run es (step e h)
