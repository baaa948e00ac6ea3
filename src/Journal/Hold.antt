-- ===== src/Journal/Hold.antt =====
-- While an action is unresolved nothing else is sent
-- (frontend/lib/operations-api/use-operations-action.ts).
use mathlib.Core.List.{Memᴰ}
use reinforcement_learning_c.Prelude.{
  String, Bool, true, false, List, [], ◌∷◌, Option, none, some, ◌≡◌, refl, arith, All, All-self,
  ◌⊎◌, inl, inr, Bool-cases,
}
use reinforcement_learning_c.Journal.{
  Failure, api, other, Action, Post, Request, Hook, Event, mount, unmount, start, recover,
  acknowledge, actor_resolved, sent, failed, timeout, verdict, on_verdict, fail, on_failed,
  on_actor, is_other_actor, post, step, run, on_sent,
}
use reinforcement_learning_c.Journal.Retain.{is_final}

module _ {B : Type 0} (key : String) (body : B) where
  abbrev pub Same : Option (Action B) → Type 0
  Same none = ⊥
  Same (some a) = (a.key ≡ key) × (a.body ≡ body)

  abbrev pub SameRequest : Option (Request B) → Type 0
  SameRequest none = Unit
  SameRequest (some q) = (q.action.key ≡ key) × (q.action.body ≡ body)

  -- The events that may let go of an action: acknowledging it, mounting anew (which reads the
  -- storage), and a final answer.
  abbrev pub Keeps : Event B → Type 0
  Keeps (mount ok) = ⊥
  Keeps (acknowledge ok) = ⊥
  Keeps (failed f ok) = is_final f ≡ false
  Keeps _ = Unit

  abbrev pub AllKeep : List (Event B) → Type 0
  AllKeep [] = Unit
  AllKeep (e ∷ es) = Keeps e × AllKeep es

  -- A send that was made before, or one of this action.
  abbrev pub IsKnown : List (Post B) → Post B → Type 0
  IsKnown old p = Memᴰ p old ⊎ ((p.key ≡ key) × (p.body ≡ body))

  record Stays (old : List (Post B)) (h : Hook B) : Type 0 where
    held : Same h.active
    running : SameRequest h.request
    known : All (IsKnown old) h.posts

  fail-Stays :
      (old : List (Post B)) (f : Failure) (ok : Bool) (q : Request B) (h : Hook B)
      → is_final f ≡ false
      → Stays old h
      → Stays old (fail f ok q h)
  unfolding fail on_verdict verdict
  fail-Stays old f ok q h n o = ground arith

  post-Stays :
      (old : List (Post B)) (id : String) (ok : Bool) (q : Request B) (h : Hook B)
      → (q.action.key ≡ key) × (q.action.body ≡ body)
      → Stays old h
      → Stays old (post id ok q h)
  unfolding post
  post-Stays old id ok q h s o = elim (Bool-cases (is_other_actor q.action.actor_id id)) [
    | inl other_one ↦ rw other_one (fail-Stays old (api 403) ok q h refl o)
    | inr same_one ↦
        rw same_one (record { held = ground arith; running = s; known = (inr s, o.known) })
  ]

  on_actor-Stays :
      (old : List (Post B)) (id : String) (ok : Bool) (q : Option (Request B)) (h : Hook B)
      → SameRequest q
      → Stays old h
      → Stays old (on_actor id ok q h)
  unfolding on_actor
  on_actor-Stays old id ok none h s o = o
  on_actor-Stays old id ok (some q) h s o = ground (arith, post-Stays old id ok q h s o)

  on_failed-Stays :
      (old : List (Post B)) (f : Failure) (ok : Bool) (q : Option (Request B)) (h : Hook B)
      → is_final f ≡ false
      → Stays old h
      → Stays old (on_failed f ok q h)
  unfolding on_failed
  on_failed-Stays old f ok none h n o = o
  on_failed-Stays old f ok (some q) h n o = fail-Stays old f ok q h n o

  step-Stays :
      (old : List (Post B)) (e : Event B) (h : Hook B)
      → Keeps e
      → Stays old h
      → Stays old (step e h)
  unfolding step on_sent
  step-Stays old (mount ok) h k o = absurd k
  step-Stays old unmount h k o = ground arith
  step-Stays old (start j b ok) h k o = ground arith
  step-Stays old recover h k o = ground arith
  step-Stays old (acknowledge ok) h k o = absurd k
  step-Stays old (actor_resolved id ok) h k o = on_actor-Stays old id ok h.request h o.running o
  step-Stays old sent h k o = ground arith
  step-Stays old (failed f ok) h k o = on_failed-Stays old f ok h.request h k o
  step-Stays old timeout h k o = on_failed-Stays old other true h.request h refl o

  run-Stays :
      (old : List (Post B)) (es : List (Event B)) (h : Hook B)
      → AllKeep es
      → Stays old h
      → Stays old (run es h)
  unfolding run
  run-Stays old [] h k o = o
  run-Stays old (e ∷ es) h k o = run-Stays old es (step e h) k.1 (step-Stays old e h k.0 o)

-- From a hook that holds an action and runs no other, until the action is acknowledged, finally
-- answered or the hook mounted anew, the hook goes on holding the action with its key and body,
-- and every send it makes is of that key and body: a start in between is ignored.
pub unresolved_action_stays :
    {B : Type 0} (es : List (Event B)) (h : Hook B) (a : Action B)
    → h.active ≡ some a
    → SameRequest a.key a.body h.request
    → AllKeep a.key a.body es
    → Same a.key a.body (run es h).active × All (IsKnown a.key a.body h.posts) (run es h).posts
unresolved_action_stays es h a active running k =
    let start_state : Stays a.key a.body h.posts h = record {
      held = rw active (refl, refl);
      running = running;
      known = All-self (IsKnown a.key a.body h.posts) h.posts (λ p m. inl m);
    } in
    let o = run-Stays a.key a.body h.posts es h k start_state in (o.held, o.known)
