-- ===== src/Journal/Once.antt =====
-- One key is never sent with two bodies (frontend/lib/operations-api/use-operations-action.ts).
use mathlib.Core.List.{Memᴰ}
use reinforcement_learning_c.Prelude.{
  String, Bool, true, false, ◌||◌, List, [], ◌∷◌, Option, none, some, ◌==◌, string_eq, ◌≡◌, arith,
  All, All-mem, ap, any, eq_refl, if◌then◌else◌,
}
use reinforcement_learning_c.Journal.{
  Failure, Action, Post, idle, Request, Hook, Event, mount, unmount, start, recover, acknowledge,
  actor_resolved, sent, failed, timeout, other, api, on_failed, post, on_actor, fail, on_verdict,
  Verdict, verdict, step, run,
}

module _ {B : Type 0} where
  -- `owner` says which body a key stands for.
  abbrev OwnsAction : (String → Option B) → Option (Action B) → Type 0
  OwnsAction owner none = Unit
  OwnsAction owner (some a) = owner a.key ≡ some a.body

  abbrev OwnsRequest : (String → Option B) → Option (Request B) → Type 0
  OwnsRequest owner none = Unit
  OwnsRequest owner (some q) = owner q.action.key ≡ some q.action.body

  abbrev OwnsPost : (String → Option B) → Post B → Type 0
  OwnsPost owner p = owner p.key ≡ some p.body

  -- All that the hook, its storage and the server have seen agrees on the body of each key.
  record Owns (owner : String → Option B) (h : Hook B) : Type 0 where
    posted : All (OwnsPost owner) h.posts
    held : OwnsAction owner h.active
    stored : OwnsAction owner h.storage
    running : OwnsRequest owner h.request

  on_verdict-Owns :
      (owner : String → Option B) (h : Hook B) (v : Verdict) (a : Action B) (ok : Bool)
      → Owns owner h
      → Owns owner (on_verdict v a ok h)
  unfolding on_verdict
  on_verdict-Owns owner h v a ok o = ground arith

  fail-Owns :
      (owner : String → Option B) (h : Hook B) (f : Failure) (ok : Bool) (q : Request B)
      → Owns owner h
      → Owns owner (fail f ok q h)
  unfolding fail
  fail-Owns owner h f ok q o = ground (arith, on_verdict-Owns owner h (verdict f) q.action ok o)

  on_failed-Owns :
      (owner : String → Option B) (h : Hook B) (f : Failure) (ok : Bool) (q : Option (Request B))
      → Owns owner h
      → Owns owner (on_failed f ok q h)
  unfolding on_failed
  on_failed-Owns owner h f ok none o = o
  on_failed-Owns owner h f ok (some q) o = fail-Owns owner h f ok q o

  post-Owns :
      (owner : String → Option B) (h : Hook B) (id : String) (ok : Bool) (q : Request B)
      → owner q.action.key ≡ some q.action.body
      → Owns owner h
      → Owns owner (post id ok q h)
  unfolding post
  post-Owns owner h id ok q own o = ground (arith, fail-Owns owner h (api 403) ok q o)

  on_actor-Owns :
      (owner : String → Option B) (h : Hook B) (id : String) (ok : Bool) (q : Option (Request B))
      → OwnsRequest owner q
      → Owns owner h
      → Owns owner (on_actor id ok q h)
  unfolding on_actor
  on_actor-Owns owner h id ok none own o = o
  on_actor-Owns owner h id ok (some q) own o = ground (arith, post-Owns owner h id ok q own o)

  -- Of all events only a start brings in a key.
  abbrev pub IsStart : Event B → Type 0
  IsStart (start key body ok) = Unit
  IsStart _ = ⊥

  step-Owns :
      (owner : String → Option B) (e : Event B) (h : Hook B)
      → ¬ IsStart e
      → Owns owner h
      → Owns owner (step e h)
  unfolding step
  step-Owns owner (mount ok) h n o = ground arith
  step-Owns owner unmount h n o = ground arith
  step-Owns owner (start key body ok) h n o = absurd (n tt)
  step-Owns owner recover h n o = ground arith
  step-Owns owner (acknowledge ok) h n o = ground arith
  step-Owns owner (actor_resolved id ok) h n o = on_actor-Owns owner h id ok h.request o.running o
  step-Owns owner sent h n o = ground arith
  step-Owns owner (failed f ok) h n o = on_failed-Owns owner h f ok h.request o
  step-Owns owner timeout h n o = on_failed-Owns owner h other true h.request o

  -- A key that nothing has used yet.
  abbrev is_key_of : String → Option (Action B) → Bool
  is_key_of key none = false
  is_key_of key (some a) = a.key == key

  abbrev is_running_key : String → Option (Request B) → Bool
  is_running_key key none = false
  is_running_key key (some q) = q.action.key == key

  unfoldable pub is_used : String → Hook B → Bool
  is_used key h =
      any (λ p. p.key == key) h.posts
      || is_key_of key h.active
      || is_key_of key h.storage
      || is_running_key key h.request

  abbrev pub FreshEvent : Event B → Hook B → Type 0
  FreshEvent (start key body ok) h = is_used key h ≡ false
  FreshEvent _ h = Unit

  -- `crypto.randomUUID()` gives a key that was not used before, at every start of the run.
  abbrev pub IsFresh : List (Event B) → Hook B → Type 0
  IsFresh [] h = Unit
  IsFresh (e ∷ es) h = FreshEvent e h × IsFresh es (step e h)

  adopt : (String → Option B) → String → B → String → Option B
  adopt owner key body k = if k == key then some body else owner k

  adopt-posts :
      (owner : String → Option B) (key : String) (body : B) (ps : List (Post B))
      → any (λ p. p.key == key) ps ≡ false
      → All (OwnsPost owner) ps
      → All (OwnsPost (adopt owner key body)) ps
  unfolding adopt
  adopt-posts owner key body [] u o = tt
  adopt-posts owner key body (p ∷ ps) u o =
      (ground arith, adopt-posts owner key body ps (ground arith) o.1)

  adopt-Owns :
      (owner : String → Option B) (key : String) (body : B) (h : Hook B)
      → is_used key h ≡ false
      → Owns owner h
      → Owns (adopt owner key body) h
  unfolding is_used adopt
  adopt-Owns owner key body h u o = record {
    posted = adopt-posts owner key body h.posts (ground arith) o.posted;
    held = ground arith;
    stored = ground arith;
    running = ground arith;
  }

  start-Owns :
      (owner : String → Option B) (key : String) (body : B) (ok : Bool) (h : Hook B)
      → owner key ≡ some body
      → Owns owner h
      → Owns owner (step (start key body ok) h)
  unfolding step
  start-Owns owner key body ok h own o = ground arith

  -- A run of fresh starts keeps some assignment of bodies to keys.
  event-Owns :
      (owner : String → Option B) (e : Event B) (h : Hook B)
      → FreshEvent e h
      → Owns owner h
      → (owner' : String → Option B) × Owns owner' (step e h)
  event-Owns owner (start key body ok) h u o = (
    adopt owner key body,
    start-Owns (adopt owner key body) key body ok h (unfold adopt in ground (arith, eq_refl key))
        (adopt-Owns owner key body h u o),
  )
  event-Owns owner (mount ok) h u o = (owner, step-Owns owner (mount ok) h (λ x. x) o)
  event-Owns owner unmount h u o = (owner, step-Owns owner unmount h (λ x. x) o)
  event-Owns owner recover h u o = (owner, step-Owns owner recover h (λ x. x) o)
  event-Owns owner (acknowledge ok) h u o = (owner, step-Owns owner (acknowledge ok) h (λ x. x) o)
  event-Owns owner (actor_resolved id ok) h u o =
      (owner, step-Owns owner (actor_resolved id ok) h (λ x. x) o)
  event-Owns owner sent h u o = (owner, step-Owns owner sent h (λ x. x) o)
  event-Owns owner (failed f ok) h u o = (owner, step-Owns owner (failed f ok) h (λ x. x) o)
  event-Owns owner timeout h u o = (owner, step-Owns owner timeout h (λ x. x) o)

  run-Owns :
      (owner : String → Option B) (es : List (Event B)) (h : Hook B)
      → IsFresh es h
      → Owns owner h
      → (owner' : String → Option B) × Owns owner' (run es h)
  unfolding run
  run-Owns owner [] h u o = (owner, o)
  run-Owns owner (e ∷ es) h u o =
      let (owner', o') = event-Owns owner e h u.0 o in run-Owns owner' es (step e h) u.1 o'

  -- A hook that is not mounted yet, with whatever the storage holds.
  unfoldable pub new_hook : Option (Action B) → Hook B
  new_hook saved = record {
    state = idle;
    active = none;
    storage = saved;
    mounted = false;
    locked = false;
    request = none;
    posts = [];
  }

  abbrev saved_owner : Option (Action B) → String → Option B
  saved_owner none k = none
  saved_owner (some a) k = if k == a.key then some a.body else none

  new_hook-Owns : (saved : Option (Action B)) → Owns (saved_owner saved) (new_hook saved)
  unfolding new_hook
  new_hook-Owns none = record { posted = tt; held = tt; stored = tt; running = tt }
  new_hook-Owns (some a) = record {
    posted = tt;
    held = tt;
    stored = ground (arith, eq_refl a.key);
    running = tt;
  }

  -- Two calls of `send` with the same key carry the same body: over any run of events, with
  -- reloads that restore whatever the storage held, timeouts, failures of every status and of the
  -- storage, and recoveries, provided that each started key was unused.
  pub same_key_same_body :
      (saved : Option (Action B)) (es : List (Event B)) (p q : Post B)
      → IsFresh es (new_hook saved)
      → Memᴰ p (run es (new_hook saved)).posts
      → Memᴰ q (run es (new_hook saved)).posts
      → p.key ≡ q.key
      → p.body ≡ q.body
  same_key_same_body saved es p q fresh mp mq same =
      let (owner, o) =
        run-Owns (saved_owner saved) es (new_hook saved) fresh (new_hook-Owns saved) in
      let own_p : owner p.key ≡ some p.body = All-mem (OwnsPost owner) _ mp o.posted in
      let own_q : owner q.key ≡ some q.body = All-mem (OwnsPost owner) _ mq o.posted in
      cc (ap owner same)
