-- ===== src/Scenario/Writing/Settled.antt =====
-- An accepted write is forgotten (frontend/lib/scenario-planning/hooks.ts, useScenarioIntent).
use mathlib.Core.List.{Memᴰ}
use reinforcement_learning_c.Prelude.{
  String, Option, none, some, List, [], ◌∷◌, ◌≡◌, ◌≢◌, ◌⊎◌, inl, inr, arith, All, All-self, ◌==◌,
  string_eq, eq_iff, eq_refl, lookup, insert, remove, Bool-cases,
}
use reinforcement_learning_c.WorkOrders.Intent.{Actor, same_actor}
use reinforcement_learning_c.Scenario.{ScenarioError}
use reinforcement_learning_c.Scenario.Reading.{session_error}
use reinforcement_learning_c.Scenario.Writing.{
  FrozenIntent, ScenarioMemory, confirming, Run, Writer, WriteEvent, effect, cleanup, cleared,
  start, retry, reviewed, replied, identified, failed, timeout, cancelled_error,
  clear_scenario_memory, bind_scenario_memory, write_effect, execute_write, write_error,
  write_identified, write_replied, start_write, retry_write, review_write, with_run, write_step,
  write_run,
}

module _ {T : Type 0} (key : String) where
  abbrev pub IsOtherEntry : String × FrozenIntent T → Type 0
  IsOtherEntry e = e.1.key ≢ key

  abbrev IsOtherIntent : Option (FrozenIntent T) → Type 0
  IsOtherIntent none = Unit
  IsOtherIntent (some i) = i.key ≢ key

  abbrev IsOtherRun : Option (Run T) → Type 0
  IsOtherRun none = Unit
  IsOtherRun (some x) = x.intent.key ≢ key

  -- A send that was made before, or one under another key.
  abbrev pub IsKnownSend : List (FrozenIntent T) → FrozenIntent T → Type 0
  IsKnownSend old i = Memᴰ i old ⊎ (i.key ≢ key)

  -- Neither the hook nor the memory holds the key.
  record IsForgotten (old : List (FrozenIntent T)) (h : Writer T) : Type 0 where
    held : IsOtherIntent h.active
    running : IsOtherRun h.running
    stored : All IsOtherEntry h.memory.intents
    known : All (IsKnownSend old) h.sends

  -- Later starts have other keys.
  abbrev pub IsOtherStart : WriteEvent T → Type 0
  IsOtherStart (start k body) = k ≢ key
  IsOtherStart _ = Unit

  abbrev pub AreOtherStarts : List (WriteEvent T) → Type 0
  AreOtherStarts [] = Unit
  AreOtherStarts (e ∷ es) = IsOtherStart e × AreOtherStarts es

  lookup-other :
      (scope : String) (m : List (String × FrozenIntent T))
      → All IsOtherEntry m
      → IsOtherIntent (lookup scope m)
  unfolding lookup
  lookup-other scope [] h = tt
  lookup-other scope ((s, i) ∷ m) h = ground (arith, lookup-other scope m h.1)

  insert-other :
      (scope : String) (i : FrozenIntent T) (m : List (String × FrozenIntent T))
      → i.key ≢ key
      → All IsOtherEntry m
      → All IsOtherEntry (insert scope i m)
  unfolding insert
  insert-other scope i [] n h = (n, tt)
  insert-other scope i ((s, j) ∷ m) n h = elim (Bool-cases (s == scope)) [
    | inl same ↦ rw same (n, h.1)
    | inr other ↦ rw other (h.0, insert-other scope i m n h.1)
  ]

  remove-other :
      (scope : String) (m : List (String × FrozenIntent T))
      → All (λ e. (e.0 ≡ scope) ⊎ IsOtherEntry e) m
      → All IsOtherEntry (remove scope m)
  unfolding remove
  remove-other scope [] h = tt
  remove-other scope ((s, j) ∷ m) h = elim (Bool-cases (s == scope)) [
    | inl same ↦ rw same (remove-other scope m h.1)
    | inr other ↦ rw other (ground (arith, eq_iff s scope), remove-other scope m h.1)
  ]

  remove_any :
      (scope : String) (m : List (String × FrozenIntent T))
      → All IsOtherEntry m
      → All IsOtherEntry (remove scope m)
  unfolding remove
  remove_any scope [] h = tt
  remove_any scope (e ∷ m) h = ground (arith, remove_any scope m h.1)

  error-IsForgotten :
      (old : List (FrozenIntent T)) (e : ScenarioError) (x : Run T) (h : Writer T)
      → IsForgotten old h
      → IsForgotten old (write_error e x h)
  unfolding write_error clear_scenario_memory
  error-IsForgotten old e x h f = ground arith

  identified-IsForgotten :
      (old : List (FrozenIntent T)) (a : Actor) (x : Run T) (h : Writer T)
      → x.intent.key ≢ key
      → IsForgotten old h
      → IsForgotten old (write_identified a x h)
  unfolding write_identified
  identified-IsForgotten old a x h n f =
      let dropped = remove_any h.scope h.memory.intents f.stored in
      ground (arith, error-IsForgotten old session_error x h f)

  replied-IsForgotten :
      (old : List (FrozenIntent T)) (x : Run T) (h : Writer T)
      → x.intent.key ≢ key
      → IsForgotten old h
      → IsForgotten old (write_replied x h)
  unfolding write_replied
  replied-IsForgotten old x h n f = ground arith

  bind-other :
      (a : Actor) (m : ScenarioMemory T)
      → All IsOtherEntry m.intents
      → All IsOtherEntry (bind_scenario_memory a m).intents
  unfolding bind_scenario_memory
  bind-other a m h = ground arith

  effect-IsForgotten :
      (old : List (FrozenIntent T)) (a : Actor) (scope : String) (h : Writer T)
      → IsForgotten old h
      → IsForgotten old (write_effect a scope h)
  unfolding write_effect
  effect-IsForgotten old a scope h f =
      let stored = bind-other a h.memory f.stored in
      record {
        held = lookup-other scope (bind_scenario_memory a h.memory).intents stored;
        running = tt;
        stored = stored;
        known = f.known;
      }

  start-IsForgotten :
      (old : List (FrozenIntent T)) (k : String) (body : T) (h : Writer T)
      → k ≢ key
      → IsForgotten old h
      → IsForgotten old (start_write k body h)
  unfolding start_write execute_write
  start-IsForgotten old k body h n f =
      let stored =
        insert-other h.scope (record { key = k; body = body }) h.memory.intents n f.stored in
      ground (arith, stored)

  retry-IsForgotten :
      (old : List (FrozenIntent T)) (i : Option (FrozenIntent T)) (h : Writer T)
      → IsOtherIntent i
      → IsForgotten old h
      → IsForgotten old (retry_write i h)
  unfolding retry_write execute_write
  retry-IsForgotten old none h n f = f
  retry-IsForgotten old (some i) h n f = ground arith

  review-IsForgotten :
      (old : List (FrozenIntent T)) (h : Writer T)
      → IsForgotten old h
      → IsForgotten old (review_write h)
  unfolding review_write
  review-IsForgotten old h f = ground (arith, remove_any h.scope h.memory.intents f.stored)

  with_run-IsForgotten :
      (old : List (FrozenIntent T)) (g : Run T → Writer T → Writer T) (h : Writer T)
      → IsForgotten old h
      → ((x : Run T) → x.intent.key ≢ key → IsForgotten old (g x h))
      → (r : Option (Run T)) → IsOtherRun r
      → IsForgotten old (with_run g r h)
  unfolding with_run
  with_run-IsForgotten old g h f k none n = f
  with_run-IsForgotten old g h f k (some x) n = k x n

  step-IsForgotten :
      (old : List (FrozenIntent T)) (e : WriteEvent T) (h : Writer T)
      → IsOtherStart e
      → IsForgotten old h
      → IsForgotten old (write_step e h)
  unfolding write_step clear_scenario_memory
  step-IsForgotten old (effect a scope) h n f = effect-IsForgotten old a scope h f
  step-IsForgotten old cleanup h n f = ground arith
  step-IsForgotten old cleared h n f = ground arith
  step-IsForgotten old (start k body) h n f = start-IsForgotten old k body h n f
  step-IsForgotten old retry h n f = retry-IsForgotten old h.active h f.held f
  step-IsForgotten old reviewed h n f = review-IsForgotten old h f
  step-IsForgotten old replied h n f =
      with_run-IsForgotten old write_replied h f (λ x m. replied-IsForgotten old x h m f) h.running
        f.running
  step-IsForgotten old (identified a) h n f =
      with_run-IsForgotten old (write_identified a) h f
        (λ x m. identified-IsForgotten old a x h m f) h.running f.running
  step-IsForgotten old (failed e) h n f =
      with_run-IsForgotten old (write_error e) h f (λ x m. error-IsForgotten old e x h f) h.running
        f.running
  step-IsForgotten old timeout h n f =
      with_run-IsForgotten old (write_error cancelled_error) h f
        (λ x m. error-IsForgotten old cancelled_error x h f) h.running f.running

  run-IsForgotten :
      (old : List (FrozenIntent T)) (es : List (WriteEvent T)) (h : Writer T)
      → AreOtherStarts es
      → IsForgotten old h
      → IsForgotten old (write_run es h)
  unfolding write_run
  run-IsForgotten old [] h n f = f
  run-IsForgotten old (e ∷ es) h n f =
      run-IsForgotten old es (write_step e h) n.1 (step-IsForgotten old e h n.0 f)

-- Once the receipt of a write is confirmed, its key is never sent again, whatever comes then, a new
-- mount of the page included, if no other scope held the key and every later start has another one.
pub confirmed_never_resent :
    {T : Type 0} (es : List (WriteEvent T)) (h : Writer T) (i : FrozenIntent T)
    → h.running ≡ some (record { intent = i; stage = confirming })
    → All (λ e. (e.0 ≡ h.scope) ⊎ IsOtherEntry i.key e) h.memory.intents
    → AreOtherStarts i.key es
    → All (IsKnownSend i.key h.sends) (write_run es (write_step (identified h.actor) h)).sends
unfolding write_step with_run write_identified same_actor
confirmed_never_resent es h i running alone later =
    let stored = remove-other i.key h.scope h.memory.intents alone in
    let old = All-self (IsKnownSend i.key h.sends) h.sends (λ j m. inl m) in
    let after : IsForgotten i.key h.sends (write_step (identified h.actor) h) =
      rw (running, eq_refl h.actor.id, eq_refl h.actor.role)
        (record { held = tt; running = tt; stored = stored; known = old }) in
    (run-IsForgotten i.key h.sends es (write_step (identified h.actor) h) later after).known
