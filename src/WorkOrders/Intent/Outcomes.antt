-- ===== src/WorkOrders/Intent/Outcomes.antt =====
-- A settled write is over, and an unsettled one is kept
-- (frontend/lib/work-orders/use-work-order-intent.ts).
use mathlib.Core.List.{Memᴰ}
use reinforcement_learning_c.Prelude.{
  String, false, Option, none, some, List, [], ◌∷◌, ◌≡◌, ◌≢◌, ◌⊎◌, inl, inr, refl, arith, All,
  All-self, string_eq,
}
use reinforcement_learning_c.WorkOrders.Intent.{
  WorkOrdersError, other_error, work_order_error, Actor, Intent, Kind, Execution, IntentHook,
  Happening, effect, cleanup, cleared, start, retry, reviewed, identified, replied, thrown, timeout,
  on_error, on_identified, on_replied, with_execution, happen, happen_all, is_uncertain,
  start_intent, retry_intent, review_intent, execute_intent,
}

module _ {T : Type 0} (key : String) where
  -- A send that was made before, or one under another key.
  abbrev pub IsPastOrOther : List (Intent T) → Intent T → Type 0
  IsPastOrOther old i = Memᴰ i old ⊎ (i.key ≢ key)

  abbrev pub IsOtherExecution : Option (Execution T) → Type 0
  IsOtherExecution none = Unit
  IsOtherExecution (some x) = x.intent.key ≢ key

  abbrev IsSettledIntent : Option (Intent T) → Kind → Option (Execution T) → Type 0
  IsSettledIntent none k x = Unit
  IsSettledIntent (some i) k x = (i.key ≢ key) ⊎ ((is_uncertain k ≡ false) × (x ≡ none))

  -- Nothing under the key is held for another send.
  record IsOver (old : List (Intent T)) (h : IntentHook T) : Type 0 where
    held : IsSettledIntent h.active h.kind h.execution
    running : IsOtherExecution h.execution
    known : All (IsPastOrOther old) h.sends

  -- The events of a page that stays: the effect does not run again, and new keys are other ones.
  abbrev pub IsLater : Happening T → Type 0
  IsLater (effect a scope) = ⊥
  IsLater (start k body) = k ≢ key
  IsLater _ = Unit

  abbrev pub AreLater : List (Happening T) → Type 0
  AreLater [] = Unit
  AreLater (e ∷ es) = IsLater e × AreLater es

  on_error-IsOver :
      (old : List (Intent T)) (e : WorkOrdersError) (x : Execution T) (h : IntentHook T)
      → h.execution ≡ some x
      → IsOver old h
      → IsOver old (on_error e x h)
  unfolding on_error
  on_error-IsOver old e x h r o = ground arith

  on_identified-IsOver :
      (old : List (Intent T)) (a : Actor) (x : Execution T) (h : IntentHook T)
      → h.execution ≡ some x
      → IsOver old h
      → IsOver old (on_identified a x h)
  unfolding on_identified
  on_identified-IsOver old a x h r o = ground arith

  on_replied-IsOver :
      (old : List (Intent T)) (x : Execution T) (h : IntentHook T)
      → h.execution ≡ some x
      → IsOver old h
      → IsOver old (on_replied x h)
  unfolding on_replied
  on_replied-IsOver old x h r o = ground arith

  start_intent-IsOver :
      (old : List (Intent T)) (k : String) (body : T) (h : IntentHook T)
      → k ≢ key
      → IsOver old h
      → IsOver old (start_intent k body h)
  unfolding start_intent execute_intent
  start_intent-IsOver old k body h n o = ground arith

  retry_intent-IsOver :
      (old : List (Intent T)) (h : IntentHook T)
      → IsOver old h
      → IsOver old (retry_intent h.active h)
  unfolding retry_intent execute_intent
  retry_intent-IsOver old h o = ground arith

  review_intent-IsOver :
      (old : List (Intent T)) (h : IntentHook T) → IsOver old h → IsOver old (review_intent h)
  unfolding review_intent
  review_intent-IsOver old h o = ground arith

  with_execution-IsOver :
      (old : List (Intent T)) (f : Execution T → IntentHook T → IntentHook T) (h : IntentHook T)
      → ((x : Execution T) → h.execution ≡ some x → IsOver old (f x h))
      → (r : Option (Execution T)) → h.execution ≡ r
      → IsOver old h
      → IsOver old (with_execution f r h)
  unfolding with_execution
  with_execution-IsOver old f h g none e o = o
  with_execution-IsOver old f h g (some x) e o = g x e

  happen-IsOver :
      (old : List (Intent T)) (e : Happening T) (h : IntentHook T)
      → IsLater e
      → IsOver old h
      → IsOver old (happen e h)
  unfolding happen
  happen-IsOver old (effect a scope) h n o = absurd n
  happen-IsOver old cleanup h n o = ground arith
  happen-IsOver old cleared h n o = ground arith
  happen-IsOver old (start k body) h n o = start_intent-IsOver old k body h n o
  happen-IsOver old retry h n o = retry_intent-IsOver old h o
  happen-IsOver old reviewed h n o = review_intent-IsOver old h o
  happen-IsOver old (identified a) h n o =
      with_execution-IsOver old (on_identified a) h (λ x r. on_identified-IsOver old a x h r o)
        h.execution refl o
  happen-IsOver old replied h n o =
      with_execution-IsOver old on_replied h (λ x r. on_replied-IsOver old x h r o) h.execution refl
        o
  happen-IsOver old (thrown t) h n o =
      with_execution-IsOver old (on_error (work_order_error t)) h
        (λ x r. on_error-IsOver old (work_order_error t) x h r o) h.execution refl o
  happen-IsOver old timeout h n o =
      with_execution-IsOver old (on_error (work_order_error other_error)) h
        (λ x r. on_error-IsOver old (work_order_error other_error) x h r o) h.execution refl o

  happen_all-IsOver :
      (old : List (Intent T)) (es : List (Happening T)) (h : IntentHook T)
      → AreLater es
      → IsOver old h
      → IsOver old (happen_all es h)
  unfolding happen_all
  happen_all-IsOver old [] h n o = o
  happen_all-IsOver old (e ∷ es) h n o =
      happen_all-IsOver old es (happen e h) n.1 (happen-IsOver old e h n.0 o)

-- Once a write is accepted or rejected, its key is never sent again while the page stays on the
-- same scope, whatever the user and the server do: every later send has another key, if every
-- later start has.
pub settled_never_resent :
    {T : Type 0} (es : List (Happening T)) (h : IntentHook T) (i : Intent T)
    → h.active ≡ some i
    → is_uncertain h.kind ≡ false
    → h.execution ≡ none
    → AreLater i.key es
    → All (IsPastOrOther i.key h.sends) (happen_all es h).sends
settled_never_resent es h i active settled over later =
    let start_state : IsOver i.key h.sends h = record {
      held = rw active (inr (settled, over));
      running = rw over tt;
      known = All-self (IsPastOrOther i.key h.sends) h.sends (λ j m. inl m);
    } in
    (happen_all-IsOver i.key h.sends es h later start_state).known
