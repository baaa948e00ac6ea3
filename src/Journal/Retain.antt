-- ===== src/Journal/Retain.antt =====
-- What keeps the journal, and what sends (frontend/lib/operations-api/use-operations-action.ts).
use reinforcement_learning_c.Prelude.{
  Bool, true, false, not, ◌&&◌, List, [], ◌∷◌, none, some, ◌==◌, nat_eq, leb, ltb, ◌≡◌, refl, arith,
  ◌∙◌, if◌then◌else◌,
}
use reinforcement_learning_c.Journal.{
  Failure, api, auth_redirect, other, Action, Request, Hook, Event, mount, unmount, start, recover,
  acknowledge, actor_resolved, sent, failed, timeout, verdict, Verdict, on_verdict, clear, fail,
  on_failed, on_actor, step, run, on_sent,
}

-- The answers that settle a request for good: a client error other than 401 and 403.
abbrev pub is_final : Failure → Bool
is_final (api s) = leb 400 s && ltb s 500 && not (s == 401) && not (s == 403)
is_final auth_redirect = false
is_final other = false

module _ {B : Type 0} where
  -- The rest of a hook after a failure, by the failure.
  on_verdict-active :
      (f : Failure) (a : Action B) (ok : Bool) (h : Hook B)
      → (on_verdict (verdict f) a ok h).active ≡ (if is_final f then none else h.active)
  unfolding on_verdict verdict
  on_verdict-active f a ok h = ground arith

  on_verdict-storage :
      (f : Failure) (a : Action B) (ok : Bool) (h : Hook B)
      → (on_verdict (verdict f) a ok h).storage ≡ (if is_final f && ok then none else h.storage)
  unfolding on_verdict verdict clear
  on_verdict-storage f a ok h = ground arith

  on_verdict-posts :
      (v : Verdict) (a : Action B) (ok : Bool) (h : Hook B) → (on_verdict v a ok h).posts ≡ h.posts
  unfolding on_verdict
  on_verdict-posts v a ok h = ground arith

  -- What a settled failure leaves.
  pub record IsSettled (f : Failure) (ok : Bool) (h h' : Hook B) : Type 0 where
    pub held : h'.active ≡ (if is_final f then none else h.active)
    pub stored : h'.storage ≡ (if is_final f && ok then none else h.storage)
    pub unlocked : h'.locked ≡ false
    pub done : h'.request ≡ none
    pub quiet : h'.posts ≡ h.posts

  fail-IsSettled :
      (f : Failure) (ok : Bool) (q : Request B) (h : Hook B)
      → h.mounted ≡ true
      → IsSettled f ok h (fail f ok q h)
  unfolding fail
  fail-IsSettled f ok q h m = ground (
    arith,
    on_verdict-active f q.action ok h,
    on_verdict-posts (verdict f) q.action ok h,
    on_verdict-storage f q.action ok h,
  )

  -- A failure of the running request, while the hook is mounted, unlocks the hook and sends nothing.
  -- If the answer is a client error other than 401 and 403, the action is dropped from memory, and
  -- from the storage where the storage can be written; on any other failure, a network error or an
  -- expired session among them, both keep what they had.
  pub failed-IsSettled :
      (f : Failure) (ok : Bool) (q : Request B) (h : Hook B)
      → h.mounted ≡ true
      → h.request ≡ some q
      → IsSettled f ok h (step (failed f ok) h)
  unfolding step on_failed
  failed-IsSettled f ok q h m r = simp r (fail-IsSettled f ok q h m)

  -- A run without a start or a recovery sends nothing, when no request was running.
  abbrev pub IsAction : Event B → Type 0
  IsAction (start key body ok) = Unit
  IsAction recover = Unit
  IsAction _ = ⊥

  abbrev pub IsPassive : List (Event B) → Type 0
  IsPassive [] = Unit
  IsPassive (e ∷ es) = (¬ IsAction e) × IsPassive es

  passive-step :
      (e : Event B) (h : Hook B)
      → ¬ IsAction e
      → h.request ≡ none
      → ((step e h).request ≡ none) × ((step e h).posts ≡ h.posts)
  unfolding step on_failed on_actor on_sent
  passive-step (mount ok) h n r = ground arith
  passive-step unmount h n r = ground arith
  passive-step (start key body ok) h n r = absurd (n tt)
  passive-step recover h n r = absurd (n tt)
  passive-step (acknowledge ok) h n r = ground arith
  passive-step (actor_resolved id ok) h n r = simp r (refl, refl)
  passive-step sent h n r = simp r (refl, refl)
  passive-step (failed f ok) h n r = simp r (refl, refl)
  passive-step timeout h n r = simp r (refl, refl)

  passive-run :
      (es : List (Event B)) (h : Hook B)
      → IsPassive es
      → h.request ≡ none
      → (run es h).posts ≡ h.posts
  unfolding run
  passive-run [] h n r = refl
  passive-run (e ∷ es) h (n, ns) r =
      let (idle_still, quiet) = passive-step e h n r in
      passive-run es (step e h) ns idle_still ∙ quiet

  mount-quiet :
      (ok : Bool) (h : Hook B)
      → ((step (mount ok) h).request ≡ none) × ((step (mount ok) h).posts ≡ h.posts)
  unfolding step
  mount-quiet ok h = ground arith

  -- Mounting and reloading never send: after a mount nothing is sent, whatever is restored and
  -- whatever happens, until the user starts or recovers an action.
  pub mount_never_posts :
      (ok : Bool) (es : List (Event B)) (h : Hook B)
      → IsPassive es
      → (run (mount ok ∷ es) h).posts ≡ h.posts
  unfolding run
  mount_never_posts ok es h ns =
      let (none_left, quiet) = mount-quiet ok h in
      passive-run es (step (mount ok) h) ns none_left ∙ quiet
