-- ===== src/WorkOrders/Intent/Errors.antt =====
-- Where an error leaves a write (frontend/lib/work-orders/use-work-order-intent.ts).
use reinforcement_learning_c.Prelude.{
  ◌≤◌, ◌<◌, true, false, none, some, [], ◌≡◌, ◌⊎◌, inl, inr, ◌↔◌, arith, lookup, lookup-insert_self,
  Bool-cases,
}
use reinforcement_learning_c.WorkOrders.Intent.{
  WorkOrdersError, Thrown, work_order_error, uncertain, rejected, Await, Execution, IntentHook,
  thrown, on_error, with_execution, happen, is_after_receipt, is_session_changed, is_rejection,
  clear_work_order_memory, forget_if,
}

-- The error of a rejected request: a client error that came before the receipt, or a change of
-- session, which the client reports with status 401.
pub record IsRejection (e : WorkOrdersError) (x : Await) : Type 0 where
  pub client_error : (400 ≤ e.status) × (e.status < 500)
  pub unconfirmed : (is_after_receipt x ≡ false) ⊎ (is_session_changed e ≡ true)

is_rejection-IsRejection :
    (e : WorkOrdersError) (x : Await)
    → (is_rejection (is_after_receipt x) e ≡ true) ↔ IsRejection e x
unfolding is_rejection
is_rejection-IsRejection e x = ground arith

module _ {T : Type 0} where
  -- The state after an error: unlocked, and rejected or uncertain; the request is kept unless the
  -- session changed, when the memory is emptied.
  pub record IsAnswered (e : WorkOrdersError) (x : Execution T) (h h' : IntentHook T) : Type 0 where
    pub unlocked : (h'.locked ≡ false) × (h'.execution ≡ none)
    pub unsent : h'.sends ≡ h.sends
    pub told :
        (IsRejection e x.await
          × (h'.kind ≡ rejected e)
          × (lookup x.intent.key h'.memory.rejections ≡ some e))
        ⊎ ((h'.kind ≡ uncertain (some e)) × ((IsRejection e x.await) → ⊥))
    pub kept :
        is_session_changed e ≡ false
        → (h'.active ≡ h.active) × (h'.memory.pending ≡ h.memory.pending)
    pub forgotten : is_session_changed e ≡ true → (h'.active ≡ none) × (h'.memory.pending ≡ [])

  on_error-IsAnswered :
      (e : WorkOrdersError) (x : Execution T) (h : IntentHook T) → IsAnswered e x h (on_error e x h)
  unfolding on_error clear_work_order_memory
  on_error-IsAnswered e x h =
      let told = is_rejection-IsRejection e x.await in
      let stored =
        lookup-insert_self x.intent.key e (forget_if (is_session_changed e) h).memory.rejections in
      elim (Bool-cases (is_rejection (is_after_receipt x.await) e)) [
        | inl rejecting ↦ rw rejecting (ground (arith, told, stored, rejecting))
        | inr not_so ↦ rw not_so (ground (arith, told, not_so))
      ]

  -- After an error while a request runs, the hook is unlocked and has sent nothing more; it shows
  -- the request as rejected, and remembers so, exactly for an error of status 400 to 499 that came
  -- before the receipt or tells of a changed session, and otherwise as uncertain; it keeps the request unless the session changed,
  -- when nothing is remembered of any request.
  pub thrown-IsAnswered :
      (t : Thrown) (x : Execution T) (h : IntentHook T)
      → h.execution ≡ some x
      → IsAnswered (work_order_error t) x h (happen (thrown t) h)
  unfolding happen with_execution
  thrown-IsAnswered t x h r = simp r (on_error-IsAnswered (work_order_error t) x h)
