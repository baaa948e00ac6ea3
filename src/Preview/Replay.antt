-- ===== src/Preview/Replay.antt =====
-- Runs of the preview, and what a repeated request gets (frontend/lib/operations-api/mock.ts).
use reinforcement_learning_c.Prelude.{
  String, Bool, true, false, some, ok, ◌≡◌, inl, inr, arith, lookup, lookup-insert_new,
  lookup-insert_self, >>=-eq-ok, sym,
}
use reinforcement_learning_c.Preview.{
  Fixture, Env, CaseResponse, CaseItem, CreateBody, CommandBody, create_body, command_body, Receipt,
  Store, check,
}
use reinforcement_learning_c.Preview.Requests.{same_body, receipt, is_key}
use reinforcement_learning_c.Preview.Create.{create_decision_case, store_case}
use reinforcement_learning_c.Preview.Commands.{
  apply_effect, finish, submit_new, submit_decision_command, get_decision_case, found_case, advance,
  store_advanced,
}
use reinforcement_learning_c.Preview.Receipts.{
  create_cases, submit_cases, receipt_new, receipt_stored, receipt-is_key, receipt_known,
  same_body_refl,
}

-- A call that returns a response, and the store behind it.
pub data Step (fx : Fixture) (s s' : Store) : Type 0 where
  create :
      (env : Env) (aborted : Bool) (key : String) (body : CreateBody) (r : CaseResponse)
      → create_decision_case fx env s aborted key body ≡ ok (s', r)
      → Step fx s s'
  submit :
      (env : Env) (aborted : Bool) (key case_id : String) (body : CommandBody) (r : CaseResponse)
      → submit_decision_command fx env s aborted key case_id body ≡ ok (s', r)
      → Step fx s s'
  get :
      (env : Env) (aborted : Bool) (case_id : String) (r : CaseResponse)
      → get_decision_case fx env s aborted case_id ≡ ok (s', r)
      → Step fx s s'

pub data Steps (fx : Fixture) (s : Store) : Store → Type 0 where
  here : Steps fx s s
  next : {t u : Store} → Steps fx s t → Step fx t u → Steps fx s u

found_case_ok :
    (case_id : String) (s : Store) {item : CaseItem}
    → found_case case_id s ≡ ok item
    → lookup case_id s.cases ≡ some item
unfolding found_case
found_case_ok case_id s h = ground arith

pub get_cases :
    (fx : Fixture) (env : Env) (s : Store) (aborted : Bool) (case_id : String) {s' : Store}
    {r : CaseResponse}
    → get_decision_case fx env s aborted case_id ≡ ok (s', r)
    → (item : CaseItem) × (lookup case_id s.cases ≡ some item) × (s' ≡ advance env s case_id item)
unfolding get_decision_case
get_cases fx env s aborted case_id h =
    let (u, checked, h₁) = >>=-eq-ok (check fx aborted) _ h in
    let (item, found, h₂) = >>=-eq-ok (found_case case_id s) _ h₁ in
    (item, found_case_ok case_id s found, cc)

advance-receipts :
    (env : Env) (s : Store) (case_id : String) (item : CaseItem)
    → (advance env s case_id item).receipts ≡ s.receipts
unfolding advance store_advanced
advance-receipts env s case_id item = ground arith

-- No call changes or removes a stored receipt.
module _ (k : String) (q : Receipt) {fx : Fixture} where
  Step-keeps_receipt :
      {s s' : Store} → Step fx s s' → lookup k s.receipts ≡ some q → lookup k s'.receipts ≡ some q
  unfolding store_case apply_effect
  Step-keeps_receipt {s} (create env aborted key body r e) h =
      elim (create_cases fx env s aborted key body e) [
        | inl (same, replay) ↦ rw same h
        | inr (stored, answer, new, a, b) ↦
            rw stored
              (lookup-insert_new key k _ q s.receipts (receipt_new s key (create_body body) new) h)
      ]
  Step-keeps_receipt {s} (submit env aborted key case_id body r e) h =
      elim (submit_cases fx env s aborted key case_id body e) [
        | inl (same, replay) ↦ rw same h
        | inr d ↦ rw (d.store) (
            lookup-insert_new key k _ q s.receipts (receipt_new s key (command_body body) d.unused)
              h)
      ]
  Step-keeps_receipt {s} (get env aborted case_id r e) h =
      let (item, found, stored) = get_cases fx env s aborted case_id e in
      rw (stored, advance-receipts env s case_id item) h

  Steps-keeps_receipt :
      {s s' : Store} → Steps fx s s' → lookup k s.receipts ≡ some q → lookup k s'.receipts ≡ some q
  Steps-keeps_receipt here h = h
  Steps-keeps_receipt (next r st) h = Step-keeps_receipt st (Steps-keeps_receipt r h)

-- A submitted command that succeeded has its receipt.
submit-receipt :
    (fx : Fixture) (env : Env) (s : Store) (aborted : Bool) (key case_id : String)
    (body : CommandBody) {s' : Store} {r : CaseResponse}
    → submit_decision_command fx env s aborted key case_id body ≡ ok (s', r)
    → (q : Receipt) × (lookup key s'.receipts ≡ some q)
      × (q.response ≡ r)
      × (same_body q.body (command_body body) ≡ true)
unfolding apply_effect
submit-receipt fx env s aborted key case_id body e =
    elim (submit_cases fx env s aborted key case_id body e) [
      | inl (same, replay) ↦ rw same (receipt_known s key (command_body body) replay)
      | inr d ↦ (
        record { body = command_body body; response = finish fx env s d.effect },
        rw d.store (lookup-insert_self key _ s.receipts),
        sym d.answer,
        same_body_refl (command_body body),
      )
    ]

submit_is_key :
    (fx : Fixture) (env : Env) (s : Store) (aborted : Bool) (key case_id : String)
    (body : CommandBody) {s' : Store} {r : CaseResponse}
    → submit_decision_command fx env s aborted key case_id body ≡ ok (s', r)
    → (check fx false ≡ ok tt) × (is_key key ≡ true)
unfolding submit_decision_command check
submit_is_key fx env s aborted key case_id body e =
    let (u, checked, h₁) = >>=-eq-ok (check fx aborted) _ e in
    let (replay, q, h₂) = >>=-eq-ok (receipt s key (command_body body)) _ h₁ in
    (ground arith, receipt-is_key s key (command_body body) q)

submit-stored :
    (fx : Fixture) (env : Env) (t : Store) (key case_id : String) (body : CommandBody) (q : Receipt)
    → check fx false ≡ ok tt
    → is_key key ≡ true
    → lookup key t.receipts ≡ some q
    → same_body q.body (command_body body) ≡ true
    → submit_decision_command fx env t false key case_id body ≡ ok (t, q.response)
unfolding submit_decision_command submit_new
submit-stored fx env t key case_id body q checked valid found same =
    rw (checked, receipt_stored t key (command_body body) q valid found same)

-- A command that succeeded, repeated under its key after any further calls, whatever they did and
-- at whatever time, returns the first response and changes nothing.
pub submit_replay :
    (fx : Fixture) (env env' : Env) (s t : Store) (aborted : Bool) (key case_id : String)
    (body : CommandBody) {s' : Store} {r : CaseResponse}
    → submit_decision_command fx env s aborted key case_id body ≡ ok (s', r)
    → Steps fx s' t
    → submit_decision_command fx env' t false key case_id body ≡ ok (t, r)
submit_replay fx env env' s t aborted key case_id body e steps =
    let (q, found, answer, same) = submit-receipt fx env s aborted key case_id body e in
    let (checked, valid) = submit_is_key fx env s aborted key case_id body e in
    rw (← answer) (
      submit-stored fx env' t key case_id body q checked valid
        (Steps-keeps_receipt key q steps found) same)
