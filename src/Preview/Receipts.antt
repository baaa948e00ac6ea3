-- ===== src/Preview/Receipts.antt =====
-- Idempotency of the preview's writes: a receipt is stored once, is kept by every later call, and
-- answers every repetition of its request.
use reinforcement_learning_c.Prelude.{
  String, Bool, true, false, Option, none, some, Result, ok, err, ◌≡◌, refl, ◌⊎◌, inl, inr, arith,
  eq_iff, eq_refl, lookup, if◌then◌else◌, Option-cases, >>=-eq-ok, nat_eq, string_eq,
}
use reinforcement_learning_c.Decision.{live, simulation_only, Mode}
use reinforcement_learning_c.Preview.{
  ApiFailure, failure, Fixture, Env, CaseResponse, CaseItem, CreateBody, CommandBody, Choice,
  approve, reject, commit, Body, create_body, command_body, Receipt, Store, check,
}
use reinforcement_learning_c.Preview.Requests.{
  same_mode, same_note, same_choice, same_body, receipt, is_key,
}
use reinforcement_learning_c.Preview.Create.{create_to, create_decision_case, store_case, new_case}
use reinforcement_learning_c.Preview.Decide.{decide, is_current, is_open_for, Effect}
use reinforcement_learning_c.Preview.Commands.{
  apply_effect, finish, submit_to, submit_new, submit_decision_command,
}

same_mode_refl : (m : Mode) → same_mode m m ≡ true
unfolding same_mode
same_mode_refl live = refl
same_mode_refl simulation_only = refl

same_note_refl : (n : Option String) → same_note n n ≡ true
unfolding same_note
same_note_refl none = refl
same_note_refl (some n) = eq_refl n

same_choice_refl : (c : Choice) → same_choice c c ≡ true
unfolding same_choice
same_choice_refl (approve c v n) = ground (arith, eq_refl c, same_note_refl n)
same_choice_refl (reject n) = eq_refl n
same_choice_refl (commit c v) = ground (arith, eq_refl c)

pub same_body_refl : (b : Body) → same_body b b ≡ true
unfolding same_body
same_body_refl (create_body a) = ground (
  arith,
  eq_refl a.factory_id,
  eq_refl a.expected_snapshot_id,
  eq_refl a.trigger,
  same_mode_refl a.mode,
)
same_body_refl (command_body a) = ground (
  arith,
  eq_refl a.decision_case_id,
  eq_refl a.recommendation_id,
  eq_refl a.expected_snapshot_id,
  same_choice_refl a.choice,
)

pub receipt_new :
    (s : Store) (key : String) (body : Body)
    → receipt s key body ≡ ok none
    → lookup key s.receipts ≡ none
unfolding receipt
receipt_new s key body h = ground arith

-- Where a response is replayed, it is that of a stored receipt of the same body.
abbrev found_answer : Body → Option Receipt → Result ApiFailure (Option CaseResponse)
found_answer body none = ok none
found_answer body (some r) =
    if same_body r.body body
    then ok (some r.response)
    else err (failure 409 "IDEMPOTENCY_KEY_REUSED")

found_answer_known :
    (body : Body) (o : Option Receipt) {r : CaseResponse}
    → found_answer body o ≡ ok (some r)
    → (q : Receipt) × (o ≡ some q) × (q.response ≡ r) × (same_body q.body body ≡ true)
found_answer_known body none h = cc
found_answer_known body (some q) h = (q, refl, ground arith, ground arith)

pub receipt_known :
    (s : Store) (key : String) (body : Body) {r : CaseResponse}
    → receipt s key body ≡ ok (some r)
    → (q : Receipt) × (lookup key s.receipts ≡ some q)
      × (q.response ≡ r)
      × (same_body q.body body ≡ true)
receipt_known s key body h =
    found_answer_known body (lookup key s.receipts) (unfold receipt in ground arith)

-- A stored receipt of the same body answers.
pub receipt_stored :
    (s : Store) (key : String) (body : Body) (q : Receipt)
    → is_key key ≡ true
    → lookup key s.receipts ≡ some q
    → same_body q.body body ≡ true
    → receipt s key body ≡ ok (some q.response)
unfolding receipt
receipt_stored s key body q valid h e = ground arith

-- So does one of another body: by a refusal.
pub receipt_reused :
    (s : Store) (key : String) (body : Body) (q : Receipt)
    → is_key key ≡ true
    → lookup key s.receipts ≡ some q
    → same_body q.body body ≡ false
    → receipt s key body ≡ err (failure 409 "IDEMPOTENCY_KEY_REUSED")
unfolding receipt
receipt_reused s key body q valid h e = ground arith

pub receipt-is_key :
    (s : Store) (key : String) (body : Body) {r : Option CaseResponse}
    → receipt s key body ≡ ok r
    → is_key key ≡ true
unfolding receipt
receipt-is_key s key body h = ground arith

-- What a successful create did: replayed a receipt, or stored a new case under a new key.
pub create_cases :
    (fx : Fixture) (env : Env) (s : Store) (aborted : Bool) (key : String) (body : CreateBody)
    {s' : Store} {r : CaseResponse}
    → create_decision_case fx env s aborted key body ≡ ok (s', r)
    → ((s' ≡ s) × (receipt s key (create_body body) ≡ ok (some r)))
      ⊎ ((s' ≡ store_case fx env s key body)
          × (r ≡ (new_case fx env s body).response)
          × (receipt s key (create_body body) ≡ ok none)
          × (body.expected_snapshot_id ≡ fx.basis.snapshot_id)
          × (body.expected_plan_version ≡ s.plan_version))
unfolding create_decision_case create_to
create_cases fx env s aborted key body h =
    ground (arith, eq_iff body.expected_snapshot_id fx.basis.snapshot_id)

submit_to_cases :
    (fx : Fixture) (env : Env) (s : Store) (key case_id : String) (body : CommandBody)
    (item : CaseItem) {s' : Store} {r : CaseResponse}
    → submit_to fx env s key case_id body (some item) ≡ ok (s', r)
    → (e : Effect) × (is_current fx s case_id item body ≡ true)
      × (is_open_for body.choice item.response.case_status.status ≡ true)
      × (decide fx env s case_id item body body.choice ≡ ok e)
      × (s' ≡ apply_effect fx env s case_id key item body e)
      × (r ≡ finish fx env s e)
unfolding submit_to
submit_to_cases fx env s key case_id body item h = ground arith

-- A submitted command that went through: a new decision on a case of the store.
pub record Decided (fx : Fixture) (env : Env) (s : Store) (key case_id : String)
    (body : CommandBody) (s' : Store) (r : CaseResponse) : Type 0 where
  pub item : CaseItem
  pub effect : Effect
  pub found : lookup case_id s.cases ≡ some item
  pub current : is_current fx s case_id item body ≡ true
  pub is_open : is_open_for body.choice item.response.case_status.status ≡ true
  pub decided : decide fx env s case_id item body body.choice ≡ ok effect
  pub store : s' ≡ apply_effect fx env s case_id key item body effect
  pub answer : r ≡ finish fx env s effect
  pub unused : receipt s key (command_body body) ≡ ok none

submit_new_cases :
    (fx : Fixture) (env : Env) (s : Store) (key case_id : String) (body : CommandBody)
    (replay : Option CaseResponse) {s' : Store} {r : CaseResponse}
    → receipt s key (command_body body) ≡ ok replay
    → submit_new fx env s key case_id body replay ≡ ok (s', r)
    → ((s' ≡ s) × (receipt s key (command_body body) ≡ ok (some r)))
      ⊎ Decided fx env s key case_id body s' r
unfolding submit_new
submit_new_cases fx env s key case_id body (some response) q h = inl (ground arith)
submit_new_cases fx env s key case_id body none q h = elim (Option-cases (lookup case_id s.cases)) [
  | inl missing ↦ absurd (unfold submit_to in cc (rw missing at h))
  | inr (item, found) ↦
      let (e, current, open_for, decided, store, answer) =
        submit_to_cases fx env s key case_id body item (rw found at h) in
      inr (record {
        item = item;
        effect = e;
        found = found;
        current = current;
        is_open = open_for;
        decided = decided;
        store = store;
        answer = answer;
        unused = q;
      })
]

pub submit_cases :
    (fx : Fixture) (env : Env) (s : Store) (aborted : Bool) (key case_id : String)
    (body : CommandBody) {s' : Store} {r : CaseResponse}
    → submit_decision_command fx env s aborted key case_id body ≡ ok (s', r)
    → ((s' ≡ s) × (receipt s key (command_body body) ≡ ok (some r)))
      ⊎ Decided fx env s key case_id body s' r
unfolding submit_decision_command
submit_cases fx env s aborted key case_id body h =
    let (u, checked, h₁) = >>=-eq-ok (check fx aborted) _ h in
    let (replay, q, h₂) = >>=-eq-ok (receipt s key (command_body body)) _ h₁ in
    submit_new_cases fx env s key case_id body replay q h₂
