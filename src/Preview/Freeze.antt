-- ===== src/Preview/Freeze.antt =====
-- A publication ends the decisions on every older case (frontend/lib/operations-api/mock.ts).
use reinforcement_learning_c.Prelude.{
  ℕ, ◌≤◌, ◌<◌, String, Bool, Option, some, ok, ◌≡◌, inl, inr, arith, lookup, sym, ◌∙◌, ap,
}
use reinforcement_learning_c.Preview.{
  Fixture, Env, CaseResponse, CaseItem, CommandBody, Choice, approve, reject, commit, Store,
}
use reinforcement_learning_c.Preview.Create.{store_case}
use reinforcement_learning_c.Preview.Commands.{submit_decision_command, advance, store_advanced}
use reinforcement_learning_c.Preview.Receipts.{create_cases}
use reinforcement_learning_c.Preview.Replay.{
  Step, create, submit, get, Steps, here, next, get_cases,
}
use reinforcement_learning_c.Preview.Publish.{Publishes, submit_sound}

Publishes-le :
    (fx : Fixture) (env : Env) (s : Store) (case_id : String) (item : CaseItem) (choice : Choice)
    (s' : Store)
    → Publishes fx env s case_id item choice s'
    → s.plan_version ≤ s'.plan_version
Publishes-le fx env s case_id item (approve c v n) s' h = omega arith
Publishes-le fx env s case_id item (reject n) s' h = omega arith
Publishes-le fx env s case_id item (commit c v) s' (plan, chosen, l, a, p, raised, m) = omega arith

advance-plan_version :
    (env : Env) (s : Store) (case_id : String) (item : CaseItem)
    → (advance env s case_id item).plan_version ≡ s.plan_version
unfolding advance store_advanced
advance-plan_version env s case_id item = ground arith

le_of_eq : {a b : ℕ} → a ≡ b → a ≤ b
le_of_eq e = omega arith

Step-plan_version : {fx : Fixture} {s s' : Store} → Step fx s s' → s.plan_version ≤ s'.plan_version
unfolding store_case
Step-plan_version {fx} {s} (create env aborted key body r e) =
    elim (create_cases fx env s aborted key body e) [
      | inl (same, replay) ↦ le_of_eq (ap (λ x. x.plan_version) (sym same))
      | inr (stored, a, b, c, d) ↦ le_of_eq (ap (λ x. x.plan_version) (sym stored))
    ]
Step-plan_version {fx} {s} {s'} (submit env aborted key case_id body r e) =
    elim (submit_sound fx env s aborted key case_id body e) [
      | inl (same, replay) ↦ le_of_eq (ap (λ x. x.plan_version) (sym same))
      | inr d ↦ Publishes-le fx env s case_id d.item body.choice s' d.publishes
    ]
Step-plan_version {fx} {s} (get env aborted case_id r e) =
    let (item, found, stored) = get_cases fx env s aborted case_id e in
    le_of_eq (sym (advance-plan_version env s case_id item) ∙ ap (λ x. x.plan_version) (sym stored))

Steps-plan_version :
    {fx : Fixture} {s s' : Store} → Steps fx s s' → s.plan_version ≤ s'.plan_version
Steps-plan_version here = omega arith
Steps-plan_version (next r st) = omega (arith, Steps-plan_version r, Step-plan_version st)

some_base :
    {a b : CaseItem} {o : Option CaseItem}
    → o ≡ some a
    → o ≡ some b
    → a.response.meta.base_plan_version ≡ b.response.meta.base_plan_version
some_base {a} {b} p q =
    let e : a ≡ b = cc in ap (λ (x : CaseItem). x.response.meta.base_plan_version) e

-- After a plan version was raised above the base of a case, a command on that case can only
-- replay a receipt: whatever calls came between, it never changes the store again.
pub stale_case_frozen :
    (fx : Fixture) (env : Env) (s t : Store) (aborted : Bool) (key case_id : String)
    (body : CommandBody) (item : CaseItem) {t' : Store} {r : CaseResponse}
    → Steps fx s t
    → lookup case_id t.cases ≡ some item
    → item.response.meta.base_plan_version < s.plan_version
    → submit_decision_command fx env t aborted key case_id body ≡ ok (t', r)
    → t' ≡ t
stale_case_frozen fx env s t aborted key case_id body item steps found older e =
    elim (submit_sound fx env t aborted key case_id body e) [
      | inl (same, replay) ↦ same
      | inr d ↦
          absurd (omega (arith, Steps-plan_version steps, some_base found d.found, le_of_eq d.base))
    ]
