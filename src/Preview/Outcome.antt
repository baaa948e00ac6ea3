-- ===== src/Preview/Outcome.antt =====
-- What REJECT, APPROVE and COMMIT decide, by inversion (frontend/lib/operations-api/mock.ts).
use reinforcement_learning_c.Prelude.{
  ℕ, String, Bool, true, Option, none, some, ok, ◌≡◌, inl, inr, arith, eq_iff, Bool-cases,
  >>=-eq-ok, sym, find, List, [], ◌∷◌,
}
use mathlib.Core.List.{Memᴰ}
use reinforcement_learning_c.Decision.{
  Status, awaiting_approval, approved, rejected, committed, Recommendation, CandidatePlan, is_live,
  is_approved, is_awaiting_approval,
}
use reinforcement_learning_c.Preview.{
  Fixture, Env, CaseResponse, CaseItem, CommandBody, approve, reject, commit, Store,
}
use reinforcement_learning_c.Preview.Decide.{
  Effect, decide, decide_reject, decide_approve, decide_commit, valid_candidate, of_version,
  is_approved_candidate, commit_of,
}

pub is_awaiting : (t : Status) → is_awaiting_approval t ≡ true → t ≡ awaiting_approval
is_awaiting t h = ground arith

pub is_approved_eq : (t : Status) → is_approved t ≡ true → t ≡ approved
is_approved_eq t h = ground arith

-- The candidate found has the name and version asked for, and is valid.
pub record IsChosen (r : Recommendation) (candidate : String) (version : ℕ) (p : CandidatePlan)
    : Type 0 where
  pub listed : Memᴰ p r.candidate_plans
  pub named : p.candidate_plan_id ≡ candidate
  pub versioned : p.plan_version ≡ version
  pub valid : p.is_valid ≡ true

find_sound {ℓ} :
    {A : Type ℓ} (test : A → Bool) (xs : List A) {x : A}
    → find test xs ≡ some x
    → Memᴰ x xs × (test x ≡ true)
find_sound test [] h = cc
find_sound test (y ∷ ys) {x} h = elim (Bool-cases (test y)) [
  | inl hit ↦
      let found : some y ≡ some x = rw hit at h in
      let same : y ≡ x = cc in (Memᴰ.head (sym same), rw (← same) hit)
  | inr miss ↦
      let (later, holds) = find_sound test ys {x = x} (rw miss at h) in (Memᴰ.tail later, holds)
]

of_version_ok :
    (version : ℕ) (o : Option CandidatePlan) {p : CandidatePlan}
    → of_version version o ≡ ok p
    → (o ≡ some p) × (p.plan_version ≡ version) × (p.is_valid ≡ true)
of_version_ok version none h = cc
of_version_ok version (some q) h = ground arith

valid_candidate_sound :
    (r : Recommendation) (candidate : String) (version : ℕ) {p : CandidatePlan}
    → valid_candidate r candidate version ≡ ok p
    → IsChosen r candidate version p
unfolding valid_candidate
valid_candidate_sound r candidate version h =
    let (found, versioned, valid) = of_version_ok version _ h in
    let (listed, named) = find_sound _ r.candidate_plans found in
    record {
      listed = listed;
      named = (eq_iff _ candidate).0 named;
      versioned = versioned;
      valid = valid;
    }

-- What a decision changes, by its command; `same_basis` is what none of them touches.
pub record Keeps (r r' : CaseResponse) : Type 0 where
  pub id : r'.case_status.decision_case_id ≡ r.case_status.decision_case_id
  pub base : r'.meta.base_plan_version ≡ r.meta.base_plan_version
  pub revision : r'.meta.case_revision ≡ r.meta.case_revision

module _ (fx : Fixture) (env : Env) (s : Store) (case_id : String) (item : CaseItem)
    (body : CommandBody) where
  pub decide_reject_ok :
      (note : String) {e : Effect}
      → decide fx env s case_id item body (reject note) ≡ ok e
      → Keeps item.response e.response
        × (e.published ≡ none)
        × (e.response.case_status.status ≡ rejected)
  unfolding decide decide_reject
  decide_reject_ok note h = ground arith

  pub decide_approve_ok :
      (candidate : String) (version : ℕ) (n : Option String) {e : Effect}
      → decide fx env s case_id item body (approve candidate version n) ≡ ok e
      → (plan : CandidatePlan) × IsChosen item.recommendation candidate version plan
        × Keeps item.response e.response
        × (e.published ≡ none)
        × (e.response.case_status.status ≡ approved)
  unfolding decide
  decide_approve_ok candidate version n h =
      let (plan, found, h') =
        >>=-eq-ok (valid_candidate item.recommendation candidate version) _ h in
      (
        plan,
        valid_candidate_sound item.recommendation candidate version found,
        unfold decide_approve in (ground arith),
        unfold decide_approve in (ground arith),
        unfold decide_approve in (ground arith),
      )

  pub decide_commit_ok :
      (candidate : String) (version : ℕ) {e : Effect}
      → decide fx env s case_id item body (commit candidate version) ≡ ok e
      → (plan : CandidatePlan) × IsChosen item.recommendation candidate version plan
        × Keeps item.response e.response
        × (is_live item.response.case_status.mode ≡ true)
        × (is_approved_candidate item.response.meta.approved_candidate candidate version ≡ true)
        × (e.published
            ≡ some (plan.schedule, commit_of fx env s case_id item.response.meta plan.schedule))
        × (e.response.case_status.status ≡ committed)
  unfolding decide
  decide_commit_ok candidate version h =
      let (plan, found, h') =
        >>=-eq-ok (valid_candidate item.recommendation candidate version) _ h in
      let chosen = valid_candidate_sound item.recommendation candidate version found in
      unfold decide_commit in
      (plan, chosen, ground arith, ground arith, ground arith, ground arith, ground arith)
