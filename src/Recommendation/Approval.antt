-- ===== src/Recommendation/Approval.antt =====
-- What the tests of an approval say of the plan that it names
-- (frontend/lib/recommendation-center/data-source.ts).
use mathlib.Core.List.{Memᴰ}
use reinforcement_learning_c.Prelude.{
  String, true, false, Option, none, some, ◌≡◌, arith, eq_iff, string_eq, nat_eq, refl, List, [],
  ◌∷◌, ◌==◌, ◌&&◌, find, any-mem, Bool-cases, inl, inr, sym,
}
use reinforcement_learning_c.Decision.{
  ApprovedCandidate, CommitMetadata, CandidatePlan, Recommendation,
}
use reinforcement_learning_c.Recommendation.{
  plan_of, is_other_candidate, is_plan_schedule, has_hash,
}

-- The plan that an approval names.
abbrev pub IsPlanOf : ApprovedCandidate → CandidatePlan → Type 0
IsPlanOf g p = p.candidate_plan_id ≡ g.candidate_plan_id

-- An approval is of this recommendation, and of one of its plans in its version.
abbrev pub IsApprovalOf : Recommendation → ApprovedCandidate → Type 0
IsApprovalOf r g =
    (g.recommendation_id ≡ r.recommendation_id)
    × ((p : CandidatePlan) × Memᴰ p r.candidate_plans
        × IsPlanOf g p
        × (p.plan_version ≡ g.candidate_version))

pub approval_free :
    (r : Recommendation) (g : ApprovedCandidate)
    → is_other_candidate r (some g) ≡ false
    → IsApprovalOf r g
unfolding is_other_candidate
approval_free r g h =
    let (p, m, found) =
      any-mem
        (λ p. p.candidate_plan_id == g.candidate_plan_id && p.plan_version == g.candidate_version)
        r.candidate_plans (ground arith) in
    (
      ground (arith, eq_iff g.recommendation_id r.recommendation_id),
      (p, m, ground (arith, eq_iff p.candidate_plan_id g.candidate_plan_id), ground arith),
    )

find_plan :
    (id : String) (ps : List CandidatePlan) {p : CandidatePlan}
    → find (λ p. p.candidate_plan_id == id) ps ≡ some p
    → Memᴰ p ps × (p.candidate_plan_id ≡ id)
find_plan id [] h = absurd (ground arith)
find_plan id (q ∷ qs) {p} h = elim (Bool-cases (q.candidate_plan_id == id)) [
  | inl same ↦
      let e : q ≡ p = ground arith in
      (Memᴰ.head (sym e), rw (← e) ((eq_iff q.candidate_plan_id id).0 same))
  | inr other ↦ let (m, e) = find_plan id qs {p = p} (ground arith) in (Memᴰ.tail m, e)
]

pub planned_schedule :
    (r : Recommendation) (approval : Option ApprovedCandidate) (c : CommitMetadata)
    → is_plan_schedule (plan_of r approval) c ≡ true
    → (p : CandidatePlan) × Memᴰ p r.candidate_plans
      × (c.schedule_id ≡ p.schedule.schedule_id)
      × (c.schedule_revision ≡ p.schedule.revision)
      × ((g : ApprovedCandidate) × (approval ≡ some g) × IsPlanOf g p)
planned_schedule r none c h = absurd (ground arith)
planned_schedule r (some g) c h =
    named (find (λ p. p.candidate_plan_id == g.candidate_plan_id) r.candidate_plans) refl h
  where
    named :
        (o : Option CandidatePlan)
        → find (λ p. p.candidate_plan_id == g.candidate_plan_id) r.candidate_plans ≡ o
        → is_plan_schedule o c ≡ true
        → (p : CandidatePlan) × Memᴰ p r.candidate_plans
          × (c.schedule_id ≡ p.schedule.schedule_id)
          × (c.schedule_revision ≡ p.schedule.revision)
          × ((k : ApprovedCandidate) × (some g ≡ some k) × IsPlanOf k p)
    named none e f = absurd (ground arith)
    named (some p) e f =
        let (m, own) = find_plan g.candidate_plan_id r.candidate_plans e in
        (
          p,
          m,
          ground (arith, eq_iff c.schedule_id p.schedule.schedule_id),
          ground arith,
          (g, refl, own),
        )

pub approved_hash :
    (approval : Option ApprovedCandidate) (c : CommitMetadata)
    → has_hash approval c ≡ true
    → (g : ApprovedCandidate) × (approval ≡ some g) × (c.schedule_hash ≡ g.schedule_hash)
approved_hash none c h = absurd (ground arith)
approved_hash (some g) c h = (g, refl, ground (arith, eq_iff c.schedule_hash g.schedule_hash))
