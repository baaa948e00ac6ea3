-- ===== src/Decisions/Review/Once.antt =====
-- A decision of frontend/lib/decision-api/mock.ts is decided once.
use reinforcement_learning_c.Prelude.{
  String, Bool, true, false, not, Option, none, some, List, [], ◌∷◌, ◌≡◌, inl, inr, refl, string_eq,
  ◌==◌, Result, ok, err, insert, lookup, arith, Bool-cases, Option-cases, Ensures, >>=-Ensures,
  throw_if-Ensures, need-Ensures, need_last-Ensures, eq_iff, sym, ◌∙◌,
}
use reinforcement_learning_c.Decisions.Review.{
  pending_review, ReviewAction, Review, History, ReviewInput, Stamp, PreviewError, Decisions,
  is_pending, find_decision, update_decision, is_bad_override, new_review, decide, verdict,
  known_ids, row_of, new_history, invalid_transition, not_found, invalid_replacement, approve,
  reject, override,
}
use reinforcement_learning_c.Decisions.Review.Store.{
  Fixture, open_new, open_found, open_review, get_history, prepare_review, store_review,
  submit_review, Call, opening, submitting, call, calls,
}

-- A decision is pending with no review, or has one review, which is of this decision and gave it
-- its status.
pub data IsReviewed : History → Type 0 where
  open_decision : {h : History} → h.status ≡ pending_review → h.actions ≡ [] → IsReviewed h
  closed_decision :
      {h : History} (review : Review)
      → is_pending h.status ≡ false
      → h.actions ≡ review ∷ []
      → review.to_status ≡ h.status
      → review.decision_id ≡ h.id
      → IsReviewed h

abbrev pub AreReviewed : Decisions → Type 0
AreReviewed [] = Unit
AreReviewed ((key, h) ∷ rest) = IsReviewed h × AreReviewed rest

-- What `submitReview` has found before it makes a review.
pub record IsPrepared (id : String) (ds : Decisions) (review : Review) : Type 0 where
  pub decision : History
  pub found : find_decision id ds ≡ some decision
  pub pending : is_pending decision.status ≡ true
  pub of_decision : review.decision_id ≡ id
  pub final : is_pending review.to_status ≡ false

final_verdict : (action : ReviewAction) → is_pending (verdict action) ≡ false
unfolding is_pending verdict
final_verdict approve = refl
final_verdict reject = refl
final_verdict override = refl

pub prepare_review-IsPrepared :
    (fixture : Fixture) (stop : Bool) (stamp : Stamp) (id : String) (action : ReviewAction)
    (input : ReviewInput) (ds : Decisions)
    → Ensures (IsPrepared id ds) (prepare_review fixture stop stamp id action input ds)
unfolding prepare_review get_history new_review
prepare_review-IsPrepared fixture stop stamp id action input ds =
    let P : Review → Type 0 = IsPrepared id ds in
    >>=-Ensures P (λ (h : History). find_decision id ds ≡ some h) (get_history stop id ds) _
      (throw_if-Ensures (λ (h : History). find_decision id ds ≡ some h) stop _ _
        λ quiet. need_last-Ensures (find_decision id ds) _)
      λ decision found.
        throw_if-Ensures P (not (is_pending decision.status)) invalid_transition _ λ pending.
          need-Ensures P (row_of decision.recommendation_id fixture.rows) (not_found none) _
            λ row listed.
              throw_if-Ensures P (is_bad_override action row input) invalid_replacement _
                λ accepted. record {
                  decision = decision;
                  found = found;
                  pending = ground arith;
                  of_decision = refl;
                  final = final_verdict action;
                }

decide-IsReviewed :
    (review : Review) (h : History)
    → is_pending h.status ≡ true
    → review.decision_id ≡ h.id
    → is_pending review.to_status ≡ false
    → IsReviewed h
    → IsReviewed (decide review h)
unfolding decide
decide-IsReviewed review h pending own final (open_decision s none_yet) =
    closed_decision review final (rw none_yet) refl own
decide-IsReviewed review h pending own final (closed_decision r closed one v o) =
    absurd (ground arith)

-- The first decision with an id is changed.
update_decision-AreReviewed :
    (id : String) (review : Review) (ds : Decisions) {found : History}
    → find_decision id ds ≡ some found
    → is_pending found.status ≡ true
    → review.decision_id ≡ id
    → is_pending review.to_status ≡ false
    → AreReviewed ds
    → AreReviewed (update_decision id (decide review) ds)
unfolding find_decision update_decision
update_decision-AreReviewed id review [] e pending own final valid = tt
update_decision-AreReviewed id review ((key, h) ∷ rest) {found} e pending own final valid =
    elim (Bool-cases (h.id == id)) [
      | inl this ↦
          let same : h ≡ found = ground arith in
          let pending_h : is_pending h.status ≡ true = rw same pending in
          let own_h : review.decision_id ≡ h.id = own ∙ sym ((eq_iff h.id id).0 this) in
          rw this (decide-IsReviewed review h pending_h own_h final valid.0, valid.1)
      | inr other ↦ rw other (
        valid.0,
        update_decision-AreReviewed id review rest (rw other at e) pending own final valid.1,
      )
    ]

insert-AreReviewed :
    (key : String) (h : History) (ds : Decisions)
    → IsReviewed h
    → AreReviewed ds
    → AreReviewed (insert key h ds)
unfolding insert
insert-AreReviewed key h [] new valid = (new, tt)
insert-AreReviewed key h ((old, g) ∷ rest) new valid = elim (Bool-cases (old == key)) [
  | inl this ↦ rw this (new, valid.1)
  | inr other ↦ rw other (valid.0, insert-AreReviewed key h rest new valid.1)
]

store_review-AreReviewed :
    (id : String) (m : Result PreviewError Review) (ds : Decisions)
    → Ensures (IsPrepared id ds) m
    → AreReviewed ds
    → AreReviewed (store_review id m ds)
unfolding store_review
store_review-AreReviewed id (err e) ds p valid = valid
store_review-AreReviewed id (ok review) ds p valid =
    update_decision-AreReviewed id review ds p.found p.pending p.of_decision p.final valid

open_found-AreReviewed :
    (o : Option History) (fixture : Fixture) (key now : String) (ds : Decisions)
    → AreReviewed ds
    → AreReviewed (open_found o fixture key now ds).0
unfolding open_found open_new
open_found-AreReviewed (some h) fixture key now ds valid = valid
open_found-AreReviewed none fixture key now ds valid =
    elim (Option-cases (known_ids key fixture.ids)) [
      | inl unknown ↦ rw unknown valid
      | inr (ids, known) ↦
          rw known
            (insert-AreReviewed key (new_history ids key now) ds (open_decision refl refl) valid)
    ]

call-AreReviewed :
    (fixture : Fixture) (c : Call) (ds : Decisions)
    → AreReviewed ds
    → AreReviewed (call fixture c ds)
unfolding call open_review submit_review
call-AreReviewed fixture (opening true key now) ds valid = valid
call-AreReviewed fixture (opening false key now) ds valid =
    open_found-AreReviewed (lookup key ds) fixture key now ds valid
call-AreReviewed fixture (submitting stop stamp id action input) ds valid =
    store_review-AreReviewed id (prepare_review fixture stop stamp id action input ds) ds
      (prepare_review-IsPrepared fixture stop stamp id action input ds) valid

-- Over any calls, a decision is pending with no review, or it has one review, which is of this
-- decision and gave it its status, if this holds at the start.
pub calls-AreReviewed :
    (fixture : Fixture) (cs : List Call) (ds : Decisions)
    → AreReviewed ds
    → AreReviewed (calls fixture cs ds)
unfolding calls
calls-AreReviewed fixture [] ds valid = valid
calls-AreReviewed fixture (c ∷ cs) ds valid =
    calls-AreReviewed fixture cs (call fixture c ds) (call-AreReviewed fixture c ds valid)
