-- ===== src/Decisions/Review/Override.antt =====
-- What an override of frontend/lib/decision-api/mock.ts (submitReview) has been checked for.
use mathlib.Core.List.{Memᴰ, Perm}
use mathlib.Core.List.Perm
use reinforcement_learning_c.Prelude.{
  String, Bool, true, false, not, Option, none, some, List, [], ◌∷◌, ◌≡◌, refl, sym, subst,
  string_eq, ok, find, is_some, is_blank, trim, arith, Bool-cases, inl, inr, Ensures-eq-ok,
  >>=-Ensures, throw_if-Ensures, need-Ensures, need_last-Ensures, any-mem, eq_iff,
}
use reinforcement_learning_c.Prelude.Sorting.{sort_texts, sort_texts-perm}
use reinforcement_learning_c.Decisions.Review.{
  ReviewRow, Review, History, ReviewInput, Stamp, Decisions, MachineAction, JointAction, override,
  is_pending, find_decision, same_action, machine_ids, is_changed, lacks_reason, same_texts,
  is_bad_replacement, is_bad_override, kept_reason, selected, new_review, row_of,
  invalid_transition, not_found, invalid_replacement,
}
use reinforcement_learning_c.Decisions.Review.Store.{
  Fixture, get_history, prepare_review, submit_review,
}

same_texts-eq : (ss ts : List String) → same_texts ss ts ≡ true → ss ≡ ts
unfolding same_texts
same_texts-eq [] [] h = refl
same_texts-eq [] (t ∷ ts) h = cc
same_texts-eq (s ∷ ss) [] h = cc
same_texts-eq (s ∷ ss) (t ∷ ts) h = ground (arith, eq_iff s t, same_texts-eq ss ts)

-- Texts that are equal once sorted are a permutation of one another.
sort_texts-perm_of_eq : (ss ts : List String) → sort_texts ss ≡ sort_texts ts → Perm ss ts
sort_texts-perm_of_eq ss ts e =
    Perm.trans (Perm.symm (sort_texts-perm ss))
      (subst (λ us. Perm us ts) (sym e) (sort_texts-perm ts))

find-mem {ℓ} :
    {A : Type ℓ} (p : A → Bool) (xs : List A)
    → is_some (find p xs) ≡ true
    → (x : A) × Memᴰ x xs × (p x ≡ true)
find-mem p [] h = cc
find-mem p (x ∷ xs) h = elim (Bool-cases (p x)) [
  | inl found ↦ (x, Memᴰ.head refl, found)
  | inr other ↦
      let (y, listed, holds) = find-mem p xs (rw other at h) in (y, Memᴰ.tail listed, holds)
]

-- A machine that the replacement treats otherwise than the recommendation does.
pub record IsChange (original replacement : JointAction) : Type 0 where
  pub before : MachineAction
  pub after : MachineAction
  pub recommended : Memᴰ before original.actions
  pub chosen : Memᴰ after replacement.actions
  pub same_machine : before.machine_id ≡ after.machine_id
  pub other_action : same_action before.action after.action ≡ false

is_changed-IsChange :
    (original replacement : JointAction)
    → is_changed original replacement ≡ true
    → IsChange original replacement
unfolding is_changed
is_changed-IsChange original replacement h =
    let (after, chosen, differs) = any-mem _ replacement.actions h in
    let (before, recommended, found) = find-mem _ original.actions differs in
    record {
      before = before;
      after = after;
      recommended = recommended;
      chosen = chosen;
      same_machine = ground (arith, eq_iff before.machine_id after.machine_id);
      other_action = ground arith;
    }

pub record IsReplacement (row : ReviewRow) (replacement : JointAction) : Type 0 where
  pub same_observation : replacement.observation_id ≡ row.observation_key
  pub machines : Perm row.machines (machine_ids replacement)
  pub change : IsChange row.recommended replacement

is_bad_replacement-IsReplacement :
    (row : ReviewRow) (replacement : JointAction)
    → is_bad_replacement row (some replacement) ≡ false
    → IsReplacement row replacement
unfolding is_bad_replacement
is_bad_replacement-IsReplacement row replacement h = record {
  same_observation = ground (arith, eq_iff replacement.observation_id row.observation_key);
  machines =
      sort_texts-perm_of_eq row.machines (machine_ids replacement)
        (same_texts-eq _ _ (ground arith));
  change = is_changed-IsChange row.recommended replacement (ground arith);
}

-- A review that overrides the recommendation of its decision.
pub record IsOverride (fixture : Fixture) (id : String) (ds : Decisions) (review : Review)
    : Type 0 where
  pub decision : History
  pub found : find_decision id ds ≡ some decision
  pub row : ReviewRow
  pub listed : row_of decision.recommendation_id fixture.rows ≡ some row
  pub replacement : JointAction
  pub stored : review.selected_action ≡ some replacement
  pub checked : IsReplacement row replacement
  pub reason : String
  pub explained : review.reason ≡ some (trim reason)
  pub told : is_blank reason ≡ false

is_bad_replacement-none : (row : ReviewRow) → is_bad_replacement row none ≡ true
unfolding is_bad_replacement
is_bad_replacement-none row = refl

new_review-IsOverride :
    (fixture : Fixture) (stamp : Stamp) (id : String) (reason : Option String)
    (replacement : Option JointAction) (ds : Decisions) (decision : History) (row : ReviewRow)
    → find_decision id ds ≡ some decision
    → row_of decision.recommendation_id fixture.rows ≡ some row
    → is_bad_override override row (record { reason = reason; replacement = replacement }) ≡ false
    → IsOverride fixture id ds
        (new_review stamp id override (record { reason = reason; replacement = replacement }) row)
unfolding is_bad_override lacks_reason new_review kept_reason selected
new_review-IsOverride fixture stamp id none replacement ds decision row found listed accepted = cc
new_review-IsOverride fixture stamp id (some text) none ds decision row found listed accepted =
    absurd (ground (arith, is_bad_replacement-none row))
new_review-IsOverride fixture stamp id (some text) (some r) ds decision row found listed accepted =
    let told : is_blank text ≡ false = ground arith in
    record {
      decision = decision;
      found = found;
      row = row;
      listed = listed;
      replacement = r;
      stored = refl;
      checked = is_bad_replacement-IsReplacement row r (ground arith);
      reason = text;
      explained = rw told refl;
      told = told;
    }

-- An override that is accepted has a reason, and stores a joint action for the same observation
-- and exactly its machines, which treats a machine otherwise than the recommendation does.
pub submit_review-IsOverride :
    (fixture : Fixture) (stop : Bool) (stamp : Stamp) (id : String) (input : ReviewInput)
    (ds : Decisions) {review : Review}
    → (submit_review fixture stop stamp id override input ds).1 ≡ ok review
    → IsOverride fixture id ds review
unfolding submit_review prepare_review get_history
submit_review-IsOverride fixture stop stamp id input ds e =
    let P : Review → Type 0 = IsOverride fixture id ds in
    Ensures-eq-ok P (prepare_review fixture stop stamp id override input ds)
      (>>=-Ensures P (λ (h : History). find_decision id ds ≡ some h) (get_history stop id ds) _
        (throw_if-Ensures (λ (h : History). find_decision id ds ≡ some h) stop _ _
          λ quiet. need_last-Ensures (find_decision id ds) _)
        λ decision found.
          throw_if-Ensures P (not (is_pending decision.status)) invalid_transition _ λ pending.
            need-Ensures P (row_of decision.recommendation_id fixture.rows) (not_found none) _
              λ row listed.
                throw_if-Ensures P (is_bad_override override row input) invalid_replacement _
                  λ accepted.
                    new_review-IsOverride fixture stamp id input.reason input.replacement ds
                      decision row found listed accepted)
      e
