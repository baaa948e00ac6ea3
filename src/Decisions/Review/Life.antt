-- ===== src/Decisions/Review/Life.antt =====
-- The life of one decision of frontend/lib/decision-api/mock.ts: unopened, pending, decided.
use reinforcement_learning_c.Prelude.{
  String, true, false, Option, none, some, [], ◌∷◌, ◌≡◌, refl, string_eq, ◌==◌, Result, ok, err,
  lookup, lookup-insert, arith, Bool-cases, Option-cases, inl, inr, Ensures, eq_iff, ap, sym,
}
use reinforcement_learning_c.Decisions.Review.{
  Status, pending_review, Review, History, PreviewError, Decisions, is_pending, find_decision,
  update_decision, decide, known_ids, new_history,
}
use reinforcement_learning_c.Decisions.Review.Store.{
  Fixture, open_new, open_found, open_review, prepare_review, store_review, submit_review, Call,
  opening, submitting, call,
}
use reinforcement_learning_c.Decisions.Review.Once.{IsPrepared, prepare_review-IsPrepared}

abbrev status_in : Option History → Option Status
status_in none = none
status_in (some h) = some h.status

-- The status of the decision on a recommendation, if one was opened.
abbrev pub status_of : String → Decisions → Option Status
status_of key ds = status_in (lookup key ds)

-- What one call can do to a decision.
pub data Move : (before after : Option Status) → Type 0 where
  stays : {s t : Option Status} → t ≡ s → Move s t
  opens : {s t : Option Status} → s ≡ none → t ≡ some pending_review → Move s t
  closes :
      {s t : Option Status} (final : Status)
      → s ≡ some pending_review
      → t ≡ some final
      → is_pending final ≡ false
      → Move s t

is_pending-eq : (s : Status) → is_pending s ≡ true → s ≡ pending_review
unfolding is_pending
is_pending-eq pending_review h = refl
is_pending-eq _ h = cc

-- A verdict on the first decision with an id moves that decision and no other.
update_decision-Move :
    (id key : String) (review : Review) (ds : Decisions) {found : History}
    → find_decision id ds ≡ some found
    → is_pending found.status ≡ true
    → is_pending review.to_status ≡ false
    → Move (status_of key ds) (status_of key (update_decision id (decide review) ds))
unfolding find_decision update_decision lookup decide
update_decision-Move id key review [] e pending final = stays refl
update_decision-Move id key review ((k, h) ∷ rest) {found} e pending final =
    elim (Bool-cases (h.id == id)) [
      | inl this ↦
          let same : h ≡ found = ground arith in
          let was : h.status ≡ pending_review = is_pending-eq h.status (rw same pending) in
          elim (Bool-cases (k == key)) [
            | inl here ↦ rw (this, here) (closes review.to_status (ap some was) refl final)
            | inr there ↦ rw (this, there) (stays refl)
          ]
      | inr other ↦
          let later = update_decision-Move id key review rest (rw other at e) pending final in
          elim (Bool-cases (k == key)) [
            | inl here ↦ rw (other, here) (stays refl)
            | inr there ↦ rw (other, there) later
          ]
    ]

store_review-Move :
    (id key : String) (m : Result PreviewError Review) (ds : Decisions)
    → Ensures (IsPrepared id ds) m
    → Move (status_of key ds) (status_of key (store_review id m ds))
unfolding store_review
store_review-Move id key (err e) ds p = stays refl
store_review-Move id key (ok review) ds p =
    update_decision-Move id key review ds p.found p.pending p.final

open_new-Move :
    (fixture : Fixture) (opened key now : String) (ds : Decisions)
    → lookup opened ds ≡ none
    → Move
        (status_of key ds)
        (status_of key (open_new (known_ids opened fixture.ids) opened now ds).0)
unfolding open_new
open_new-Move fixture opened key now ds new = elim (Option-cases (known_ids opened fixture.ids)) [
  | inl unknown ↦ rw unknown (stays refl)
  | inr (ids, known) ↦
      rw (known, lookup-insert opened key (new_history ids opened now) ds)
        elim (Bool-cases (opened == key)) [
          | inl this ↦
              let same : opened ≡ key = (eq_iff opened key).0 this in
              rw this (opens (rw (sym same, new) refl) refl)
          | inr other ↦ rw other (stays refl)
        ]
]

open_found-Move :
    (o : Option History) (fixture : Fixture) (opened key now : String) (ds : Decisions)
    → lookup opened ds ≡ o
    → Move (status_of key ds) (status_of key (open_found o fixture opened now ds).0)
unfolding open_found
open_found-Move none fixture opened key now ds new = open_new-Move fixture opened key now ds new
open_found-Move (some h) fixture opened key now ds old = stays refl

-- Every call moves each decision along its life, which is unopened, pending, decided, or leaves
-- its status.
pub call-Move :
    (fixture : Fixture) (c : Call) (key : String) (ds : Decisions)
    → Move (status_of key ds) (status_of key (call fixture c ds))
unfolding call open_review submit_review
call-Move fixture (opening true opened now) key ds = stays refl
call-Move fixture (opening false opened now) key ds =
    open_found-Move (lookup opened ds) fixture opened key now ds refl
call-Move fixture (submitting stop stamp id action input) key ds =
    store_review-Move id key (prepare_review fixture stop stamp id action input ds) ds
      (prepare_review-IsPrepared fixture stop stamp id action input ds)
