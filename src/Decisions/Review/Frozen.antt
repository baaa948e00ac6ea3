-- ===== src/Decisions/Review/Frozen.antt =====
-- A decision of frontend/lib/decision-api/mock.ts that has its verdict is not changed any more.
use reinforcement_learning_c.Prelude.{
  String, true, false, Option, none, some, List, [], ◌∷◌, ◌≡◌, refl, string_eq, ◌==◌, Result, ok,
  err, lookup, lookup-insert_new, arith, Bool-cases, Option-cases, inl, inr, Ensures,
}
use reinforcement_learning_c.Decisions.Review.{
  Review, History, PreviewError, Decisions, is_pending, find_decision, update_decision, decide,
  known_ids, new_history,
}
use reinforcement_learning_c.Decisions.Review.Store.{
  Fixture, open_new, open_found, open_review, prepare_review, store_review, submit_review, Call,
  opening, submitting, call, calls,
}
use reinforcement_learning_c.Decisions.Review.Once.{IsPrepared, prepare_review-IsPrepared}

module _ (key : String) {h : History} (decided : is_pending h.status ≡ false) where
  lookup-update_decision :
      (id : String) (f : History → History) (ds : Decisions) {found : History}
      → find_decision id ds ≡ some found
      → is_pending found.status ≡ true
      → lookup key ds ≡ some h
      → lookup key (update_decision id f ds) ≡ some h
  unfolding find_decision update_decision lookup
  lookup-update_decision id f [] e pending here = here
  lookup-update_decision id f ((k, g) ∷ rest) {found} e pending here =
      elim (Bool-cases (g.id == id)) [
        | inl this ↦
            let same : g ≡ found = ground arith in
            let waits : is_pending g.status ≡ true = rw same pending in
            elim (Bool-cases (k == key)) [
              | inl own ↦
                  let mine : g ≡ h = ground arith in
                  let closed : is_pending g.status ≡ false = rw mine decided in
                  absurd (ground arith)
              | inr foreign ↦ rw (this, foreign) (rw foreign at here)
            ]
        | inr other ↦
            let later = lookup-update_decision id f rest (rw other at e) pending in
            elim (Bool-cases (k == key)) [
              | inl own ↦ rw (other, own) (rw own at here)
              | inr foreign ↦ rw (other, foreign) (later (rw foreign at here))
            ]
      ]

  lookup-store_review :
      (id : String) (m : Result PreviewError Review) (ds : Decisions)
      → Ensures (IsPrepared id ds) m
      → lookup key ds ≡ some h
      → lookup key (store_review id m ds) ≡ some h
  unfolding store_review
  lookup-store_review id (err e) ds p here = here
  lookup-store_review id (ok review) ds p here =
      lookup-update_decision id (decide review) ds p.found p.pending here

  lookup-open_found :
      (o : Option History) (fixture : Fixture) (opened now : String) (ds : Decisions)
      → lookup opened ds ≡ o
      → lookup key ds ≡ some h
      → lookup key (open_found o fixture opened now ds).0 ≡ some h
  unfolding open_found open_new
  lookup-open_found (some g) fixture opened now ds e here = here
  lookup-open_found none fixture opened now ds e here =
      elim (Option-cases (known_ids opened fixture.ids)) [
        | inl unknown ↦ rw unknown here
        | inr (ids, known) ↦
            rw known (lookup-insert_new opened key (new_history ids opened now) h ds e here)
      ]

  lookup-call :
      (fixture : Fixture) (c : Call) (ds : Decisions)
      → lookup key ds ≡ some h
      → lookup key (call fixture c ds) ≡ some h
  unfolding call open_review submit_review
  lookup-call fixture (opening true opened now) ds here = here
  lookup-call fixture (opening false opened now) ds here =
      lookup-open_found (lookup opened ds) fixture opened now ds refl here
  lookup-call fixture (submitting stop stamp id action input) ds here =
      lookup-store_review id (prepare_review fixture stop stamp id action input ds) ds
        (prepare_review-IsPrepared fixture stop stamp id action input ds) here

  -- A decision that has its verdict is found as it was, with its reviews, after any calls.
  pub lookup-calls :
      (fixture : Fixture) (cs : List Call) (ds : Decisions)
      → lookup key ds ≡ some h
      → lookup key (calls fixture cs ds) ≡ some h
  unfolding calls
  lookup-calls fixture [] ds here = here
  lookup-calls fixture (c ∷ cs) ds here =
      lookup-calls fixture cs (call fixture c ds) (lookup-call fixture c ds here)
