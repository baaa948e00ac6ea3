-- ===== src/Overview/Reading/Shown.antt =====
-- A summary on the page was checked for the factory of the page
-- (frontend/lib/operations-api/use-operations-overview.ts).
use reinforcement_learning_c.Prelude.{
  String, Bool, List, [], ◌∷◌, ◌≡◌, refl, arith, Result, ok, err, ◌==◌, string_eq, eq_iff,
  Bool-cases, inl, inr, subst,
}
use reinforcement_learning_c.Overview.{Overview, OverviewError, validate_overview}
use reinforcement_learning_c.Overview.Sound.{IsOverview, validate_overview-IsOverview}
use reinforcement_learning_c.Overview.Reading.{
  OverviewThrown, OverviewView, loading, ready, OverviewReader, OverviewEvent, effect, cleanup,
  refresh, answered, start_read, checked_view, answer_view, overview_step, overview_run, visible,
}

module _ (is_date : String → Bool) where
  -- A state that shows a summary shows one that was checked for the state's factory.
  abbrev pub IsChecked : String → OverviewView → Type 0
  IsChecked factory_id (ready o) = validate_overview is_date o factory_id ≡ ok tt
  IsChecked factory_id _ = Unit

  checked_view-IsChecked :
      (o : Overview) (factory_id : String) (outcome : Result OverviewError (Unit {0}))
      → validate_overview is_date o factory_id ≡ outcome
      → IsChecked factory_id (checked_view is_date o outcome)
  unfolding checked_view
  checked_view-IsChecked o factory_id (ok u) e = e
  checked_view-IsChecked o factory_id (err x) e = tt

  answer_view-IsChecked :
      (a : Result OverviewThrown Overview) (factory_id : String)
      → IsChecked factory_id (answer_view is_date a factory_id)
  unfolding answer_view
  answer_view-IsChecked (ok o) factory_id =
      checked_view-IsChecked o factory_id (validate_overview is_date o factory_id) refl
  answer_view-IsChecked (err t) factory_id = tt

  start_read-IsChecked :
      (r : OverviewReader) → IsChecked (start_read r).state_factory_id (start_read r).view
  unfolding start_read
  start_read-IsChecked r = ground arith

  overview_step-IsChecked :
      (e : OverviewEvent) (r : OverviewReader)
      → IsChecked r.state_factory_id r.view
      → IsChecked (overview_step is_date e r).state_factory_id (overview_step is_date e r).view
  unfolding overview_step
  overview_step-IsChecked (effect factory_id) r h =
      start_read-IsChecked (record r { factory_id = factory_id })
  overview_step-IsChecked cleanup r h = h
  overview_step-IsChecked refresh r h = start_read-IsChecked r
  overview_step-IsChecked (answered a) r h = elim (Bool-cases r.reading) [
    | inl under_way ↦ rw under_way (answer_view-IsChecked a r.factory_id)
    | inr over ↦ rw over h
  ]

  overview_run-IsChecked :
      (es : List OverviewEvent) (r : OverviewReader)
      → IsChecked r.state_factory_id r.view
      → IsChecked (overview_run is_date es r).state_factory_id (overview_run is_date es r).view
  unfolding overview_run
  overview_run-IsChecked [] r h = h
  overview_run-IsChecked (e ∷ es) r h =
      overview_run-IsChecked es (overview_step is_date e r) (overview_step-IsChecked e r h)

  visible-IsChecked :
      (r : OverviewReader) (o : Overview)
      → IsChecked r.state_factory_id r.view
      → visible r ≡ ready o
      → validate_overview is_date o r.factory_id ≡ ok tt
  unfolding visible
  visible-IsChecked r o h e = elim (Bool-cases (r.state_factory_id == r.factory_id)) [
    | inl same ↦
        let shown : r.view ≡ ready o = rw same at e in
        let checked = subst (IsChecked r.state_factory_id) shown h in
        subst (λ f. validate_overview is_date o f ≡ ok tt)
          ((eq_iff r.state_factory_id r.factory_id).0 same) checked
    | inr other ↦ let hidden : loading ≡ ready o = rw other at e in cc
  ]

  -- Over any run of the overview page, with changing factories, refreshes and answers of any
  -- content, a summary that is shown is one that can be shown for the factory of the page.
  pub visible-IsOverview :
      (es : List OverviewEvent) (r : OverviewReader) (o : Overview)
      → r.view ≡ loading
      → visible (overview_run is_date es r) ≡ ready o
      → IsOverview o (overview_run is_date es r).factory_id
  visible-IsOverview es r o start shown =
      let checked = overview_run-IsChecked es r (rw start tt) in
      validate_overview-IsOverview is_date o _
        (visible-IsChecked (overview_run is_date es r) o checked shown)
