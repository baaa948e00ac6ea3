-- ===== src/Overview/Tests.antt =====
-- An overview of one machine and one case that awaits approval, and its reads.
use reinforcement_learning_c.Prelude.{
  String, Bool, true, false, List, [], ◌∷◌, none, some, ◌≡◌, refl, trim, is_blank, lookup,
}
use reinforcement_learning_c.WorkOrders.Replies.{has_duplicate}
use reinforcement_learning_c.Preview.{Fixture, MockMode, new_store, check_mode, check, read}
use reinforcement_learning_c.Preview.Reads.{
  SnapshotResponse, ScheduleResponse, get_operations_snapshot, get_current_schedule,
}
use reinforcement_learning_c.Overview.{
  count, CaseGroup, ListItem, Overview, OverviewContext, is_integer, bucket, sum_of, are_buckets,
  are_group_buckets, is_bad_context, is_bad_provenance, awaiting, is_bad_review, is_other_context,
  is_bad_item, validate_items, validate_overview,
}
use reinforcement_learning_c.Overview.Sound.{IsOverview, validate_overview-IsOverview}
use reinforcement_learning_c.Overview.Reading.{
  start_read, checked_view, answer_view, overview_step, overview_run, visible,
}
use reinforcement_learning_c.Overview.Basis as B
use reinforcement_learning_c.Overview.Basis.{
  ContextHook, ContextEvent, loaded_state, is_mixed_read, load_context, settle_context,
  context_step, context_run, context_failure,
}
use reinforcement_learning_c.Overview.Basis.Consistent.{IsOneContext, context_run-IsOneContext}

checks : Unit {0}
unfolding lookup has_duplicate is_integer bucket sum_of are_buckets are_group_buckets is_bad_context
    is_bad_provenance awaiting is_bad_review is_other_context is_bad_item validate_items
    validate_overview start_read checked_view answer_view overview_step overview_run visible trim
    is_blank
checks = tt

abbrev any_date : String → Bool
any_date s = true

abbrev no_cases : CaseGroup
no_cases = record {
  total = count 0;
  by_status =
      ("CREATED", count 0)
      ∷ ("ANALYZING", count 0)
      ∷ ("GENERATING", count 0)
      ∷ ("VALIDATING", count 0)
      ∷ ("EXPLAINING", count 0)
      ∷ ("AWAITING_APPROVAL", count 0)
      ∷ ("APPROVED", count 0)
      ∷ ("MODIFIED", count 0)
      ∷ ("REJECTED", count 0)
      ∷ ("COMMITTED", count 0)
      ∷ ("FAILED", count 0)
      ∷ ("CANCELLED", count 0)
      ∷ [];
  by_processing =
      ("PENDING", count 0)
      ∷ ("RUNNING", count 0)
      ∷ ("SUCCEEDED", count 0)
      ∷ ("FAILED", count 0)
      ∷ [];
}

abbrev one_case : CaseGroup
one_case = record {
  total = count 1;
  by_status =
      ("CREATED", count 0)
      ∷ ("ANALYZING", count 0)
      ∷ ("GENERATING", count 0)
      ∷ ("VALIDATING", count 0)
      ∷ ("EXPLAINING", count 0)
      ∷ ("AWAITING_APPROVAL", count 1)
      ∷ ("APPROVED", count 0)
      ∷ ("MODIFIED", count 0)
      ∷ ("REJECTED", count 0)
      ∷ ("COMMITTED", count 0)
      ∷ ("FAILED", count 0)
      ∷ ("CANCELLED", count 0)
      ∷ [];
  by_processing =
      ("PENDING", count 0)
      ∷ ("RUNNING", count 0)
      ∷ ("SUCCEEDED", count 1)
      ∷ ("FAILED", count 0)
      ∷ [];
}

abbrev summary_context : OverviewContext
summary_context = record {
  factory_id = "f";
  snapshot_id = "s";
  plan_version = count 0;
  head_revision = count 0;
  captured_at = "t0";
  read_at = "t1";
  publication = none;
}

abbrev waiting_item : ListItem
waiting_item = record {
  decision_case_id = "c1";
  factory_id = "f";
  schema_version = "3.0";
  mode = "LIVE";
  status = "AWAITING_APPROVAL";
  snapshot_id = "s";
  current_context = some ("s", count 0);
  base_plan_version = count 0;
  case_revision = count 2;
  created_at = "t0";
  updated_at = "t0";
  stale = false;
}

abbrev summary : Overview
summary = record {
  context = summary_context;
  machines_total = count 1;
  machines_by_status =
      ("IDLE", count 0)
      ∷ ("RUNNING", count 1)
      ∷ ("WARNING", count 0)
      ∷ ("MAINTENANCE", count 0)
      ∷ ("FAILED", count 0)
      ∷ ("UNAVAILABLE", count 0)
      ∷ [];
  live = one_case;
  simulation_only = no_cases;
  review = record {
    items = waiting_item ∷ [];
    limit = count 6;
    has_more = false;
    factory_id = "f";
    mode = "LIVE";
    status = "AWAITING_APPROVAL";
  };
  provenance = record {
    machines_source = "validated_current_snapshot";
    machines_snapshot_id = "s";
    observed_at = "t0";
    population = count 1;
    covered = count 1;
    cases_source = "decision_cases";
    cases_scope = "all_factory_cases_including_stale_and_terminal";
    cases_read_at = "t1";
  };
}

validate_overview-IsOverview_example : IsOverview summary "f"
unfolding checks
validate_overview-IsOverview_example =
    validate_overview-IsOverview any_date summary "f" {u = tt} refl

contexts : Unit {0}
unfolding check_mode check read get_operations_snapshot get_current_schedule context_failure
    is_mixed_read loaded_state load_context settle_context context_step context_run new_store
contexts = tt

abbrev small_fixture : Fixture
small_fixture = record {
  mode = MockMode.success;
  basis = record { snapshot_id = "s"; factory_id = "f" };
  schedule = none;
  recommendation = λ id. record {
    recommendation_id = "r";
    decision_case_id = id;
    snapshot_id = "s";
    candidate_plans = [];
  };
}

abbrev read_snapshot : SnapshotResponse
read_snapshot = record {
  factory_id = "f";
  snapshot_id = "s";
  plan_version = 0;
  current_schedule_id = none;
  snapshot = record { snapshot_id = "s"; factory_id = "f" };
}

abbrev read_schedule : ScheduleResponse
read_schedule = record {
  factory_id = "f";
  snapshot_id = "s";
  plan_version = 0;
  schedule = none;
  basis_snapshot = none;
  commit = none;
}

one_basis : loaded_state read_snapshot read_schedule ≡ B.ready read_snapshot read_schedule
unfolding contexts
one_basis = refl

abbrev context_hook : ContextHook
context_hook = record { factory_id = "f"; state = B.loading; reading = false }

abbrev context_events : List ContextEvent
context_events =
    B.effect "f"
    ∷ B.loaded (record read_snapshot { plan_version = 1 }) read_schedule
    ∷ B.changed "f"
    ∷ B.loaded read_snapshot read_schedule
    ∷ []

ends_ready : (context_run context_events context_hook).state ≡ B.ready read_snapshot read_schedule
unfolding contexts
ends_ready = refl

context_run-IsOneContext_example : IsOneContext (context_run context_events context_hook).state
context_run-IsOneContext_example = context_run-IsOneContext context_events context_hook refl
