-- ===== src/Overview.antt =====
-- The operations overview: the check of a summary (frontend/lib/operations-api/overview.ts). A
-- number of the response is a count or something else, which no test of the code accepts; the text
-- tests of dates, `Date.parse` among them, are one argument. A member that the type does not allow to
-- be absent is there: the source throws an integrity error where it is not.
use reinforcement_learning_c.Prelude.{
  ℕ, ◌+◌, min, String, Bool, true, false, ◌&&◌, ◌||◌, not, Option, none, some, List, [], ◌∷◌, map,
  ◌==◌, string_eq, nat_eq, leb, ltb, all, any, length, lookup, is_empty, Result, ok, err, ◌>>=◌,
  ◌>>◌, throw_if, if◌then◌else◌,
}
use reinforcement_learning_c.CaseEvents.{max_safe_integer}
use reinforcement_learning_c.WorkOrders.Replies.{has_duplicate}
pub mod Sound
pub mod Reading
pub mod Basis
mod Tests

pub data Count : Type 0 where
  count : ℕ → Count
  no_count : Count

abbrev pub Counts : Type 0
Counts = List (String × Count)

pub record OverviewPublication : Type 0 where
  pub schedule_id : String
  pub schedule_revision : Count
  pub basis_snapshot_id : String

pub record OverviewContext : Type 0 where
  pub factory_id : String
  pub snapshot_id : String
  pub plan_version : Count
  pub head_revision : Count
  pub captured_at : String
  pub read_at : String
  pub publication : Option OverviewPublication

pub record CaseGroup : Type 0 where
  pub total : Count
  pub by_status : Counts
  pub by_processing : Counts

pub record ListItem : Type 0 where
  pub decision_case_id : String
  pub factory_id : String
  pub schema_version : String
  pub mode : String
  pub status : String
  pub snapshot_id : String
  pub current_context : Option (String × Count)  -- snapshot_id and plan_version
  pub base_plan_version : Count
  pub case_revision : Count
  pub created_at : String
  pub updated_at : String
  pub stale : Bool

pub record ReviewPreview : Type 0 where
  pub items : List ListItem
  pub limit : Count
  pub has_more : Bool
  pub factory_id : String  -- filters.factory_id, and so on
  pub mode : String
  pub status : String

pub record Provenance : Type 0 where
  pub machines_source : String
  pub machines_snapshot_id : String
  pub observed_at : String
  pub population : Count
  pub covered : Count
  pub cases_source : String
  pub cases_scope : String
  pub cases_read_at : String

pub record Overview : Type 0 where
  pub context : OverviewContext
  pub machines_total : Count
  pub machines_by_status : Counts
  pub live : CaseGroup
  pub simulation_only : CaseGroup
  pub review : ReviewPreview
  pub provenance : Provenance

pub data OverviewError : Type 0 where
  integrity context_mismatch : OverviewError

abbrev pub machine_statuses : List String
machine_statuses = "IDLE" ∷ "RUNNING" ∷ "WARNING" ∷ "MAINTENANCE" ∷ "FAILED" ∷ "UNAVAILABLE" ∷ []

abbrev pub case_statuses : List String
case_statuses =
    "CREATED" ∷ "ANALYZING" ∷ "GENERATING" ∷ "VALIDATING" ∷ "EXPLAINING" ∷ "AWAITING_APPROVAL"
    ∷ "APPROVED" ∷ "MODIFIED" ∷ "REJECTED" ∷ "COMMITTED" ∷ "FAILED" ∷ "CANCELLED" ∷ []

abbrev pub processing_statuses : List String
processing_statuses = "PENDING" ∷ "RUNNING" ∷ "SUCCEEDED" ∷ "FAILED" ∷ []

-- `Number.isSafeInteger(value) && value >= 0`
unfoldable pub is_integer : Count → Bool
is_integer (count n) = leb n max_safe_integer
is_integer no_count = false

abbrev pub same_count : Count → Count → Bool
same_count (count m) (count n) = m == n
same_count _ _ = false

abbrev pub value_of : Count → ℕ
value_of (count n) = n
value_of no_count = 0

abbrev pub or_no_count : Option Count → Count
or_no_count none = no_count
or_no_count (some c) = c

-- `counts[key]`
unfoldable pub bucket : Counts → String → Count
bucket counts key = or_no_count (lookup key counts)

-- `keys.reduce((sum, key) => sum + counts[key], 0)`, where all of them are counts.
unfoldable pub sum_of : Counts → List String → ℕ
sum_of counts [] = 0
sum_of counts (key ∷ keys) = value_of (bucket counts key) + sum_of counts keys

unfoldable pub are_buckets : Counts → List String → Count → Bool
are_buckets counts keys total =
    is_integer total
    && length counts == length keys
    && all (λ key. is_integer (bucket counts key)) keys
    && same_count (count (sum_of counts keys)) total

unfoldable pub are_group_buckets : CaseGroup → Bool
are_group_buckets g =
    are_buckets g.by_status case_statuses g.total
    && are_buckets g.by_processing processing_statuses g.total

abbrev pub is_bad_publication : Option OverviewPublication → Bool
is_bad_publication none = false
is_bad_publication (some p) =
    is_empty p.schedule_id || is_empty p.basis_snapshot_id || not (is_integer p.schedule_revision)

abbrev pub is_unpublished : Option OverviewPublication → Bool
is_unpublished none = true
is_unpublished (some p) = false

abbrev pub differ : Bool → Bool → Bool
differ true b = not b
differ false b = b

unfoldable pub is_bad_provenance : Overview → Bool
is_bad_provenance o =
    not (o.provenance.machines_source == "validated_current_snapshot")
    || not (o.provenance.machines_snapshot_id == o.context.snapshot_id)
    || not (o.provenance.observed_at == o.context.captured_at)
    || not (same_count o.provenance.covered o.machines_total)
    || not (same_count o.provenance.population o.machines_total)
    || not (o.provenance.cases_source == "decision_cases")
    || not (o.provenance.cases_scope == "all_factory_cases_including_stale_and_terminal")
    || not (o.provenance.cases_read_at == o.context.read_at)

-- The number of live cases that await approval.
unfoldable pub awaiting : Overview → ℕ
awaiting o = value_of (bucket o.live.by_status "AWAITING_APPROVAL")

unfoldable pub is_bad_review : Overview → String → Bool
is_bad_review o factory_id =
    not (same_count o.review.limit (count 6))
    || not (o.review.factory_id == factory_id)
    || not (o.review.mode == "LIVE")
    || not (o.review.status == "AWAITING_APPROVAL")
    || not (length o.review.items == min 6 (awaiting o))
    || differ o.review.has_more (ltb 6 (awaiting o))
    || has_duplicate (map (λ item. item.decision_case_id) o.review.items)

abbrev pub is_current_context : Option (String × Count) → OverviewContext → Bool
is_current_context none c = false
is_current_context (some now) c = now.0 == c.snapshot_id && same_count now.1 c.plan_version

unfoldable pub is_other_context : OverviewContext → String → ListItem → Bool
is_other_context c factory_id item =
    not (item.factory_id == factory_id) || not (is_current_context item.current_context c)

module _ (is_date : String → Bool) where
  unfoldable pub is_bad_context : OverviewContext → Bool
  is_bad_context c =
      is_empty c.factory_id
      || is_empty c.snapshot_id
      || not (is_integer c.plan_version)
      || not (is_integer c.head_revision)
      || not (is_date c.captured_at)
      || not (is_date c.read_at)

  unfoldable pub is_bad_item : OverviewContext → ListItem → Bool
  is_bad_item c item =
      not (item.mode == "LIVE")
      || not (item.status == "AWAITING_APPROVAL")
      || not (item.schema_version == "3.0")
      || is_empty item.decision_case_id
      || is_empty item.snapshot_id
      || not (is_integer item.base_plan_version)
      || not (is_integer item.case_revision)
      || not (is_date item.created_at)
      || not (is_date item.updated_at)
      || differ item.stale (
          not (item.snapshot_id == c.snapshot_id)
          || not (same_count item.base_plan_version c.plan_version))

  unfoldable pub validate_items :
      OverviewContext → String → List ListItem → Result OverviewError (Unit {0})
  validate_items c factory_id [] = ok tt
  validate_items c factory_id (item ∷ items) = do
    let rest = validate_items c factory_id items
    throw_if (is_other_context c factory_id item) context_mismatch
    throw_if (is_bad_item c item) integrity
    rest

  unfoldable pub validate_overview : Overview → String → Result OverviewError (Unit {0})
  validate_overview o factory_id = do
    throw_if (is_bad_context o.context) integrity
    throw_if (not (o.context.factory_id == factory_id)) context_mismatch
    throw_if (not (are_buckets o.machines_by_status machine_statuses o.machines_total)) integrity
    throw_if (not (are_group_buckets o.live)) integrity
    throw_if (not (are_group_buckets o.simulation_only)) integrity
    throw_if (is_bad_publication o.context.publication) integrity
    throw_if
        (differ (same_count o.context.plan_version (count 0))
          (is_unpublished o.context.publication))
        integrity
    throw_if (is_bad_provenance o) integrity
    throw_if (is_bad_review o factory_id) integrity
    validate_items o.context factory_id o.review.items
