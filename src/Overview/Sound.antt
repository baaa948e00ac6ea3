-- ===== src/Overview/Sound.antt =====
-- What a summary that is accepted satisfies (frontend/lib/operations-api/overview.ts).
use reinforcement_learning_c.Prelude.{
  ℕ, ◌+◌, ◌<◌, min, String, Bool, true, false, not, Option, none, some, List, [], ◌∷◌, map, ◌≡◌,
  refl, ◌↔◌, sym, subst, arith, ◌==◌, string_eq, eq_iff, ltb, all, length, All, ok, passed,
}
use reinforcement_learning_c.WorkOrders.Replies.Rows.{IsDistinct, has_duplicate-IsDistinct}
use reinforcement_learning_c.Overview.{
  Count, count, no_count, Counts, OverviewPublication, OverviewContext, CaseGroup, ListItem,
  Overview, integrity, context_mismatch, machine_statuses, case_statuses, processing_statuses,
  is_integer, same_count, value_of, bucket, sum_of, are_buckets, are_group_buckets, is_bad_context,
  is_bad_publication, is_unpublished, differ, is_bad_provenance, awaiting, is_bad_review,
  is_current_context, is_other_context, is_bad_item, validate_items, validate_overview,
}

-- A number is the sum of the counts of the keys.
abbrev pub IsSumOf : Counts → List String → ℕ → Type 0
IsSumOf counts [] n = n ≡ 0
IsSumOf counts (key ∷ keys) n =
    (first : ℕ) × (rest : ℕ) × (bucket counts key ≡ count first)
    × IsSumOf counts keys rest
    × (n ≡ first + rest)

-- The counts are one for each key and add up to the total.
pub record IsTally (counts : Counts) (keys : List String) (total : Count) : Type 0 where
  pub complete : length counts ≡ length keys
  pub adds_up : (n : ℕ) × (total ≡ count n) × IsSumOf counts keys n

counted_as : (c : Count) → is_integer c ≡ true → c ≡ count (value_of c)
unfolding is_integer
counted_as (count n) h = refl
counted_as no_count h = absurd (ground arith)

sum_of-IsSumOf :
    (counts : Counts) (keys : List String)
    → all (λ key. is_integer (bucket counts key)) keys ≡ true
    → IsSumOf counts keys (sum_of counts keys)
unfolding sum_of
sum_of-IsSumOf counts [] h = refl
sum_of-IsSumOf counts (key ∷ keys) h = (
  value_of (bucket counts key),
  sum_of counts keys,
  counted_as (bucket counts key) (ground arith),
  sum_of-IsSumOf counts keys (ground arith),
  refl,
)

same_count-eq : (a b : Count) → same_count a b ≡ true → a ≡ b
same_count-eq (count m) (count n) h = ground arith
same_count-eq (count m) no_count h = absurd (ground arith)
same_count-eq no_count b h = absurd (ground arith)

are_buckets-IsTally :
    (counts : Counts) (keys : List String) (total : Count)
    → are_buckets counts keys total ≡ true
    → IsTally counts keys total
unfolding are_buckets
are_buckets-IsTally counts keys total h = record {
  complete = ground arith;
  adds_up = (
    sum_of counts keys,
    sym (same_count-eq (count (sum_of counts keys)) total (ground arith)),
    sum_of-IsSumOf counts keys (ground arith),
  );
}

pub record IsGroup (g : CaseGroup) : Type 0 where
  pub by_status : IsTally g.by_status case_statuses g.total
  pub by_processing : IsTally g.by_processing processing_statuses g.total

buckets-IsGroup : (g : CaseGroup) → are_group_buckets g ≡ true → IsGroup g
unfolding are_group_buckets
buckets-IsGroup g h = record {
  by_status = are_buckets-IsTally g.by_status case_statuses g.total (ground arith);
  by_processing = are_buckets-IsTally g.by_processing processing_statuses g.total (ground arith);
}

-- A previewed case: live, awaiting approval, of the factory and read in the summary's context, and
-- marked as stale exactly if its basis is another one.
pub record IsReviewable (c : OverviewContext) (factory_id : String) (item : ListItem) : Type 0 where
  pub factory : item.factory_id ≡ factory_id
  pub current : item.current_context ≡ some (c.snapshot_id, c.plan_version)
  pub live : item.mode ≡ "LIVE"
  pub waiting : item.status ≡ "AWAITING_APPROVAL"
  pub stale_if :
      (item.stale ≡ false)
      ↔ ((item.snapshot_id ≡ c.snapshot_id) × (item.base_plan_version ≡ c.plan_version))

current-eq :
    (now : Option (String × Count)) (c : OverviewContext)
    → is_current_context now c ≡ true
    → now ≡ some (c.snapshot_id, c.plan_version)
current-eq none c h = absurd (ground arith)
current-eq (some (s, v)) c h =
    let e : s ≡ c.snapshot_id = ground (arith, eq_iff s c.snapshot_id) in
    let f : v ≡ c.plan_version = same_count-eq v c.plan_version (ground arith) in cc (e, f)

same_count_refl : (n : Count) → is_integer n ≡ true → same_count n n ≡ true
unfolding is_integer
same_count_refl (count n) h = ground arith
same_count_refl no_count h = h

item-IsReviewable :
    (is_date : String → Bool) (c : OverviewContext) (factory_id : String) (item : ListItem)
    → is_other_context c factory_id item ≡ false
    → is_bad_item is_date c item ≡ false
    → IsReviewable c factory_id item
unfolding is_other_context is_bad_item
item-IsReviewable is_date c factory_id item other bad = record {
  factory = ground (arith, eq_iff item.factory_id factory_id);
  current = current-eq item.current_context c (ground arith);
  live = ground (arith, eq_iff item.mode "LIVE");
  waiting = ground (arith, eq_iff item.status "AWAITING_APPROVAL");
  stale_if = (
    λ fresh. (
      ground (arith, eq_iff item.snapshot_id c.snapshot_id),
      same_count-eq item.base_plan_version c.plan_version (ground arith),
    ),
    λ (e, f).
        let whole = same_count_refl item.base_plan_version (ground arith) in
        let same = subst (λ n. same_count item.base_plan_version n ≡ true) f whole in
        ground (arith, same, eq_iff item.snapshot_id c.snapshot_id),
  );
}

items-IsReviewable :
    (is_date : String → Bool) (c : OverviewContext) (factory_id : String) (items : List ListItem)
    {u : Unit {0}}
    → validate_items is_date c factory_id items ≡ ok u
    → All (IsReviewable c factory_id) items
unfolding validate_items
items-IsReviewable is_date c factory_id [] h = tt
items-IsReviewable is_date c factory_id (item ∷ items) h =
    let (here, h₁) = passed (is_other_context c factory_id item) context_mismatch _ h in
    let (fine, rest) = passed (is_bad_item is_date c item) integrity _ h₁ in
    (
      item-IsReviewable is_date c factory_id item here fine,
      items-IsReviewable is_date c factory_id items rest,
    )

-- A summary that can be shown for the factory.
pub record IsOverview (o : Overview) (factory_id : String) : Type 0 where
  pub factory : o.context.factory_id ≡ factory_id
  pub machines : IsTally o.machines_by_status machine_statuses o.machines_total
  pub live : IsGroup o.live
  pub simulation_only : IsGroup o.simulation_only
  pub published : (o.context.plan_version ≡ count 0) ↔ (o.context.publication ≡ none)
  pub observed : o.provenance.machines_snapshot_id ≡ o.context.snapshot_id
  pub covered : o.provenance.covered ≡ o.machines_total
  pub previewed : length o.review.items ≡ min 6 (awaiting o)
  pub more : (o.review.has_more ≡ true) ↔ (6 < awaiting o)
  pub distinct : IsDistinct (map (λ item. item.decision_case_id) o.review.items)
  pub reviewable : All (IsReviewable o.context factory_id) o.review.items

unpublished-eq : (p : Option OverviewPublication) → (is_unpublished p ≡ true) ↔ (p ≡ none)
unpublished-eq none = ground arith
unpublished-eq (some p) = ground arith

zero-eq : (v : Count) → (same_count v (count 0) ≡ true) ↔ (v ≡ count 0)
zero-eq (count n) = ground arith
zero-eq no_count = ground arith

differ_iff : (a b : Bool) → differ a b ≡ false → (a ≡ true) ↔ (b ≡ true)
differ_iff true b h = ground arith
differ_iff false b h = ground arith

-- A summary that passes the check for a factory is of that factory; its machines and cases are
-- counted once for each status, and the counts add up to the totals; there is a publication unless
-- the plan version is 0; and the preview has as many different cases as are counted as awaiting
-- approval, but six at most, each of the same factory, snapshot and plan version.
pub validate_overview-IsOverview :
    (is_date : String → Bool) (o : Overview) (factory_id : String) {u : Unit {0}}
    → validate_overview is_date o factory_id ≡ ok u
    → IsOverview o factory_id
unfolding validate_overview is_bad_provenance is_bad_review
validate_overview-IsOverview is_date o factory_id h =
    let (good, h₁) = passed (is_bad_context is_date o.context) integrity _ h in
    let (own, h₂) = passed (not (o.context.factory_id == factory_id)) context_mismatch _ h₁ in
    let (tally, h₃) =
      passed (not (are_buckets o.machines_by_status machine_statuses o.machines_total)) integrity _
        h₂ in
    let (live, h₄) = passed (not (are_group_buckets o.live)) integrity _ h₃ in
    let (simulated, h₅) = passed (not (are_group_buckets o.simulation_only)) integrity _ h₄ in
    let (publication, h₆) = passed (is_bad_publication o.context.publication) integrity _ h₅ in
    let unpublished = is_unpublished o.context.publication in
    let first_version = same_count o.context.plan_version (count 0) in
    let (version, h₇) = passed (differ first_version unpublished) integrity _ h₆ in
    let (source, h₈) = passed (is_bad_provenance o) integrity _ h₇ in
    let (review, h₉) = passed (is_bad_review o factory_id) integrity _ h₈ in
    let same_answer = differ_iff first_version unpublished version in
    let at_zero = zero-eq o.context.plan_version in
    let nothing = unpublished-eq o.context.publication in
    let more = differ_iff o.review.has_more (ltb 6 (awaiting o)) (ground arith) in
    record {
      factory = ground (arith, eq_iff o.context.factory_id factory_id);
      machines =
          are_buckets-IsTally o.machines_by_status machine_statuses o.machines_total (ground arith);
      live = buckets-IsGroup o.live (ground arith);
      simulation_only = buckets-IsGroup o.simulation_only (ground arith);
      published = (
        λ z. nothing.0 (same_answer.0 (at_zero.1 z)),
        λ n. at_zero.0 (same_answer.1 (nothing.1 n)),
      );
      observed = ground (arith, eq_iff o.provenance.machines_snapshot_id o.context.snapshot_id);
      covered = same_count-eq o.provenance.covered o.machines_total (ground arith);
      previewed = ground arith;
      more = ground (arith, more);
      distinct =
          has_duplicate-IsDistinct (map (λ item. item.decision_case_id) o.review.items)
            (ground arith);
      reviewable = items-IsReviewable is_date o.context factory_id o.review.items h₉;
    }
