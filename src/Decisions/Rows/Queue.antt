-- ===== src/Decisions/Rows/Queue.antt =====
-- The order of the queue (frontend/lib/decision-api/normalize.ts, sortDecisionQueue). `upper` is
-- `toUpperCase`, and `collate` is `localeCompare`, whose sign alone is used.
use Prim.Native.Nat.{compare, Ordering}
use mathlib.Core.List.{Perm}
use reinforcement_learning_c.Prelude.{
  ℕ, ◌≤◌, ◌≢◌, String, Bool, true, false, Option, none, some, List, [], ◌∷◌, length, suc, ◌≡◌, refl,
  string_eq, nat_eq, ◌==◌, if◌then◌else◌, arith,
}
use reinforcement_learning_c.Prelude.Sorting.{
  sort_by, sort_by-perm, sort_by-IsChain, Neighbours, IsChain-Neighbours,
}
use reinforcement_learning_c.Json.{Number, decimal}
use reinforcement_learning_c.Json.Numbers.{number_le, number_le_total}
use reinforcement_learning_c.Decisions.Rows.{Row, get_or}

-- `SEVERITY_ORDER[severity] ?? 4`
unfoldable pub rank : String → ℕ
rank s =
    if s == "CRITICAL"
    then 0
    else if s == "HIGH"
    then 1
    else if s == "MEDIUM"
    then 2
    else if s == "LOW"
    then 3
    else 4

unfoldable pub severity_rank : (upper : String → String) → Option String → ℕ
unfolding rank
severity_rank upper none = rank ""
severity_rank upper (some s) = rank (upper s)

-- The severities, from the worst to the mildest, and the place of a severity among them: after them
-- all if it is missing or another.
abbrev pub severities : List String
severities = "CRITICAL" ∷ "HIGH" ∷ "MEDIUM" ∷ "LOW" ∷ []

abbrev pub place_in : List String → String → ℕ
place_in [] s = 0
place_in (t ∷ ts) s = let later = place_in ts s in if s == t then 0 else suc later

abbrev pub place : (upper : String → String) → Option String → ℕ
place upper none = length severities
place upper (some s) = place_in severities (upper s)

severity_rank-place :
    (upper : String → String) (o : Option String) → severity_rank upper o ≡ place upper o
unfolding severity_rank rank
severity_rank-place upper none = refl
severity_rank-place upper (some s) = ground arith

-- A number, or -1 for none.
abbrev pub amount : Option Number → Number
amount none = decimal true 1 0
amount (some n) = n

-- The sign of `x - y`.
unfoldable pub number_order : Number → Number → Ordering
number_order x y =
    if number_le x y then (if number_le y x then Ordering.eq else Ordering.lt) else Ordering.gt

-- `value ?? -1`
abbrev pub or_minus_one : Option Number → Number
or_minus_one o = get_or o (decimal true 1 0)

or_minus_one-amount : (o : Option Number) → or_minus_one o ≡ amount o
or_minus_one-amount none = refl
or_minus_one-amount (some n) = refl

-- `first || second`, for signs.
abbrev pub then_by : Ordering → Ordering → Ordering
then_by Ordering.eq second = second
then_by Ordering.lt second = Ordering.lt
then_by Ordering.gt second = Ordering.gt

abbrev pub is_not_after : Ordering → Bool
is_not_after Ordering.gt = false
is_not_after _ = true

abbrev pub flip : Ordering → Ordering
flip Ordering.lt = Ordering.gt
flip Ordering.gt = Ordering.lt
flip Ordering.eq = Ordering.eq

module _ {Config : Type 0} (upper : String → String) (collate : String → String → Ordering) where
  -- The comparison of two rows: the worse severity first, then the higher risk, then the higher
  -- cost, then by the names of the machine and of the recommendation.
  unfoldable pub row_order : (a b : Row Config) → Ordering
  unfolding severity_rank number_order
  row_order a b =
      then_by (compare (severity_rank upper a.severity) (severity_rank upper b.severity)) (
        then_by (number_order (or_minus_one b.failure_risk) (or_minus_one a.failure_risk)) (
          then_by (number_order (or_minus_one b.predicted_cost) (or_minus_one a.predicted_cost)) (
            then_by (collate a.machine_id b.machine_id)
              (collate a.recommendation_id b.recommendation_id))))

  unfoldable pub is_before : (a b : Row Config) → Bool
  unfolding row_order
  is_before a b = is_not_after (row_order a b)

  -- `sortDecisionQueue`
  unfoldable pub sort_decision_queue : List (Row Config) → List (Row Config)
  unfolding is_before
  sort_decision_queue = sort_by is_before

  -- What the order of two rows means, with -1 for a number that is missing.
  pub record IsInOrder (a b : Row Config) : Type 0 where
    pub severity : place upper a.severity ≤ place upper b.severity
    pub risk :
        place upper a.severity ≡ place upper b.severity
        → number_le (amount b.failure_risk) (amount a.failure_risk) ≡ true
    pub cost :
        place upper a.severity ≡ place upper b.severity
        → number_le (amount a.failure_risk) (amount b.failure_risk) ≡ true
        → number_le (amount b.predicted_cost) (amount a.predicted_cost) ≡ true
    pub machine :
        place upper a.severity ≡ place upper b.severity
        → number_le (amount a.failure_risk) (amount b.failure_risk) ≡ true
        → number_le (amount a.predicted_cost) (amount b.predicted_cost) ≡ true
        → collate a.machine_id b.machine_id ≢ Ordering.gt

flip-number_order : (x y : Number) → number_order y x ≡ flip (number_order x y)
unfolding number_order
flip-number_order x y = ground (arith, number_le_total x y, number_le_total y x)

flip-then_by : (a b : Ordering) → then_by (flip a) (flip b) ≡ flip (then_by a b)
flip-then_by Ordering.eq b = refl
flip-then_by Ordering.lt b = refl
flip-then_by Ordering.gt b = refl

flip-compare : (m n : ℕ) → compare n m ≡ flip (compare m n)
flip-compare m n = ground arith

is_not_after-flip : (o : Ordering) → is_not_after o ≡ false → is_not_after (flip o) ≡ true
is_not_after-flip Ordering.gt h = refl
is_not_after-flip Ordering.lt h = cc
is_not_after-flip Ordering.eq h = cc

module _ {Config : Type 0} (upper : String → String) (collate : String → String → Ordering)
    (collate_flips : (s t : String) → collate t s ≡ flip (collate s t)) where
  flip-row_order :
      (a b : Row Config) → row_order upper collate b a ≡ flip (row_order upper collate a b)
  unfolding row_order
  flip-row_order a b =
      rw
        (
          flip-compare (severity_rank upper a.severity) (severity_rank upper b.severity),
          flip-number_order (or_minus_one b.failure_risk) (or_minus_one a.failure_risk),
          flip-number_order (or_minus_one b.predicted_cost) (or_minus_one a.predicted_cost),
          collate_flips a.machine_id b.machine_id,
          collate_flips a.recommendation_id b.recommendation_id,
        )
        (simp flip-then_by)

  is_before-IsInOrder :
      (a b : Row Config) → is_before upper collate a b ≡ true → IsInOrder upper collate a b
  unfolding is_before row_order number_order
  is_before-IsInOrder a b h =
      let sa = severity_rank-place upper a.severity in
      let sb = severity_rank-place upper b.severity in
      let ra = or_minus_one-amount a.failure_risk in
      let rb = or_minus_one-amount b.failure_risk in
      let ca = or_minus_one-amount a.predicted_cost in
      let cb = or_minus_one-amount b.predicted_cost in
      record {
        severity = ground arith;
        risk = λ same. ground arith;
        cost = λ same risks. ground arith;
        machine = λ same risks costs. ground arith;
      }

  is_before_total :
      (a b : Row Config) → is_before upper collate a b ≡ false → is_before upper collate b a ≡ true
  unfolding is_before
  is_before_total a b h =
      rw (flip-row_order a b) (is_not_after-flip (row_order upper collate a b) h)

  -- The queue has the rows that it was given, and each row stands in order before the next: first
  -- CRITICAL, HIGH, MEDIUM, LOW and then any other or no severity; among equal ones the higher risk,
  -- then the higher cost, where a missing number counts as -1; and then by the names of the machines.
  pub sort_decision_queue-IsInOrder :
      (rows : List (Row Config))
      → Perm (sort_decision_queue upper collate rows) rows
        × Neighbours (IsInOrder upper collate) (sort_decision_queue upper collate rows)
  unfolding sort_decision_queue
  sort_decision_queue-IsInOrder rows =
      let chain = sort_by-IsChain (is_before upper collate) is_before_total rows in
      (
        sort_by-perm (is_before upper collate) rows,
        IsChain-Neighbours (is_before upper collate) (IsInOrder upper collate) is_before-IsInOrder _
            chain,
      )
