-- ===== src/Scenario/Context/Evaluations.antt =====
-- What an accepted evaluation satisfies (frontend/lib/scenario-planning/client.ts).
use mathlib.Core.List.{Memᴰ}
use reinforcement_learning_c.Prelude.{
  ◌≤◌, String, true, false, not, ◌||◌, Option, none, some, List, [], ◌∷◌, map, ◌≡◌, ◌≢◌, refl,
  arith, length, ok, any, ◌==◌, string_eq, nat_eq, eq_iff, throw_if-eq-ok, All, any-mem, subst,
  Bool-cases, inl, inr, is_some,
}
use reinforcement_learning_c.WorkOrders.Replies.{has_duplicate, is_nil}
use reinforcement_learning_c.WorkOrders.Replies.Rows.{IsDistinct, has_duplicate-IsDistinct}
use reinforcement_learning_c.Scenario.Context.{
  Validation, Candidate, Evaluation, Workspace, invalid_job, set_size, includes, first_is,
  is_bad_ranking, is_bad_choice, is_unvalidated, is_bad_candidate, is_bad_evaluation,
  validate_evaluation,
}

set_size-bound : (ids : List String) → set_size ids ≤ length ids
unfolding set_size
set_size-bound [] = ground arith
set_size-bound (id ∷ ids) = ground (arith, set_size-bound ids)

-- A list of as many ids as its set has no id twice.
set_size-IsDistinct : (ids : List String) → set_size ids ≡ length ids → has_duplicate ids ≡ false
unfolding set_size has_duplicate
set_size-IsDistinct [] h = refl
set_size-IsDistinct (id ∷ ids) h = elim (Bool-cases (any (λ j. j == id) ids)) [
  | inl twice ↦ absurd (ground (arith, set_size-bound ids))
  | inr once ↦ ground (arith, set_size-IsDistinct ids (ground arith))
]

includes-Mem : (ids : List String) (id : String) → includes ids id ≡ true → Memᴰ id ids
includes-Mem ids id h =
    let (j, m, same) = any-mem (λ j. j == id) ids h in
    let e : j ≡ id = (eq_iff j id).0 same in subst (λ x. Memᴰ x ids) e m

included-All :
    (ids rows : List String)
    → any (λ row. not (includes ids row)) rows ≡ false
    → All (λ row. Memᴰ row ids) rows
included-All ids [] h = tt
included-All ids (row ∷ rows) h =
    (includes-Mem ids row (ground arith), included-All ids rows (ground arith))

-- The ranking of a feasible evaluation: it starts with the selected candidate and has every row
-- for a different candidate, as many as there are candidates.
pub record IsRanked (ids : List String) (e : Evaluation) : Type 0 where
  pub selected : String
  pub rows : List String
  pub is_selected : e.selected_candidate_id ≡ some selected
  pub is_ranking : e.ranking ≡ some rows
  pub chosen : Memᴰ selected ids
  pub first : first_is rows selected ≡ true
  pub as_many : length rows ≡ length ids
  pub distinct : IsDistinct rows
  pub ranked : All (λ row. Memᴰ row ids) rows

-- The candidates are validated under their own id and are of the workspace's baseline.
pub record IsValid (w : Workspace) (c : Candidate) : Type 0 where
  pub validation :
      c.validation ≡ some (record { verdict = "VALID"; candidate_plan_id = c.candidate_plan_id })
  pub factory : c.factory_id ≡ w.factory_id
  pub snapshot : c.snapshot_id ≡ w.snapshot_id

pub record IsEvaluation (w : Workspace) (e : Evaluation) : Type 0 where
  pub distinct : IsDistinct (map (λ c. c.candidate_plan_id) e.candidates)
  pub feasible : e.outcome ≡ "FEASIBLE" → IsRanked (map (λ c. c.candidate_plan_id) e.candidates) e
  pub infeasible :
      e.outcome ≢ "FEASIBLE"
      → (e.candidates ≡ []) × (e.selected_candidate_id ≡ none) × (e.ranking ≡ none)
  pub valid : All (IsValid w) e.candidates

is_ranked :
    (ids : List String) (e : Evaluation) (selected : Option String) (ranking : Option (List String))
    → e.selected_candidate_id ≡ selected
    → e.ranking ≡ ranking
    → is_bad_choice ids selected ranking ≡ false
    → IsRanked ids e
unfolding is_bad_ranking
is_ranked ids e none ranking s r h = absurd (ground arith)
is_ranked ids e (some selected) none s r h = absurd (ground arith)
is_ranked ids e (some selected) (some rows) s r h = record {
  selected = selected;
  rows = rows;
  is_selected = s;
  is_ranking = r;
  chosen = includes-Mem ids selected (ground arith);
  first = ground arith;
  as_many = ground arith;
  distinct = has_duplicate-IsDistinct rows (set_size-IsDistinct rows (ground arith));
  ranked = included-All ids rows (ground arith);
}

is_validated :
    (c : Candidate) (v : Option Validation)
    → is_unvalidated c v ≡ false
    → v ≡ some (record { verdict = "VALID"; candidate_plan_id = c.candidate_plan_id })
is_validated c none h = absurd (ground arith)
is_validated c (some v) h =
    ground (arith, eq_iff v.verdict "VALID", eq_iff v.candidate_plan_id c.candidate_plan_id)

is_unchosen :
    (cs : List Candidate) (selected : Option String) (ranking : Option (List String))
    → not (is_nil (map (λ c. c.candidate_plan_id) cs)) || is_some selected || is_some ranking
      ≡ false
    → (cs ≡ []) × (selected ≡ none) × (ranking ≡ none)
is_unchosen [] selected ranking h = ground arith
is_unchosen (c ∷ cs) selected ranking h = absurd (ground arith)

is_valid : (w : Workspace) (c : Candidate) → is_bad_candidate w c ≡ false → IsValid w c
unfolding is_bad_candidate
is_valid w c h = record {
  validation = is_validated c c.validation (ground arith);
  factory = ground (arith, eq_iff c.factory_id w.factory_id);
  snapshot = ground (arith, eq_iff c.snapshot_id w.snapshot_id);
}

candidates_valid :
    (w : Workspace) (cs : List Candidate) → any (is_bad_candidate w) cs ≡ false → All (IsValid w) cs
candidates_valid w [] h = tt
candidates_valid w (c ∷ cs) h = (is_valid w c (ground arith), candidates_valid w cs (ground arith))

pub validate_evaluation-IsEvaluation :
    (w : Workspace) (e : Evaluation) {u : Unit {0}}
    → validate_evaluation w e ≡ ok u
    → IsEvaluation w e
unfolding validate_evaluation is_bad_evaluation
validate_evaluation-IsEvaluation w e h =
    let fine = throw_if-eq-ok (is_bad_evaluation w e) invalid_job h in
    let ids = map (λ c. c.candidate_plan_id) e.candidates in
    record {
      distinct = has_duplicate-IsDistinct ids (ground arith);
      feasible = λ f.
          is_ranked ids e e.selected_candidate_id e.ranking refl refl
            (ground (arith, eq_iff e.outcome "FEASIBLE"));
      infeasible = λ n.
          is_unchosen e.candidates e.selected_candidate_id e.ranking
            (ground (arith, eq_iff e.outcome "FEASIBLE"));
      valid = candidates_valid w e.candidates (ground arith);
    }
