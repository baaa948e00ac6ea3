-- ===== src/Product/Normalize/Steps/Order.antt =====
-- The steps of an episode's details in frontend/lib/product-api/normalize.ts stand in their order.
use mathlib.Core.List.{Perm}
use reinforcement_learning_c.Prelude.{
  some, List, [], ◌∷◌, ◌≡◌, true, false, ok, Ensures-eq-ok, need-Ensures, >>=-Ensures_any,
  >>=-Ensures, self-Ensures,
}
use reinforcement_learning_c.Prelude.Sorting.{
  sort_by-perm, sort_by-IsChain, Neighbours, IsChain-Neighbours,
}
use reinforcement_learning_c.Json.{
  Json, Fields, object, array, no_values, member, array_of, record_of,
}
use reinforcement_learning_c.Json.Numbers.{number_le, number_le_total}
use reinforcement_learning_c.Product.Errors.{nullish_or, fields_or_none}
use reinforcement_learning_c.Product.Normalize.{first, required_record, unwrap_resource}
use reinforcement_learning_c.Product.Normalize.Listed.{
  IsListAt, array_of-IsListAt, required_record-Ensures,
}
use reinforcement_learning_c.Product.Normalize.Catalog.{map_items}
use reinforcement_learning_c.Product.Normalize.Episodes.{no_context, episode_list_item}
use reinforcement_learning_c.Product.Normalize.Typed.Detail.{IsEpisode, episode_list_item-IsEpisode}
use reinforcement_learning_c.Product.Normalize.Steps.{
  step_record, step_keys, config_keys, StepRecord, is_not_later, EpisodeDetail, episode_detail,
}

is_not_later_total : (a b : StepRecord) → is_not_later a b ≡ false → is_not_later b a ≡ true
unfolding is_not_later
is_not_later_total a b h = number_le_total a.step b.step h

some_object : {v : Json} {fs : Fields} → some v ≡ some (object fs) → v ≡ object fs
some_object e = cc

-- The steps of a record are listed under `steps`, `step_records`, `stepRecords`, `events` or
-- `observations`, and each is read.
abbrev pub AreStepsOf : Fields → List StepRecord → Type 0
AreStepsOf fs steps =
    (raw : List Json) × IsListAt
      ("steps" ∷ "step_records" ∷ "stepRecords" ∷ "events" ∷ "observations" ∷ []) fs raw
    × (map_items step_record raw ≡ ok steps)

pub record IsEpisodeDetail (payload : Json) (d : EpisodeDetail) : Type 0 where
  pub base : IsEpisode d.base
  pub ordered : Neighbours (λ a b. number_le a.step b.step ≡ true) d.steps
  pub listed :
      (fs : Fields) × (unwrap_resource ("episode" ∷ []) payload ≡ object fs)
      × ((steps : List StepRecord) × AreStepsOf fs steps × Perm d.steps steps)

not_later-eq : (a b : StepRecord) → is_not_later a b ≡ true → number_le a.step b.step ≡ true
unfolding is_not_later
not_later-eq a b h = h

-- The details of an episode that are accepted are of a well-formed episode, and their steps are, in
-- another order, the ones that are listed in the episode of the answer, under the first of the keys
-- of steps that it has, each with a number that is not greater than the number of the next.
pub episode_detail-IsEpisodeDetail :
    (payload : Json) {d : EpisodeDetail} → episode_detail payload ≡ ok d → IsEpisodeDetail payload d
unfolding episode_detail
episode_detail-IsEpisodeDetail payload e =
    let P : EpisodeDetail → Type 0 = IsEpisodeDetail payload in
    Ensures-eq-ok P (episode_detail payload)
      (required_record-Ensures P (some (unwrap_resource ("episode" ∷ []) payload)) "episode detail"
        _
        λ fs is_object.
          >>=-Ensures P IsEpisode (episode_list_item no_context (object fs)) _
            (episode_list_item-IsEpisode no_context (object fs) tt)
            λ base is_base.
              need-Ensures P (array_of (nullish_or (first step_keys fs) (some (array no_values)))) _
                _
                λ raw is_list.
                  >>=-Ensures_any P
                    (required_record
                      (nullish_or (first config_keys fs)
                        (first config_keys (fields_or_none (record_of (member "experiment" fs)))))
                      "environment configuration")
                    _
                    λ config.
                      >>=-Ensures P (λ steps. map_items step_record raw ≡ ok steps)
                        (map_items step_record raw) _ (self-Ensures (map_items step_record raw))
                        λ steps read. record {
                          base = is_base;
                          ordered =
                              IsChain-Neighbours is_not_later
                                (λ a b. number_le a.step b.step ≡ true) not_later-eq _
                                (sort_by-IsChain is_not_later is_not_later_total steps);
                          listed = (
                            fs,
                            some_object is_object,
                            (
                              steps,
                              (raw, array_of-IsListAt step_keys fs is_list, read),
                              sort_by-perm is_not_later steps,
                            ),
                          );
                        })
      e
