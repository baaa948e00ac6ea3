-- ===== src/Product/Normalize/Typed/Detail.antt =====
-- The details of an experiment that frontend/lib/product-api/normalize.ts lets pass.
use reinforcement_learning_c.Prelude.{
  true, Option, none, some, List, [], ◌∷◌, ◌≡◌, All, Result, ok, err, Ensures, >>=-Ensures,
  >>=-Ensures_any, need-Ensures, arith,
}
use reinforcement_learning_c.Json.{
  Number, Json, Fields, number, object, member, is_finite, finite_number,
}
use reinforcement_learning_c.Json.Texts.{IsText}
use reinforcement_learning_c.Product.{ProductApiError}
use reinforcement_learning_c.Product.Normalize.{
  required_record, unwrap_resource, PolicyReference, policy_source, policy_reference,
}
use reinforcement_learning_c.Product.Normalize.Listed.{IsListAt}
use reinforcement_learning_c.Product.Normalize.Episodes.{
  Context, context_policy, required_number, episode_statuses, episode_status, EpisodeListItem,
  episode_list_item, ExperimentDetail,
}
use reinforcement_learning_c.Product.Normalize.Typed.{
  IsPolicy, policy_reference-IsPolicy, required_string-Ensures, IsOneOf, episode_status-IsOneOf,
  IsExperiment,
}
use reinforcement_learning_c.Product.Normalize.Typed.Policies.{HavePolicies}

abbrev IsPolicyOrNone : Option PolicyReference → Type 0
IsPolicyOrNone none = Unit
IsPolicyOrNone (some p) = IsPolicy p

context_policy-IsPolicy :
    (m : Result ProductApiError PolicyReference) (o : Option PolicyReference)
    → Ensures IsPolicy m
    → IsPolicyOrNone o
    → Ensures IsPolicy (context_policy m o)
unfolding context_policy
context_policy-IsPolicy (ok policy) o h ho = h
context_policy-IsPolicy (err e) none h ho = tt
context_policy-IsPolicy (err e) (some policy) h ho = ho

finite_number-finite :
    (v : Option Json) {n : Number} → finite_number v ≡ some n → is_finite n ≡ true
unfolding finite_number
finite_number-finite none h = cc
finite_number-finite (some (number n)) h = ground arith
finite_number-finite (some _) h = cc

pub record IsEpisode (x : EpisodeListItem) : Type 0 where
  pub id : IsText x.id
  pub experiment_id : IsText x.experiment_id
  pub status : IsOneOf episode_statuses x.status
  pub seed : is_finite x.seed ≡ true
  pub policy : IsPolicy x.policy

pub episode_list_item-IsEpisode :
    (context : Context) (v : Json)
    → IsPolicyOrNone context.policy
    → Ensures IsEpisode (episode_list_item context v)
unfolding episode_list_item required_number
episode_list_item-IsEpisode context v known =
    let P : EpisodeListItem → Type 0 = IsEpisode in
    >>=-Ensures_any P (required_record (some v) "episode") _ λ fs.
      >>=-Ensures P IsPolicy
        (context_policy (policy_reference (some (object (policy_source fs)))) context.policy) _
        (context_policy-IsPolicy (policy_reference (some (object (policy_source fs))))
          context.policy (policy_reference-IsPolicy (some (object (policy_source fs)))) known)
        λ policy is_policy. required_string-Ensures P _ "episode id" _ λ id is_id.
          required_string-Ensures P _ "experiment id" _ λ experiment is_experiment.
            >>=-Ensures P _ (episode_status (member "status" fs)) _
              (episode_status-IsOneOf (member "status" fs))
              λ status is_status.
                need-Ensures P (finite_number (member "seed" fs)) _ _ λ seed is_seed. record {
                  id = is_id;
                  experiment_id = is_experiment;
                  status = is_status;
                  seed = finite_number-finite (member "seed" fs) is_seed;
                  policy = is_policy;
                }

pub record IsDetail (payload : Json) (d : ExperimentDetail) : Type 0 where
  pub base : IsExperiment d.base
  pub episodes : All IsEpisode d.episodes
  pub policies :
      (fs : Fields) × (unwrap_resource ("experiment" ∷ []) payload ≡ object fs)
      × ((raw : List Json) × IsListAt ("episodes" ∷ "episode_items" ∷ "episodeItems" ∷ []) fs raw
          × HavePolicies d.base.policy raw d.episodes)
