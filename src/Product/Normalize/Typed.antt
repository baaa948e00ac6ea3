-- ===== src/Product/Normalize/Typed.antt =====
-- What frontend/lib/product-api/normalize.ts lets pass has the members that its type asks for.
pub mod Policies
pub mod Detail
use reinforcement_learning_c.Prelude.{
  String, Bool, true, false, not, Option, none, some, List, [], ◌∷◌, ◌≡◌, refl, any, All, string_eq,
  ◌==◌, is_blank, Result, ok, ◌>>=◌, ◌>>◌, throw_if, need, Ensures, Ensures-eq-ok, >>=-Ensures_any,
  need-Ensures, throw_if-Ensures, arith, Bool-cases, inl, inr,
}
use reinforcement_learning_c.Json.{
  Number, Json, number, record_of, text_of, array_of, is_finite, finite_number,
}
use reinforcement_learning_c.Json.Texts.{
  IsText, IsOptionalText, text_of-IsText, text_of-IsOptionalText,
}
use reinforcement_learning_c.Product.{ProductApiError}
use reinforcement_learning_c.Product.Normalize.{
  first, missing, required_record, required_string, get_or, PolicyReference, id_keys, name_keys,
  version_keys, policy_reference,
}
use reinforcement_learning_c.Product.Normalize.Catalog.{map_items}
use reinforcement_learning_c.Product.Normalize.Experiments.{
  first_record, episode_keys, experiment_statuses, ExperimentListItem,
}
use reinforcement_learning_c.Product.Normalize.Episodes.{
  Context, context_policy, required_number, episode_statuses, episode_status, EpisodeListItem,
  episode_list_item, ExperimentDetail, experiment_detail,
}

pub record IsPolicy (p : PolicyReference) : Type 0 where
  pub id : IsText p.id
  pub name : IsText p.name
  pub version : IsText p.version
  pub key : IsOptionalText p.key

get_or-IsText : (o : Option String) (s : String) → IsOptionalText o → IsText s → IsText (get_or o s)
get_or-IsText none s ho hs = hs
get_or-IsText (some t) s ho hs = ho

module _ {ℓ κ} {A : Type ℓ} (P : A → Type κ) where
  required_string-Ensures :
      (v : Option Json) (label : String) (next : String → Result ProductApiError A)
      → ((s : String) → IsText s → Ensures P (next s))
      → Ensures P (required_string v label >>= next)
  unfolding required_string
  required_string-Ensures v label next h =
      need-Ensures P (text_of v) (missing label) next λ s e. h s (text_of-IsText v e)

policy_reference-IsPolicy : (v : Option Json) → Ensures IsPolicy (policy_reference v)
unfolding policy_reference
policy_reference-IsPolicy v = >>=-Ensures_any IsPolicy (required_record v "policy") _ λ fs.
    required_string-Ensures IsPolicy (first id_keys fs) "policy id" _ λ id is_id.
      required_string-Ensures IsPolicy (first version_keys fs) "policy version" _
        λ version is_version.
          let is_key =
            text_of-IsOptionalText (first ("key" ∷ "policy_key" ∷ "policyKey" ∷ []) fs) in
          record {
            id = is_id;
            name =
                get_or-IsText (text_of (first name_keys fs)) _
                  (text_of-IsOptionalText (first name_keys fs)) (get_or-IsText _ id is_key is_id);
            version = is_version;
            key = is_key;
          }

abbrev IsOneOf : List String → String → Type 0
IsOneOf options s = any (λ o. o == s) options ≡ true

episode_status-IsOneOf : (v : Option Json) → Ensures (IsOneOf episode_statuses) (episode_status v)
unfolding episode_status
episode_status-IsOneOf v =
    required_string-Ensures (IsOneOf episode_statuses) v "episode status" _
      λ s is_s. throw_if-Ensures (IsOneOf episode_statuses) _ _ (ok s) λ known. ground arith

pub record IsExperiment (x : ExperimentListItem) : Type 0 where
  pub id : IsText x.id
  pub name : IsText x.name
  pub status : IsOneOf experiment_statuses x.status
  pub policy : IsPolicy x.policy
  pub created_at : IsText x.created_at
