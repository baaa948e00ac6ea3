-- ===== src/Product/Normalize/Typed/Policies.antt =====
-- The policies of the episodes of an experiment, in frontend/lib/product-api/normalize.ts: their own or
-- the one of the experiment.
use reinforcement_learning_c.Prelude.{
  String, Bool, true, false, ◌&&◌, Option, some, is_some, List, [], ◌∷◌, ◌≡◌, refl, Result, ok, err,
  Ensures, >>=-Ensures, >>=-Ensures_any, need-Ensures, arith,
}
use reinforcement_learning_c.Json.{
  Json, Fields, text, object, record_of, text_of, member, finite_number,
}
use reinforcement_learning_c.Product.{ProductApiError}
use reinforcement_learning_c.Product.Errors.{nullish_or, fields_or_none}
use reinforcement_learning_c.Product.Normalize.{
  first, required_record, required_string, PolicyReference, policy_source, policy_reference,
}
use reinforcement_learning_c.Product.Normalize.Listed.{required_record-Ensures}
use reinforcement_learning_c.Product.Normalize.Catalog.{map_items}
use reinforcement_learning_c.Product.Normalize.Episodes.{
  context_policy, required_number, episode_status, EpisodeListItem, episode_list_item,
}
use reinforcement_learning_c.Product.Normalize.Typed.{required_string-Ensures}

-- The policy of an episode: its own if that can be read, and otherwise the given one.
abbrev pub IsPolicyFrom :
    Result ProductApiError PolicyReference → (known p : PolicyReference) → Type 0
IsPolicyFrom (ok own) known p = p ≡ own
IsPolicyFrom (err e) known p = p ≡ known

abbrev pub HasPolicy : (known : PolicyReference) → Json → EpisodeListItem → Type 0
HasPolicy known v x =
    (fs : Fields) × (v ≡ object fs)
    × IsPolicyFrom (policy_reference (some (object (policy_source fs)))) known x.policy

abbrev pub HavePolicies : (known : PolicyReference) → List Json → List EpisodeListItem → Type 0
HavePolicies known [] [] = Unit
HavePolicies known (v ∷ vs) (x ∷ xs) = HasPolicy known v x × HavePolicies known vs xs
HavePolicies known [] (x ∷ xs) = ⊥
HavePolicies known (v ∷ vs) [] = ⊥

context_policy-IsPolicyFrom :
    (m : Result ProductApiError PolicyReference) (known : PolicyReference)
    → Ensures (IsPolicyFrom m known) (context_policy m (some known))
unfolding context_policy
context_policy-IsPolicyFrom (ok own) known = refl
context_policy-IsPolicyFrom (err e) known = refl

pub some_object : {v : Json} {fs : Fields} → some v ≡ some (object fs) → v ≡ object fs
some_object e = cc

pub episode_list_item-HasPolicy :
    (experiment : Option String) (known : PolicyReference) (v : Json)
    → Ensures
        (HasPolicy known v)
        (episode_list_item (record { experiment_id = experiment; policy = some known }) v)
unfolding episode_list_item required_number
episode_list_item-HasPolicy experiment known v =
    let P : EpisodeListItem → Type 0 = HasPolicy known v in
    required_record-Ensures P (some v) "episode" _ λ fs is_object.
      >>=-Ensures P (IsPolicyFrom (policy_reference (some (object (policy_source fs)))) known)
        (context_policy (policy_reference (some (object (policy_source fs)))) (some known)) _
        (context_policy-IsPolicyFrom (policy_reference (some (object (policy_source fs)))) known)
        λ policy is_own. required_string-Ensures P _ "episode id" _ λ id is_id.
          required_string-Ensures P _ "experiment id" _ λ owner is_owner.
            >>=-Ensures_any P (episode_status (member "status" fs)) _ λ status.
              need-Ensures P (finite_number (member "seed" fs)) _ _
                λ seed is_seed. (fs, some_object is_object, is_own)

pub map_items-HavePolicies :
    (known : PolicyReference) (read : Json → Result ProductApiError EpisodeListItem)
    → ((v : Json) → Ensures (HasPolicy known v) (read v))
    → (vs : List Json) → Ensures (HavePolicies known vs) (map_items read vs)
unfolding map_items
map_items-HavePolicies known read h [] = tt
map_items-HavePolicies known read h (v ∷ vs) =
    >>=-Ensures (HavePolicies known (v ∷ vs)) (HasPolicy known v) (read v) _ (h v) λ x is_x.
      >>=-Ensures (HavePolicies known (v ∷ vs)) (HavePolicies known vs) (map_items read vs) _
        (map_items-HavePolicies known read h vs) λ rest are. (is_x, are)

-- The episode of an experiment names it, or is taken to be of it.
abbrev pub experiment_of : Fields → (known : String) → Option Json
experiment_of fs known = nullish_or (first ("experiment_id" ∷ "experimentId" ∷ []) fs) (
    nullish_or (member "id" (fields_or_none (record_of (member "experiment" fs))))
      (some (text known)))

abbrev pub is_read {ℓ} : {A : Type ℓ} → Result ProductApiError A → Bool
is_read (ok a) = true
is_read (err e) = false

-- Whether the members are there that an episode must have. A policy is none of them.
abbrev pub has_members : Fields → (experiment : String) → Bool
has_members fs experiment =
    is_some
      (text_of (first ("id" ∷ "episode_id" ∷ "episodeId" ∷ "episode_key" ∷ "episodeKey" ∷ []) fs))
    && is_some (text_of (experiment_of fs experiment))
    && is_read (episode_status (member "status" fs))
    && is_some (finite_number (member "seed" fs))

pub episode_list_item-has_members :
    (experiment : String) (known : PolicyReference) (fs : Fields)
    → is_read (
        episode_list_item
          (record { experiment_id = some experiment; policy = some known })
          (object fs))
      ≡ has_members fs experiment
unfolding episode_list_item required_number required_string required_record record_of context_policy
episode_list_item-has_members experiment known fs = ground arith
