-- ===== src/Decisions/Paging/Context.antt =====
-- `getContext` of frontend/lib/decision-api/client.ts: whose observation and whose recommendation
-- a context shows.
use mathlib.Core.List.{Memᴰ}
use reinforcement_learning_c.Prelude.{
  String, Bool, true, Option, none, some, List, [], ◌∷◌, ◌≡◌, ok, Ensures-eq-ok, find, arith,
  Bool-cases, inl, inr, need-Ensures,
}
use reinforcement_learning_c.Json.{Json, Fields, object, member, record_of, text_of}
use reinforcement_learning_c.Decisions.{DecisionQueueItem}
use reinforcement_learning_c.Decisions.Paging.{
  DecisionContext, has_id, malformed_context, context_from,
}

find-mem {ℓ} :
    {A : Type ℓ} (p : A → Bool) (xs : List A) {x : A}
    → find p xs ≡ some x
    → Memᴰ x xs × (p x ≡ true)
find-mem p [] h = cc
find-mem p (y ∷ ys) {x} h = elim (Bool-cases (p y)) [
  | inl found ↦ let same : x ≡ y = ground arith in (Memᴰ.head same, rw same found)
  | inr other ↦ let (later, holds) = find-mem p ys (ground arith) in (Memᴰ.tail later, holds)
]

record_of-eq-some : (v : Option Json) {fs : Fields} → record_of v ≡ some fs → v ≡ some (object fs)
unfolding record_of
record_of-eq-some none h = cc
record_of-eq-some (some (object fs)) h = ground arith
record_of-eq-some (some _) h = cc

-- The payload of an event of the list, which has the given id.
pub record IsPayloadOf (id : String) (events : List Json) (payload : Fields) : Type 0 where
  pub event : Fields
  pub listed : Memᴰ (object event) events
  pub identified : has_id id (object event) ≡ true
  pub carried : member "payload" event ≡ some (object payload)

payload-IsPayloadOf :
    (id : String) (events : List Json) {event payload : Fields}
    → record_of (find (has_id id) events) ≡ some event
    → record_of (member "payload" event) ≡ some payload
    → IsPayloadOf id events payload
payload-IsPayloadOf id events {event} h k =
    let (listed, identified) = find-mem (has_id id) events (record_of-eq-some _ h) in
    record {
      event = event;
      listed = listed;
      identified = identified;
      carried = record_of-eq-some _ k;
    }

module _ {Config : Type 0} (item : DecisionQueueItem)
    (observations recommendations : List Json) where
  pub record IsContextOf (c : DecisionContext Config) : Type 0 where
    pub observation : IsPayloadOf item.observation_id observations c.observation
    pub recommendation : IsPayloadOf item.recommendation_id recommendations c.recommendation

  -- The observation and the recommendation of a context are the payloads of events of the answers,
  -- with the ids that the row names.
  pub context_from-IsContextOf :
      (name : String) (config : Config) {c : DecisionContext Config}
      → context_from name config item observations recommendations ≡ ok c
      → IsContextOf c
  unfolding context_from
  context_from-IsContextOf name config e =
      Ensures-eq-ok IsContextOf (context_from name config item observations recommendations)
        (need-Ensures IsContextOf (record_of (find (has_id item.observation_id) observations))
          malformed_context _
          λ o is_o.
            need-Ensures IsContextOf (record_of (member "payload" o)) malformed_context _
              λ payload is_payload.
                need-Ensures IsContextOf (text_of (member "observationKey" o)) malformed_context _
                  λ key is_key.
                    need-Ensures IsContextOf
                      (record_of (find (has_id item.recommendation_id) recommendations))
                      malformed_context _
                      λ r is_r.
                        need-Ensures IsContextOf (record_of (member "payload" r)) malformed_context
                          _
                          λ advice is_advice. record {
                            observation =
                                payload-IsPayloadOf item.observation_id observations is_o
                                  is_payload;
                            recommendation =
                                payload-IsPayloadOf item.recommendation_id recommendations is_r
                                  is_advice;
                          })
        e
