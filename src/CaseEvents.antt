-- ===== src/CaseEvents.antt =====
-- frontend/lib/operations-api/use-decision-case-events.ts: `readDecisionCaseEvents`, the complete
-- read of a case's audit history. A sequence is a natural number; what the source's number test
-- refuses otherwise (negative, fractional) is not a value here.
pub mod Sound
pub mod Complete
mod Tests
use reinforcement_learning_c.Prelude.{
  ℕ, zero, suc, String, Bool, true, false, not, ◌&&◌, ◌||◌, List, [], ◌∷◌, ◌++◌, Result, ok, err,
  ◌>>=◌, ◌>>◌, throw_if, ◌==◌, nat_eq, string_eq, leb, any, if◌then◌else◌,
}
use reinforcement_learning_c.Decision.{HistoryEvent, EventsPage}

-- What one round of the loop sees: the signal is aborted before or after the request, the request
-- fails, or a page comes.
pub data Answer : Type 0 where
  aborted : Answer
  failed : ℕ → Answer
  page : EventsPage → Answer

pub data ReadError : Type 0 where
  abort_error : ReadError
  request_failed : ℕ → ReadError
  inconsistent_event : ReadError
  inconsistent_page : ReadError
  out_of_fuel : ReadError

pub record History : Type 0 where
  pub events : List HistoryEvent
  pub pages : List EventsPage

-- Number.MAX_SAFE_INTEGER
abbrev pub max_safe_integer : ℕ
max_safe_integer = 9007199254740991

-- `ids.has(id)`
abbrev pub has_id : String → List String → Bool
has_id id ids = any (λ j. j == id) ids

-- The test of one event, in the order of the source.
unfoldable pub is_bad_event : String → ℕ → List String → HistoryEvent → Bool
is_bad_event case_id last ids e =
    not (e.case_id == case_id)
    || not (leb e.sequence max_safe_integer)
    || leb e.sequence last
    || has_id e.id ids

-- The loop over `page.data`: the last sequence and the seen ids after it.
unfoldable pub check_events :
    String → ℕ → List String → List HistoryEvent → Result ReadError (ℕ × List String)
unfolding is_bad_event
check_events case_id last ids [] = ok (last, ids)
check_events case_id last ids (e ∷ es) =
    let rest = check_events case_id e.sequence (e.id ∷ ids) es in
    if is_bad_event case_id last ids e then err inconsistent_event else rest

unfoldable pub is_bad_page : ℕ → ℕ → EventsPage → Bool
is_bad_page after last p = not (p.next_after_sequence == last) || (p.has_more && leb last after)

-- What a round does with its page: the history so far, the next cursor and the seen ids.
unfoldable pub take_page :
    String → ℕ → List String → History → EventsPage → Result ReadError (ℕ × List String × History)
unfolding check_events is_bad_page
take_page case_id after ids h p = do
  (last, ids') ← check_events case_id after ids p.items
  throw_if (is_bad_page after last p) inconsistent_page
  ok (last, ids', record { events = h.events ++ p.items; pages = h.pages ++ p ∷ [] })

-- How a round ends: the loop is left with a result, or goes on.
pub data Round : Type 0 where
  stop : Result ReadError History → Round
  again : ℕ → List String → History → Round

unfoldable pub continue : Bool → Result ReadError (ℕ × List String × History) → Round
continue more (err e) = stop (err e)
continue true (ok (last, ids, h)) = again last ids h
continue false (ok (last, ids, h)) = stop (ok h)

unfoldable pub round : String → ℕ → List String → History → Answer → Round
round case_id after ids h aborted = stop (err abort_error)
round case_id after ids h (failed s) = stop (err (request_failed s))
round case_id after ids h (page p) = continue p.has_more (take_page case_id after ids h p)

-- The do-while loop from its `n`-th round, with fuel for the rounds left.
unfoldable pub read_from :
    (ℕ → ℕ → Answer) → String → ℕ → ℕ → ℕ → List String → History → Result ReadError History
read_from api case_id zero n after ids h = err out_of_fuel
read_from api case_id (suc fuel) n after ids h = elim (round case_id after ids h (api n after)) [
  | stop r ↦ r
  | again last ids' h' ↦ read_from api case_id fuel (suc n) last ids' h'
]

-- `api n after` answers the request of round `n`, which asks for what follows `after`.
unfoldable pub read_decision_case_events : (ℕ → ℕ → Answer) → String → ℕ → Result ReadError History
read_decision_case_events api case_id fuel =
    read_from api case_id fuel 0 0 [] (record { events = []; pages = [] })
