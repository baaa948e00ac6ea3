-- ===== src/Decisions/Paging/Ends.antt =====
-- The loops over pages end, and return the pages in order.
use reinforcement_learning_c.Prelude.{
  ℕ, zero, suc, ◌+◌, ◌<◌, ◌≤◌, true, Option, none, some, List, [], ◌++◌, ◌≡◌, ◌≢◌, leb, Result, ok,
  err, arith, Ensures,
}
use mathlib.Core.List.{append-nil}
use reinforcement_learning_c.Json.{Json}
use reinforcement_learning_c.Product.{ProductApiError}
use reinforcement_learning_c.Decisions.{DecisionQueueItem}
use reinforcement_learning_c.Decisions.Paging.{
  Page, put_before, after_page, collect, queue_page, event_page, list_queue, all_events,
}

module _ {ℓ} {A : Type ℓ} where
  -- No answer names more than `last` pages.
  abbrev pub NamesAtMost : ℕ → Result ProductApiError (Page A) → Type 0
  NamesAtMost last = Ensures (λ p. p.total_pages ≤ last)

  after_page_ends :
      (last page : ℕ) (answer : Result ProductApiError (Page A))
      (rest : Option (Result ProductApiError (List A)))
      → NamesAtMost last answer
      → (page < last → rest ≢ none)
      → after_page answer page rest ≢ none
  unfolding after_page put_before
  after_page_ends last page (err e) rest h ends = ground arith
  after_page_ends last page (ok p) none h ends = ground (arith, ends)
  after_page_ends last page (ok p) (some (err e)) h ends = ground arith
  after_page_ends last page (ok p) (some (ok rows)) h ends = ground arith

  collect_ends :
      (ask : ℕ → Result ProductApiError (Page A)) (last : ℕ)
      → ((page : ℕ) → NamesAtMost last (ask page))
      → (fuel page : ℕ) → last < fuel + page
      → 0 < fuel
      → collect ask fuel page ≢ none
  unfolding collect
  collect_ends ask last h zero page enough some_fuel = absurd (omega arith)
  collect_ends ask last h (suc fuel) page enough some_fuel =
      after_page_ends last page (ask page) (collect ask fuel (page + 1)) (h page)
        (λ more. collect_ends ask last h fuel (page + 1) (omega arith) (omega arith))

  -- The rows of `count` pages from `page` on.
  unfoldable pub rows_from : (ℕ → List A) → (count page : ℕ) → List A
  rows_from rows zero page = []
  rows_from rows (suc count) page = rows page ++ rows_from rows count (page + 1)

  -- Each page of `count` pages from `page` on is answered, and names `last` pages.
  pub IsServed : (ask : ℕ → Result ProductApiError (Page A)) (rows : ℕ → List A) (last : ℕ) → Type ℓ
  IsServed ask rows last =
      (page : ℕ) → page ≤ last → ask page ≡ ok (record { rows = rows page; total_pages = last })

  collect-eq-rows_from :
      (ask : ℕ → Result ProductApiError (Page A)) (rows : ℕ → List A) (last : ℕ)
      → IsServed ask rows last
      → (count page spare : ℕ) → page + count ≡ last
      → collect ask (suc (count + spare)) page ≡ some (ok (rows_from rows (suc count) page))
  unfolding collect after_page put_before rows_from IsServed
  collect-eq-rows_from ask rows last served zero page spare e =
      rw (served page (omega arith)) (ground (arith, append-nil (rows page)))
  collect-eq-rows_from ask rows last served (suc count) page spare e =
      let more : leb (page + 1) last ≡ true = ground arith in
      let unfold_sum : suc count + spare ≡ suc (count + spare) = omega arith in
      let later = collect-eq-rows_from ask rows last served count (page + 1) spare (omega arith) in
      rw (served page (omega arith), more, unfold_sum, later)

-- Where no answer names more than `last` pages, both loops end within `last` rounds, and within one
-- if `last` is 0, whatever else the service answers.
pub paging_ends :
    (request : ℕ → Result ProductApiError Json) (last fuel : ℕ)
    → last ≤ fuel
    → 0 < fuel
    → ((page : ℕ) → NamesAtMost last (queue_page (request page)))
    → ((page : ℕ) → NamesAtMost last (event_page (request page)))
    → (list_queue request fuel ≢ none) × (all_events request fuel ≢ none)
unfolding list_queue all_events
paging_ends request last fuel enough some_fuel queue events = (
  collect_ends (λ page. queue_page (request page)) last queue fuel 1 (omega arith) some_fuel,
  collect_ends (λ page. event_page (request page)) last events fuel 1 (omega arith) some_fuel,
)

-- Where the service answers each of the pages 1 to `suc more` with its rows and the number of
-- pages, the queue is the rows of these pages in their order.
pub list_queue-eq-rows_from :
    (request : ℕ → Result ProductApiError Json) (rows : ℕ → List DecisionQueueItem) (more spare : ℕ)
    → ((page : ℕ)
        → page ≤ suc more
        → queue_page (request page) ≡ ok (record { rows = rows page; total_pages = suc more }))
    → list_queue request (suc (more + spare)) ≡ some (ok (rows_from rows (suc more) 1))
unfolding list_queue IsServed
list_queue-eq-rows_from request rows more spare served =
    collect-eq-rows_from (λ page. queue_page (request page)) rows (suc more) served more 1 spare
      (omega arith)
