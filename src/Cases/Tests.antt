-- ===== src/Cases/Tests.antt =====
-- A list of cases that loads two pages, with a refused page between them.
use reinforcement_learning_c.Prelude.{
  String, true, false, is_blank, trim, List, [], ◌∷◌, none, some, ◌≡◌, refl,
}
use reinforcement_learning_c.Cases.{
  contract_error, CaseRow, Query, Page, CaseList, loading, ListEvent, effect, retry, more, page,
  thrown, operations_read_failure, same_query, is_out_of_scope, is_bad_page, put_row, put_rows,
  read_page, keeps_rows, on_failure, on_page, restarts, load_more, with_reading, list_step,
  list_run,
}

lists : Unit {0}
unfolding trim is_blank operations_read_failure same_query is_out_of_scope is_bad_page put_row
    put_rows read_page keeps_rows on_failure on_page restarts load_more with_reading list_step
    list_run
lists = tt

abbrev query : Query
query = record { factory_id = "f"; status = some "CREATED"; mode = none; limit = 25 }

abbrev row : String → CaseRow
row id = record { decision_case_id = id; factory_id = "f"; status = "CREATED"; mode = "LIVE" }

abbrev first_page : Page
first_page = record {
  rows = row "a" ∷ row "b" ∷ [];
  meta = record { factory_id = "f"; has_more = true; next_cursor = some "c1" };
}

abbrev last_page : Page
last_page = record {
  rows = row "b" ∷ row "d" ∷ [];
  meta = record { factory_id = "f"; has_more = false; next_cursor = none };
}

abbrev start_list : CaseList
start_list = record {
  query = query;
  state = record { scope = query; kind = loading; items = []; meta = none; busy = true };
  last_cursor = none;
  last_append = false;
  reading = none;
}

abbrev two_pages : List ListEvent
two_pages = effect query ∷ page first_page ∷ more ∷ page last_page ∷ []

shows_both : (list_run two_pages start_list).state.items ≡ row "a" ∷ row "b" ∷ row "d" ∷ []
unfolding lists
shows_both = refl

-- A refused second page drops the first one, and the retry then shows the second page alone.
shows_last_only :
    (list_run
      (effect query ∷ page first_page ∷ more ∷ thrown contract_error ∷ retry ∷ page last_page ∷ [])
      start_list).state.items
    ≡ row "b" ∷ row "d" ∷ []
unfolding lists
shows_last_only = refl
