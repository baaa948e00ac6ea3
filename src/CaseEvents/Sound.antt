-- ===== src/CaseEvents/Sound.antt =====
-- What a successful read of the audit history guarantees, whatever the server answers.
use mathlib.Core.List.{append-nil, append_assoc}
use reinforcement_learning_c.Prelude.{
  ap, sym, ◌∙◌, ℕ, zero, suc, String, Bool, true, false, List, [], ◌∷◌, ◌++◌, ◌≡◌, refl, ◌<◌, ◌≤◌,
  Result, ok, err, arith, eq_iff, inl, inr, ◌⊎◌,
}
use reinforcement_learning_c.Decision.{HistoryEvent, EventsPage}
use reinforcement_learning_c.Preview.Reads.{last_or}
use reinforcement_learning_c.CaseEvents.{
  Answer, aborted, failed, page, ReadError, History, has_id, is_bad_event, check_events, take_page,
  Round, stop, again, continue, round, read_from, read_decision_case_events, max_safe_integer,
}

-- The events of one case in ascending order from above `last`, no id among `ids` or used twice.
abbrev pub IsLog : String → ℕ → List String → List HistoryEvent → Type 0
IsLog case_id last ids [] = Unit
IsLog case_id last ids (e ∷ es) =
    (e.case_id ≡ case_id)
    × (last < e.sequence)
    × (e.sequence ≤ max_safe_integer)
    × (has_id e.id ids ≡ false)
    × IsLog case_id e.sequence (e.id ∷ ids) es

abbrev pub seen : List String → List HistoryEvent → List String
seen ids [] = ids
seen ids (e ∷ es) = seen (e.id ∷ ids) es

bad_event_IsLog :
    (case_id : String) (last : ℕ) (ids : List String) (e : HistoryEvent)
    → is_bad_event case_id last ids e ≡ false
    → (e.case_id ≡ case_id)
      × (last < e.sequence)
      × (e.sequence ≤ max_safe_integer)
      × (has_id e.id ids ≡ false)
unfolding is_bad_event
bad_event_IsLog case_id last ids e h = ground (arith, eq_iff e.case_id case_id)

check_events_cons :
    (case_id : String) (last : ℕ) (ids : List String) (e : HistoryEvent) (es : List HistoryEvent)
    {r : ℕ × List String}
    → check_events case_id last ids (e ∷ es) ≡ ok r
    → (is_bad_event case_id last ids e ≡ false)
      × (check_events case_id e.sequence (e.id ∷ ids) es ≡ ok r)
unfolding check_events
check_events_cons case_id last ids e es h = ground arith

pub check_events_sound :
    (case_id : String) (last : ℕ) (ids : List String) (es : List HistoryEvent) {r : ℕ × List String}
    → check_events case_id last ids es ≡ ok r
    → IsLog case_id last ids es × (r ≡ (last_or last es, seen ids es))
check_events_sound case_id last ids [] h = unfold check_events in (tt, cc)
check_events_sound case_id last ids (e ∷ es) h =
    let (good, rest) = check_events_cons case_id last ids e es h in
    let (log, end) = check_events_sound case_id e.sequence (e.id ∷ ids) es rest in
    let b = bad_event_IsLog case_id last ids e good in ((b.0, b.1, b.2, b.3, log), end)

IsLog-append :
    (case_id : String) (last : ℕ) (ids : List String) (xs ys : List HistoryEvent)
    → IsLog case_id last ids xs
    → IsLog case_id (last_or last xs) (seen ids xs) ys
    → IsLog case_id last ids (xs ++ ys)
IsLog-append case_id last ids [] ys h k = k
IsLog-append case_id last ids (x ∷ xs) ys (a, b, c, d, h) k =
    (a, b, c, d, IsLog-append case_id x.sequence (x.id ∷ ids) xs ys h k)

last_or-append :
    (last : ℕ) (xs ys : List HistoryEvent) → last_or last (xs ++ ys) ≡ last_or (last_or last xs) ys
last_or-append last [] ys = refl
last_or-append last (x ∷ xs) ys = last_or-append x.sequence xs ys

seen-append :
    (ids : List String) (xs ys : List HistoryEvent) → seen ids (xs ++ ys) ≡ seen (seen ids xs) ys
seen-append ids [] ys = refl
seen-append ids (x ∷ xs) ys = seen-append (x.id ∷ ids) xs ys

-- All the pages' events, in order.
abbrev pub paged : List EventsPage → List HistoryEvent
paged [] = []
paged (p ∷ ps) = p.items ++ paged ps

paged-append : (ps : List EventsPage) (p : EventsPage) → paged (ps ++ p ∷ []) ≡ paged ps ++ p.items
paged-append [] p = append-nil p.items
paged-append (q ∷ ps) p =
    ap (λ xs. q.items ++ xs) (paged-append ps p) ∙ sym (append_assoc q.items (paged ps) p.items)

-- What the loop keeps between two rounds.
record IsSoFar (case_id : String) (after : ℕ) (ids : List String) (h : History) : Type 0 where
  log : IsLog case_id 0 [] h.events
  cursor : after ≡ last_or 0 h.events
  known : ids ≡ seen [] h.events
  pages : paged h.pages ≡ h.events

abbrev pub extend : History → EventsPage → History
extend h p = record { events = h.events ++ p.items; pages = h.pages ++ p ∷ [] }

take_page_ok :
    (case_id : String) (after : ℕ) (ids : List String) (h : History) (p : EventsPage) {last : ℕ}
    {ids' : List String} {h' : History}
    → take_page case_id after ids h p ≡ ok (last, ids', h')
    → (check_events case_id after ids p.items ≡ ok (last, ids')) × (h' ≡ extend h p)
unfolding take_page
take_page_ok case_id after ids h p e = ground arith

extend-IsSoFar :
    (case_id : String) (h : History) (p : EventsPage) (after : ℕ) (ids : List String)
    → IsSoFar case_id after ids h
    → IsLog case_id after ids p.items
    → IsSoFar case_id (last_or after p.items) (seen ids p.items) (extend h p)
extend-IsSoFar case_id h p after ids s log = record {
  log = IsLog-append case_id 0 [] h.events p.items s.log (rw (← s.cursor, ← s.known) log);
  cursor = rw (last_or-append 0 h.events p.items, ← s.cursor);
  known = rw (seen-append [] h.events p.items, ← s.known);
  pages = paged-append h.pages p ∙ ap (λ xs. xs ++ p.items) s.pages;
}

take_page-IsSoFar :
    (case_id : String) (after : ℕ) (ids : List String) (h : History) (p : EventsPage) {last : ℕ}
    {ids' : List String} {h' : History}
    → IsSoFar case_id after ids h
    → take_page case_id after ids h p ≡ ok (last, ids', h')
    → IsSoFar case_id last ids' h'
take_page-IsSoFar case_id after ids h p {last} {ids'} s e =
    let (checked, same) = take_page_ok case_id after ids h p e in
    let (log, end) = check_events_sound case_id after ids p.items checked in
    let last_eq : last ≡ last_or after p.items = ap (λ r. r.0) end in
    let ids_eq : ids' ≡ seen ids p.items = ap (λ r. r.1) end in
    rw (same, last_eq, ids_eq) (extend-IsSoFar case_id h p after ids s log)

IsSoFarEnd : String → History → Type 0
IsSoFarEnd case_id h = (last : ℕ) × (ids : List String) × IsSoFar case_id last ids h

continue_stop :
    (more : Bool) (t : Result ReadError (ℕ × List String × History)) {h' : History}
    → continue more t ≡ stop (ok h')
    → (last : ℕ) × (ids : List String) × (t ≡ ok (last, ids, h'))
unfolding continue
continue_stop true (ok (last, ids, h)) e = cc
continue_stop false (ok (last, ids, h)) e = (last, ids, cc)
continue_stop true (err x) e = cc
continue_stop false (err x) e = cc

continue_again :
    (more : Bool) (t : Result ReadError (ℕ × List String × History)) {last : ℕ} {ids : List String}
    {h' : History}
    → continue more t ≡ again last ids h'
    → t ≡ ok (last, ids, h')
unfolding continue
continue_again true (ok r) e = cc
continue_again false (ok r) e = cc
continue_again true (err x) e = cc
continue_again false (err x) e = cc

module _ (case_id : String) (after : ℕ) (ids : List String) (h : History)
    (s : IsSoFar case_id after ids h) where
  round_stop :
      (a : Answer) {h' : History}
      → round case_id after ids h a ≡ stop (ok h')
      → IsSoFarEnd case_id h'
  unfolding round IsSoFarEnd
  round_stop aborted e = cc
  round_stop (failed x) e = cc
  round_stop (page p) e =
      let (last, ids', t) = continue_stop p.has_more (take_page case_id after ids h p) e in
      (last, ids', take_page-IsSoFar case_id after ids h p s t)

  round_again :
      (a : Answer) {last : ℕ} {ids' : List String} {h' : History}
      → round case_id after ids h a ≡ again last ids' h'
      → IsSoFar case_id last ids' h'
  unfolding round
  round_again aborted e = cc
  round_again (failed x) e = cc
  round_again (page p) e =
      take_page-IsSoFar case_id after ids h p s
        (continue_again p.has_more (take_page case_id after ids h p) e)

Round-cases :
    (r : Round)
    → ((x : Result ReadError History) × (r ≡ stop x))
      ⊎ ((last : ℕ) × (ids : List String) × (h : History) × (r ≡ again last ids h))
Round-cases (stop x) = inl (x, refl)
Round-cases (again last ids h) = inr (last, ids, h, refl)

read_from_sound :
    (api : ℕ → ℕ → Answer) (case_id : String) (fuel n after : ℕ) (ids : List String) (h : History)
    {h' : History}
    → IsSoFar case_id after ids h
    → read_from api case_id fuel n after ids h ≡ ok h'
    → IsSoFarEnd case_id h'
unfolding read_from
read_from_sound api case_id zero n after ids h s e = cc
read_from_sound api case_id (suc fuel) n after ids h s e =
    elim (Round-cases (round case_id after ids h (api n after))) [
      | inl (x, q) ↦
          let e' = rw (q, read_from) at e in
          round_stop case_id after ids h s (api n after) (q ∙ ap stop e')
      | inr (last, ids', h₁, q) ↦
          read_from_sound api case_id fuel (suc n) last ids' h₁
            (round_again case_id after ids h s (api n after) q) (rw (q, read_from) at e)
    ]

-- A read that succeeds has only this case's events, strictly ascending by sequence and with no id
-- twice, and they are the events of the pages it took, in order, none left out.
pub read_decision_case_events_sound :
    (api : ℕ → ℕ → Answer) (case_id : String) (fuel : ℕ) (h : History)
    → read_decision_case_events api case_id fuel ≡ ok h
    → IsLog case_id 0 [] h.events × (paged h.pages ≡ h.events)
unfolding read_decision_case_events IsSoFarEnd
read_decision_case_events_sound api case_id fuel h e =
    let (last, ids, s) =
      read_from_sound api case_id fuel 0 0 [] (record { events = []; pages = [] })
        (record { log = tt; cursor = refl; known = refl; pages = refl }) e in
    (s.log, s.pages)
