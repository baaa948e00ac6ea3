-- ===== src/CaseEvents/Complete.antt =====
-- The complete read against a server that pages through one log, as the preview's `listEvents`
-- does (frontend/lib/operations-api/use-decision-case-events.ts and mock.ts).
use mathlib.Core.List.{append-nil, append_assoc}
use reinforcement_learning_c.Prelude.{
  ℕ, zero, suc, ◌≤◌, ◌<◌, String, true, false, List, [], ◌∷◌, ◌++◌, ◌≡◌, refl, sym, ap, ◌∙◌, Result,
  ok, ltb, arith, eq_iff, length, take, drop, take-append-drop, length-drop, eq-nil, Bool-cases,
  inl, inr,
}
use reinforcement_learning_c.Decision.{HistoryEvent, EventsPage}
use reinforcement_learning_c.Preview.Reads.{rows_after, page_of, last_or}
use reinforcement_learning_c.CaseEvents.{
  Answer, page, ReadError, History, is_bad_event, check_events, is_bad_page, take_page, Round, stop,
  again, continue, round, read_from, read_decision_case_events,
}
use reinforcement_learning_c.CaseEvents.Sound.{IsLog, seen, extend}

check_events_complete :
    (case_id : String) (last : ℕ) (ids : List String) (es : List HistoryEvent)
    → IsLog case_id last ids es
    → check_events case_id last ids es ≡ ok (last_or last es, seen ids es)
unfolding check_events is_bad_event
check_events_complete case_id last ids [] h = refl
check_events_complete case_id last ids (e ∷ es) (a, b, c, d, h) =
    ground
      (arith, eq_iff e.case_id case_id, check_events_complete case_id e.sequence (e.id ∷ ids) es h)

IsLog-take :
    (case_id : String) (k last : ℕ) (ids : List String) (es : List HistoryEvent)
    → IsLog case_id last ids es
    → IsLog case_id last ids (take k es)
IsLog-take case_id zero last ids es h = tt
IsLog-take case_id (suc k) last ids [] h = tt
IsLog-take case_id (suc k) last ids (e ∷ es) (a, b, c, d, h) =
    (a, b, c, d, IsLog-take case_id k e.sequence (e.id ∷ ids) es h)

IsLog-drop :
    (case_id : String) (k last : ℕ) (ids : List String) (es : List HistoryEvent)
    → IsLog case_id last ids es
    → IsLog case_id (last_or last (take k es)) (seen ids (take k es)) (drop k es)
IsLog-drop case_id zero last ids es h = h
IsLog-drop case_id (suc k) last ids [] h = tt
IsLog-drop case_id (suc k) last ids (e ∷ es) (a, b, c, d, h) =
    IsLog-drop case_id k e.sequence (e.id ∷ ids) es h

last_or-le :
    (case_id : String) (last : ℕ) (ids : List String) (es : List HistoryEvent)
    → IsLog case_id last ids es
    → last ≤ last_or last es
last_or-le case_id last ids [] h = omega arith
last_or-le case_id last ids (e ∷ es) (a, b, c, d, h) =
    omega (arith, last_or-le case_id e.sequence (e.id ∷ ids) es h)

-- A server that is asked for what follows `a` holds all of a log from above `a`.
rows_after-all :
    (case_id : String) (a last : ℕ) (ids : List String) (es : List HistoryEvent)
    → a ≤ last
    → IsLog case_id last ids es
    → rows_after a es ≡ es
unfolding rows_after
rows_after-all case_id a last ids [] l h = refl
rows_after-all case_id a last ids (e ∷ es) l (p, b, c, d, h) =
    let rest = rows_after-all case_id a e.sequence (e.id ∷ ids) es (omega arith) h in
    ground (arith, rest)

rows_after-take :
    (case_id : String) (k last : ℕ) (ids : List String) (es : List HistoryEvent)
    → IsLog case_id last ids es
    → rows_after (last_or last (take k es)) es ≡ drop k es
unfolding rows_after
rows_after-take case_id zero last ids es h = rows_after-all case_id last last ids es (omega arith) h
rows_after-take case_id (suc k) last ids [] h = refl
rows_after-take case_id (suc k) last ids (e ∷ es) (p, b, c, d, h) =
    let rest = rows_after-take case_id k e.sequence (e.id ∷ ids) es h in
    let later =
      last_or-le case_id e.sequence (e.id ∷ ids) (take k es)
        (IsLog-take case_id k e.sequence (e.id ∷ ids) es h) in
    ground (arith, rest, later)

-- Asking for less first changes nothing.
rows_after_twice :
    (a b : ℕ) (es : List HistoryEvent) → a ≤ b → rows_after b (rows_after a es) ≡ rows_after b es
unfolding rows_after
rows_after_twice a b [] l = refl
rows_after_twice a b (e ∷ es) l = ground (arith, rows_after_twice a b es l)

last_or-lt :
    (case_id : String) (k last : ℕ) (ids : List String) (es : List HistoryEvent)
    → IsLog case_id last ids es
    → 0 < k
    → 0 < length es
    → last < last_or last (take k es)
last_or-lt case_id zero last ids es h l m = absurd (omega arith)
last_or-lt case_id (suc k) last ids [] h l m = absurd (omega arith)
last_or-lt case_id (suc k) last ids (e ∷ es) (a, b, c, d, h) l m = omega (
  arith,
  last_or-le case_id e.sequence (e.id ∷ ids) (take k es)
      (IsLog-take case_id k e.sequence (e.id ∷ ids) es h),
)

good_page :
    (case_id : String) (limit last : ℕ) (ids : List String) (rest : List HistoryEvent)
    (p : EventsPage)
    → IsLog case_id last ids rest
    → 0 < limit
    → p.has_more ≡ ltb limit (length rest)
    → p.next_after_sequence ≡ last_or last (take limit rest)
    → is_bad_page last (last_or last (take limit rest)) p ≡ false
unfolding is_bad_page
good_page case_id limit last ids rest p log l more next =
    ground (arith, last_or-lt case_id limit last ids rest log l)

module _ (case_id : String) (limit : ℕ) (log : List HistoryEvent) (positive : 0 < limit) where
  abbrev server : ℕ → ℕ → Answer
  server n after = page (page_of after limit log)

  -- Where the loop stands: the events read so far, and a log of those to come.
  record IsAt (after : ℕ) (ids : List String) (h : History) : Type 0 where
    whole : h.events ++ rows_after after log ≡ log
    coming : IsLog case_id after ids (rows_after after log)

  module _ (after : ℕ) (ids : List String) (h : History) (at : IsAt after ids h) where
    next_after : ℕ
    next_after = last_or after (take limit (rows_after after log))

    next_ids : List String
    next_ids = seen ids (take limit (rows_after after log))

    next_history : History
    next_history = extend h (page_of after limit log)

    take_page-server :
        take_page case_id after ids h (page_of after limit log)
        ≡ ok (next_after, next_ids, next_history)
    unfolding take_page page_of next_after next_ids next_history
    take_page-server = rw (
      check_events_complete case_id after ids (take limit (rows_after after log))
          (IsLog-take case_id limit after ids (rows_after after log) at.coming),
      good_page case_id limit after ids (rows_after after log) (page_of after limit log) at.coming
          positive refl refl,
    )

    rows_next : rows_after next_after log ≡ drop limit (rows_after after log)
    unfolding next_after
    rows_next =
        sym (
          rows_after_twice after _ log (
            last_or-le case_id after ids (take limit (rows_after after log))
              (IsLog-take case_id limit after ids (rows_after after log) at.coming)))
        ∙ rows_after-take case_id limit after ids (rows_after after log) at.coming

    next-IsAt : IsAt next_after next_ids next_history
    unfolding next_history next_ids page_of
    next-IsAt = record {
      whole =
          append_assoc h.events (take limit (rows_after after log)) (rows_after next_after log)
          ∙ ap (λ xs. h.events ++ (take limit (rows_after after log) ++ xs)) rows_next
          ∙ ap (λ xs. h.events ++ xs) (take-append-drop limit (rows_after after log))
          ∙ at.whole;
      coming = rw rows_next (
          unfold next_after in IsLog-drop case_id limit after ids (rows_after after log) at.coming);
    }

    round-server :
        (n : ℕ)
        → round case_id after ids h (server n after)
          ≡ continue
              (ltb limit (length (rows_after after log)))
              (ok (next_after, next_ids, next_history))
    unfolding round
    round-server n = unfold page_of in rw take_page-server

    last_page : ltb limit (length (rows_after after log)) ≡ false → next_history.events ≡ log
    last_page short =
        let none_left =
          eq-nil (drop limit (rows_after after log))
            (ground (arith, length-drop limit (rows_after after log))) in
        sym (append-nil next_history.events)
        ∙ ap (λ xs. next_history.events ++ xs) (sym (rows_next ∙ none_left))
        ∙ next-IsAt.whole

    fewer :
        ltb limit (length (rows_after after log)) ≡ true
        → length (rows_after next_after log) < length (rows_after after log)
    fewer more = rw rows_next (ground (arith, length-drop limit (rows_after after log)))

  abbrev follow : ℕ → ℕ → Round → Result ReadError History
  follow fuel n (stop r) = r
  follow fuel n (again last ids h) = read_from server case_id fuel (suc n) last ids h

  read_from-follow :
      (fuel n after : ℕ) (ids : List String) (h : History)
      → read_from server case_id (suc fuel) n after ids h
        ≡ follow fuel n (round case_id after ids h (server n after))
  unfolding read_from
  read_from-follow fuel n after ids h = ground arith

  read_from-server :
      (fuel n after : ℕ) (ids : List String) (h : History)
      → IsAt after ids h
      → length (rows_after after log) < fuel
      → (h' : History) × (read_from server case_id fuel n after ids h ≡ ok h') × (h'.events ≡ log)
  unfolding continue
  read_from-server zero n after ids h at few = absurd (omega arith)
  read_from-server (suc fuel) n after ids h at few =
      elim (Bool-cases (ltb limit (length (rows_after after log)))) [
        | inl more ↦
            let (h', result, whole) =
              read_from-server fuel (suc n) (next_after after ids h at) (next_ids after ids h at)
                (next_history after ids h at) (next-IsAt after ids h at)
                (omega (arith, fewer after ids h at more)) in
            (h', rw (read_from-follow, round-server after ids h at n, more) result, whole)
        | inr short ↦ (
          next_history after ids h at,
          rw (read_from-follow, round-server after ids h at n, short) refl,
          last_page after ids h at short,
        )
      ]

-- Against a server that pages through one well-formed log of the case, by pages of any positive
-- size, the read ends within as many rounds as the log has events, plus one, and returns the whole
-- log in order.
pub read_decision_case_events_complete :
    (case_id : String) (limit : ℕ) (log : List HistoryEvent) (fuel : ℕ)
    → 0 < limit
    → IsLog case_id 0 [] log
    → length log < fuel
    → (h : History) × (read_decision_case_events
          (λ n after. page (page_of after limit log))
          case_id
          fuel
        ≡ ok h)
      × (h.events ≡ log)
unfolding read_decision_case_events
read_decision_case_events_complete case_id limit log fuel positive well enough =
    let everything = rows_after-all case_id 0 0 [] log (omega arith) well in
    read_from-server case_id limit log positive fuel 0 0 [] (record { events = []; pages = [] })
      (record { whole = everything; coming = rw everything well }) (rw everything enough)
