-- ===== src/Recommendation/Chain.antt =====
-- When the Recommendation Center reads again
-- (frontend/lib/recommendation-center/use-recommendation-center.ts).
use reinforcement_learning_c.Prelude.{
  Bool, true, false, List, [], ◌∷◌, ok, ◌≡◌, refl, arith, ◌∙◌, if◌then◌else◌, ◌⊎◌,
}
use reinforcement_learning_c.Decision.{
  Status, created, analyzing, generating, validating, explaining,
}
use reinforcement_learning_c.Recommendation.{
  CenterData, status_data, preview, pending, is_polling_status,
}
use reinforcement_learning_c.Recommendation.Polling.{
  should_poll, State, loading, missing_case_id, unauthorized, not_found, conflict, unavailable,
  network_error, error, loaded, response, timer, nothing, Center, Event, open_case, retry, refresh,
  timer_fired, close, answered, on_answer, open_effect, step, run,
}

-- What waits for a timer is a case that is still being worked on, shown as such.
abbrev pub IsPollingState : State → Type 0
IsPollingState (loaded d) = should_poll d ≡ true
IsPollingState _ = ⊥

pub record Inv (c : Center) : Type 0 where
  pub polls : c.wait ≡ timer → IsPollingState c.state

step-Inv : (has_case : Bool) (e : Event) (c : Center) → Inv c → Inv (step has_case e c)
unfolding step open_effect on_answer
step-Inv has_case (open_case b) c i = ground arith
step-Inv has_case retry c i = ground arith
step-Inv has_case refresh c i = ground arith
step-Inv has_case timer_fired c i = ground arith
step-Inv has_case close c i = ground arith
step-Inv has_case (answered r) c i = ground arith

run-Inv : (has_case : Bool) (es : List Event) (c : Center) → Inv c → Inv (run has_case es c)
unfolding run
run-Inv has_case [] c i = i
run-Inv has_case (e ∷ es) c i = run-Inv has_case es (step has_case e c) (step-Inv has_case e c i)

-- A center before its effect runs.
unfoldable pub new_center : Bool → Center
new_center has_case = record {
  state = if has_case then loading else missing_case_id;
  refreshing = false;
  preserve_data = false;
  wait = nothing;
  reads = 0;
}

-- The statuses of a case that is still being worked on.
abbrev pub IsWorkingStatus : Status → Type 0
IsWorkingStatus s =
    s ≡ created ⊎ (s ≡ analyzing) ⊎ (s ≡ generating) ⊎ (s ≡ validating) ⊎ (s ≡ explaining)

polling_status-IsWorkingStatus : (s : Status) → is_polling_status s ≡ true → IsWorkingStatus s
unfolding is_polling_status
polling_status-IsWorkingStatus s h = ground arith

abbrev pub IsWorking : CenterData → Type 0
IsWorking (preview s a m) = ⊥
IsWorking (status_data d) = (d.artifact_state ≡ pending) × IsWorkingStatus d.case_status.status

should_poll-IsWorking : (d : CenterData) → should_poll d ≡ true → IsWorking d
unfolding should_poll
should_poll-IsWorking (preview s a m) h = cc
should_poll-IsWorking (status_data d) h =
    (ground arith, polling_status-IsWorkingStatus d.case_status.status (ground arith))

polling_state : (s : State) → IsPollingState s → (d : CenterData) × (s ≡ loaded d) × IsWorking d
polling_state (loaded d) h = (d, refl, should_poll-IsWorking d h)
polling_state loading h = absurd h
polling_state missing_case_id h = absurd h
polling_state unauthorized h = absurd h
polling_state not_found h = absurd h
polling_state conflict h = absurd h
polling_state unavailable h = absurd h
polling_state network_error h = absurd h
polling_state error h = absurd h

new_center-Inv : (has_case : Bool) → Inv (new_center has_case)
unfolding new_center
new_center-Inv has_case = ground arith

-- Over any run, a next read is scheduled only while the page shows the data of a case whose artifact
-- is pending and whose status is CREATED, ANALYZING, GENERATING, VALIDATING or EXPLAINING: never for
-- the preview fixture, a ready, blocked or mismatched artifact, or a failure.
pub timer_scheduled :
    (has_case : Bool) (es : List Event)
    → (run has_case es (new_center has_case)).wait ≡ timer
    → (d : CenterData) × ((run has_case es (new_center has_case)).state ≡ loaded d) × IsWorking d
timer_scheduled has_case es h =
    polling_state _ ((run-Inv has_case es (new_center has_case) (new_center-Inv has_case)).polls h)

-- The events that no user and no change of the case starts.
abbrev pub IsPassive : List Event → Type 0
IsPassive [] = Unit
IsPassive (timer_fired ∷ es) = IsPassive es
IsPassive (close ∷ es) = IsPassive es
IsPassive (answered r ∷ es) = IsPassive es
IsPassive (_ ∷ es) = ⊥

passive-step :
    (has_case : Bool) (e : Event) (c : Center)
    → IsPassive (e ∷ [])
    → c.wait ≡ nothing
    → ((step has_case e c).wait ≡ nothing)
      × ((step has_case e c).reads ≡ c.reads)
      × ((step has_case e c).state ≡ c.state)
unfolding step
passive-step has_case (open_case b) c p w = absurd p
passive-step has_case retry c p w = absurd p
passive-step has_case refresh c p w = absurd p
passive-step has_case timer_fired c p w = ground arith
passive-step has_case close c p w = ground arith
passive-step has_case (answered r) c p w = ground arith

IsPassive-head :
    (e : Event) (es : List Event) → IsPassive (e ∷ es) → IsPassive (e ∷ []) × IsPassive es
IsPassive-head (open_case b) es p = absurd p
IsPassive-head retry es p = absurd p
IsPassive-head refresh es p = absurd p
IsPassive-head timer_fired es p = (tt, p)
IsPassive-head close es p = (tt, p)
IsPassive-head (answered r) es p = (tt, p)

passive-run :
    (has_case : Bool) (es : List Event) (c : Center)
    → IsPassive es
    → c.wait ≡ nothing
    → ((run has_case es c).reads ≡ c.reads) × ((run has_case es c).state ≡ c.state)
unfolding run
passive-run has_case [] c p w = (refl, refl)
passive-run has_case (e ∷ es) c p w =
    let (now, later) = IsPassive-head e es p in
    let (waits, reads, state) = passive-step has_case e c now w in
    let (reads', state') = passive-run has_case es (step has_case e c) later waits in
    (reads' ∙ reads, state' ∙ state)

answer_settles :
    (d : CenterData) (has_case : Bool) (c : Center)
    → c.wait ≡ response
    → should_poll d ≡ false
    → ((step has_case (answered (ok d)) c).wait ≡ nothing)
      × ((step has_case (answered (ok d)) c).state ≡ loaded d)
      × ((step has_case (answered (ok d)) c).reads ≡ c.reads)
unfolding step on_answer
answer_settles d has_case c w p = ground arith

-- Once the read that was waited for brings data that is not to be polled, the chain is over: until
-- the user retries or refreshes or the case changes, the page goes on showing that data and
-- nothing is read again, whatever late answers and timers come.
pub settled_data_stays :
    (has_case : Bool) (d : CenterData) (es : List Event) (c : Center)
    → c.wait ≡ response
    → should_poll d ≡ false
    → IsPassive es
    → ((run has_case (answered (ok d) ∷ es) c).reads ≡ c.reads)
      × ((run has_case (answered (ok d) ∷ es) c).state ≡ loaded d)
unfolding run
settled_data_stays has_case d es c w p passive =
    let (over, shown, count) = answer_settles d has_case c w p in
    let (reads, state) = passive-run has_case es (step has_case (answered (ok d)) c) passive over in
    (reads ∙ count, state ∙ shown)
