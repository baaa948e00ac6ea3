-- ===== src/Recommendation/Polling.antt =====
-- frontend/lib/recommendation-center/use-recommendation-center.ts: one chain of reads of a case, with
-- a next read only while its artifact is being made. Message texts are left out. The effect for a
-- case id is modelled; an event that belongs to an earlier chain is dropped, as its signal is
-- aborted. `reads` counts the calls of `dataSource.read`.
use reinforcement_learning_c.Prelude.{
  ℕ, ◌+◌, Bool, true, false, not, ◌&&◌, ◌||◌, List, [], ◌∷◌, Result, ok, err, ◌==◌, nat_eq,
  if◌then◌else◌,
}
use reinforcement_learning_c.Recommendation.{
  CenterData, preview, status_data, ArtifactState, pending, is_polling_status, ReadFailure,
  api_error, auth_redirect, abort_error, unexpected,
}

abbrev is_pending : ArtifactState → Bool
is_pending pending = true
is_pending _ = false

-- `shouldPoll`
unfoldable pub should_poll : CenterData → Bool
should_poll (preview s a m) = false
should_poll (status_data d) = is_pending d.artifact_state && is_polling_status d.case_status.status

pub data State : Type 0 where
  loading missing_case_id unauthorized not_found conflict unavailable network_error error : State
  loaded : CenterData → State

-- `failureState`
unfoldable pub failure_state : ReadFailure → State
failure_state auth_redirect = unauthorized
failure_state (api_error status code) =
    if status == 401 || status == 403
    then unauthorized
    else if status == 404
    then not_found
    else if status == 409
    then conflict
    else if status == 503
    then unavailable
    else error
failure_state abort_error = network_error
failure_state unexpected = network_error

-- What the chain waits for.
pub data Wait : Type 0 where
  response timer nothing : Wait

pub record Center : Type 0 where
  pub state : State
  pub refreshing : Bool
  pub preserve_data : Bool
  pub wait : Wait
  pub reads : ℕ

-- The Boolean of `open` says whether there is a case id.
pub data Event : Type 0 where
  open_case : Bool → Event
  retry refresh timer_fired close : Event
  answered : Result ReadFailure CenterData → Event

-- The first lines of the inner `read`.
unfoldable pub begin : Bool → Center → Center
begin show_loading c = record c {
  state = if show_loading && not c.preserve_data then loading else c.state;
  wait = response;
  reads = c.reads + 1;
}

unfoldable pub on_answer : Result ReadFailure CenterData → Center → Center
on_answer (ok d) c = record c {
  state = loaded d;
  refreshing = false;
  preserve_data = false;
  wait = if should_poll d then timer else nothing;
}
on_answer (err abort_error) c = record c { wait = nothing }
on_answer (err e) c = record c {
  state = failure_state e;
  refreshing = false;
  preserve_data = false;
  wait = nothing;
}

-- The effect runs again: it replaces the chain.
unfoldable pub open_effect : Bool → Center → Center
unfolding begin
open_effect true c = begin true c
open_effect false c = record c { state = missing_case_id; wait = nothing }

unfoldable pub on_timer : Wait → Center → Center
unfolding begin
on_timer timer c = begin false c
on_timer _ c = c

unfoldable pub on_response : Wait → Result ReadFailure CenterData → Center → Center
on_response response r c = on_answer r c
on_response _ r c = c

-- One event; `has_case` says whether the case id is set when a retry or a refresh reopens it.
unfoldable pub step : Bool → Event → Center → Center
unfolding on_timer on_response
step has_case (open_case b) c = open_effect b c
step has_case retry c = open_effect has_case (record c { preserve_data = false; refreshing = true })
step has_case refresh c =
    open_effect has_case (record c { preserve_data = true; refreshing = true })
step has_case timer_fired c = on_timer c.wait c
step has_case close c = record c { wait = nothing }
step has_case (answered r) c = on_response c.wait r c

unfoldable pub run : Bool → List Event → Center → Center
run has_case [] c = c
run has_case (e ∷ es) c = run has_case es (step has_case e c)
