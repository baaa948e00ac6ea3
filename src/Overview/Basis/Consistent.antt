-- ===== src/Overview/Basis/Consistent.antt =====
-- A shown context is of one snapshot and plan version
-- (frontend/lib/operations-api/use-operations-context.ts).
use reinforcement_learning_c.Prelude.{
  String, Bool, List, [], ◌∷◌, ◌≡◌, arith, ◌==◌, string_eq, nat_eq, eq_iff, ok, >>=-eq-ok, passed,
  not,
}
use reinforcement_learning_c.Decision.{Snapshot}
use reinforcement_learning_c.Preview.{Fixture, Store, read, check}
use reinforcement_learning_c.Preview.Reads.{
  SnapshotResponse, ScheduleResponse, get_operations_snapshot, get_current_schedule,
}
use reinforcement_learning_c.Overview.Basis.{
  ContextThrown, ContextState, loading, ready, context_failure, is_mixed_read, loaded_state,
  ContextHook, ContextEvent, effect, cleanup, retry, changed, loaded, thrown, load_context,
  settle_context, context_step, context_run,
}

-- What is shown as ready is of one snapshot and one plan version.
abbrev pub IsOneContext : ContextState → Type 0
IsOneContext (ready n c) = (n.snapshot_id ≡ c.snapshot_id) × (n.plan_version ≡ c.plan_version)
IsOneContext _ = Unit

loaded_state-IsOneContext :
    (n : SnapshotResponse) (c : ScheduleResponse) → IsOneContext (loaded_state n c)
unfolding loaded_state is_mixed_read
loaded_state-IsOneContext n c = ground (arith, eq_iff n.snapshot_id c.snapshot_id)

context_failure-IsOneContext : (t : ContextThrown) → IsOneContext (context_failure t)
unfolding context_failure
context_failure-IsOneContext t = ground arith

settle-IsOneContext :
    (s : ContextState) (h : ContextHook)
    → IsOneContext s
    → IsOneContext h.state
    → IsOneContext (settle_context s h).state
unfolding settle_context
settle-IsOneContext s h p q = ground arith

step-IsOneContext :
    (e : ContextEvent) (h : ContextHook)
    → IsOneContext h.state
    → IsOneContext (context_step e h).state
unfolding context_step load_context
step-IsOneContext (effect factory_id) h q = tt
step-IsOneContext cleanup h q = q
step-IsOneContext retry h q = tt
step-IsOneContext (changed factory_id) h q = ground arith
step-IsOneContext (loaded n c) h q =
    settle-IsOneContext (loaded_state n c) h (loaded_state-IsOneContext n c) q
step-IsOneContext (thrown t) h q =
    settle-IsOneContext (context_failure t) h (context_failure-IsOneContext t) q

IsOneContext-run :
    (es : List ContextEvent) (h : ContextHook)
    → IsOneContext h.state
    → IsOneContext (context_run es h).state
unfolding context_run
IsOneContext-run [] h q = q
IsOneContext-run (e ∷ es) h q = IsOneContext-run es (context_step e h) (step-IsOneContext e h q)

-- Over any run of the page's context, whatever the two requests answer and however they are
-- interleaved with publications, a snapshot and a schedule are only shown together if they are of
-- one snapshot and one plan version.
pub context_run-IsOneContext :
    (es : List ContextEvent) (h : ContextHook)
    → h.state ≡ loading
    → IsOneContext (context_run es h).state
context_run-IsOneContext es h start = IsOneContext-run es h (rw start tt)

read-basis :
    (fx : Fixture) (factory_id : String) (aborted : Bool) {x : Snapshot}
    → read fx factory_id aborted ≡ ok x
    → x ≡ fx.basis
unfolding read
read-basis fx factory_id aborted h =
    let (u, checked, h₁) = >>=-eq-ok (check fx aborted) _ h in
    let (known, found) = passed (not (factory_id == fx.basis.factory_id)) _ _ h₁ in cc

snapshot_of :
    (fx : Fixture) (s : Store) (a : Bool) (factory_id : String) {n : SnapshotResponse}
    → get_operations_snapshot fx s a factory_id ≡ ok n
    → (n.snapshot_id ≡ fx.basis.snapshot_id) × (n.plan_version ≡ s.plan_version)
unfolding get_operations_snapshot
snapshot_of fx s a factory_id h =
    let (x, got, h₁) = >>=-eq-ok (read fx factory_id a) _ h in
    let same = read-basis fx factory_id a got in ground (arith, same)

schedule_of :
    (fx : Fixture) (s : Store) (a : Bool) (factory_id : String) {c : ScheduleResponse}
    → get_current_schedule fx s a factory_id ≡ ok c
    → (c.snapshot_id ≡ fx.basis.snapshot_id) × (c.plan_version ≡ s.plan_version)
unfolding get_current_schedule
schedule_of fx s a factory_id h =
    let (x, got, h₁) = >>=-eq-ok (read fx factory_id a) _ h in
    let same = read-basis fx factory_id a got in ground (arith, same)

-- What the preview answers to the two requests in one state of its store is never taken for a mixed
-- read: both are of the fixture's snapshot and of the store's plan version.
pub preview-loaded_state :
    (fx : Fixture) (s : Store) (a b : Bool) (factory_id : String) (n : SnapshotResponse)
    (c : ScheduleResponse)
    → get_operations_snapshot fx s a factory_id ≡ ok n
    → get_current_schedule fx s b factory_id ≡ ok c
    → loaded_state n c ≡ ready n c
unfolding loaded_state is_mixed_read
preview-loaded_state fx s a b factory_id n c p q =
    let (snapshot, version) = snapshot_of fx s a factory_id p in
    let (snapshot', version') = schedule_of fx s b factory_id q in
    ground (arith, eq_iff n.snapshot_id c.snapshot_id)
