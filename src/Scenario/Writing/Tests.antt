-- ===== src/Scenario/Writing/Tests.antt =====
-- A write that is confirmed, after which the page mounts anew.
use reinforcement_learning_c.Prelude.{
  ℕ, String, List, [], ◌∷◌, none, false, inl, refl, arith, eq_iff, All, lookup, insert, remove, ◌≢◌,
}
use reinforcement_learning_c.WorkOrders.Intent.{Actor, same_actor}
use reinforcement_learning_c.Scenario.Writing.{
  Writer, WriteEvent, effect, start, retry, identified, replied, idle, clear_scenario_memory,
  bind_scenario_memory, write_effect, execute_write, rejects, write_error, write_identified,
  write_replied, start_write, retry_write, review_write, with_run, write_step, write_run,
}
use reinforcement_learning_c.Scenario.Writing.Settled.{IsKnownSend, confirmed_never_resent}

writes : Unit {0}
unfolding lookup insert remove same_actor clear_scenario_memory bind_scenario_memory write_effect
    execute_write rejects write_error write_identified write_replied start_write retry_write
    review_write with_run write_step write_run
writes = tt

abbrev ann : Actor
ann = record { id = "u1"; role = "planner" }

abbrev new_writer : Writer ℕ
new_writer = record {
  memory = record { intents = []; rejections = []; identity_scope = none };
  actor = ann;
  scope = "s";
  kind = idle;
  active = none;
  locked = false;
  running = none;
  sends = [];
}

abbrev receipt_writer : Writer ℕ
receipt_writer =
    write_run (effect ann "s" ∷ start "k1" 5 ∷ identified ann ∷ replied ∷ []) new_writer

abbrev later_events : List (WriteEvent ℕ)
later_events = effect ann "s" ∷ retry ∷ start "k2" 6 ∷ identified ann ∷ []

k2_is_other : ◌≢◌ {A = String} "k2" "k1"
k2_is_other = ground (arith, eq_iff "k2" "k1")

confirmed_never_resent_example :
    All
      (IsKnownSend "k1" receipt_writer.sends)
      (write_run later_events (write_step (identified ann) receipt_writer)).sends
unfolding writes
confirmed_never_resent_example =
    confirmed_never_resent later_events receipt_writer (record { key = "k1"; body = 5 }) refl
      (inl refl, tt) (tt, (tt, (k2_is_other, (tt, tt))))
