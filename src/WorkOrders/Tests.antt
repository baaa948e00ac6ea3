-- ===== src/WorkOrders/Tests.antt =====
-- Work orders at concrete values: a form, a rejected write, a filtered list and a paged history.
use reinforcement_learning_c.Prelude.{
  ℕ, zero, suc, String, true, false, List, [], ◌∷◌, none, some, ◌≡◌, ◌≢◌, refl, All, map, Result,
  ok, trim, is_blank, lookup, insert, remove, arith, eq_iff,
}
use reinforcement_learning_c.WorkOrders.{
  CommandDraft, CommandRequest, complete, stopped, verified, stop_reason_field, needs_assignee,
  is_stopped, build_report, build_reason, build_content, build_work_order_command, empty_content,
}
use reinforcement_learning_c.WorkOrders.Form.{
  complaint, IsContent, build_work_order_command-complaint, build_work_order_command-IsContent,
}
use reinforcement_learning_c.WorkOrders.Intent.{
  WorkOrdersError, work_orders_error, Intent, IntentHook, effect, start, retry, reviewed,
  identified, thrown, Actor, idle, work_order_error, same_actor, clear_work_order_memory,
  bind_work_order_memory, on_effect, execute_intent, is_session_changed, is_rejection, on_error,
  on_identified, on_replied, with_execution, start_intent, retry_intent, review_intent, happen,
  happen_all,
}
use reinforcement_learning_c.WorkOrders.Intent.Outcomes.{IsPastOrOther, settled_never_resent}
use reinforcement_learning_c.WorkOrders.Replies.{
  WorkOrderSummary, WorkOrderQuery, ListReply, has_cursor, WorkOrderEvent, EventsReply,
  has_duplicate, is_bad_row, is_bad_list, list_orders, unique_from, unique_ids, rows_match,
  order_summaries, rows_follow, is_bad_history, order_events, load_pages, verified_read,
  load_history,
}
use reinforcement_learning_c.WorkOrders.Replies.Rows.{
  IsDistinct, IsWanted, AreFirstOccurrences, list_orders_sound, order_summaries_sound,
}
use reinforcement_learning_c.WorkOrders.Replies.History.{IsGapless, load_history-IsGapless}

forms : Unit {0}
unfolding trim is_blank needs_assignee is_stopped build_report build_reason build_content
    build_work_order_command
forms = tt

abbrev draft : CommandDraft
draft = record {
  reason = "late";
  assignee = "u7";
  outcome = stopped;
  work = " oiled ";
  result = "ok";
  stop_reason = " ";
  verification = verified;
  note = "";
}

build_work_order_command-complaint_example :
    complaint (build_work_order_command complete 3 draft) ≡ some stop_reason_field
unfolding forms
build_work_order_command-complaint_example = build_work_order_command-complaint complete 3 draft

abbrev report_draft : CommandDraft
report_draft = record draft { stop_reason = "smoke " }

abbrev report_request : CommandRequest
report_request = record {
  command = complete;
  expected_revision = 3;
  content = record empty_content {
    report = some (record {
      outcome = stopped;
      work_performed = "oiled";
      result = "ok";
      stop_reason = some "smoke";
    });
  };
}

build_work_order_command-IsContent_example :
    (complete ≡ complete)
    × (◌≡◌ {A = ℕ} 3 3)
    × IsContent complete report_draft report_request.content
unfolding forms
build_work_order_command-IsContent_example =
    build_work_order_command-IsContent complete 3 report_draft {r = report_request} refl

writes : Unit {0}
unfolding lookup insert remove work_order_error same_actor clear_work_order_memory
    bind_work_order_memory on_effect execute_intent is_session_changed is_rejection on_error
    on_identified on_replied with_execution start_intent retry_intent review_intent happen
    happen_all
writes = tt

abbrev ann : Actor
ann = record { id = "u1"; role = "planner" }

abbrev conflict_error : WorkOrdersError
conflict_error = record { status = 409; code = "CASE" }

abbrev fresh_hook : IntentHook ℕ
fresh_hook = record {
  memory = record { pending = []; rejections = []; bound_actor = none };
  actor = ann;
  scope = "s";
  kind = idle;
  active = none;
  locked = false;
  generation = 0;
  execution = none;
  sends = [];
}

abbrev sent_hook : IntentHook ℕ
sent_hook = happen_all (effect ann "s" ∷ start "k1" 5 ∷ identified ann ∷ []) fresh_hook

abbrev first_intent : Intent ℕ
first_intent = record { key = "k1"; body = 5 }

abbrev rejected_hook : IntentHook ℕ
rejected_hook = happen (thrown (work_orders_error conflict_error)) sent_hook

k2_is_new : ◌≢◌ {A = String} "k2" "k1"
k2_is_new = ground (arith, eq_iff "k2" "k1")

settled_never_resent_example :
    All
      (IsPastOrOther "k1" rejected_hook.sends)
      (happen_all (retry ∷ reviewed ∷ start "k2" 6 ∷ identified ann ∷ []) rejected_hook).sends
unfolding writes
settled_never_resent_example =
    settled_never_resent (retry ∷ reviewed ∷ start "k2" 6 ∷ identified ann ∷ []) rejected_hook
      first_intent refl refl refl (tt, (tt, (k2_is_new, (tt, tt))))

replies : Unit {0}
unfolding has_duplicate is_bad_row is_bad_list list_orders unique_from unique_ids rows_match
    order_summaries rows_follow is_bad_history order_events load_pages verified_read load_history
    same_actor
replies = tt

abbrev row : String → WorkOrderSummary
row id = record {
  id = id;
  factory_id = "f";
  basis_snapshot_id = "b";
  source_basis_snapshot_id = "b";
  status = "OPEN";
  machine_id = "m1";
  assignee = some "u7";
  overdue = false;
}

abbrev query : WorkOrderQuery
query = record {
  factory_id = "f";
  status = some "OPEN";
  machine_id = some "";
  assignee_user_id = some "u7";
  overdue = some false;
}

abbrev listed : ListReply
listed = record { rows = row "a" ∷ row "b" ∷ []; has_more = true; next_cursor = some "c" }

list_orders_sound_example :
    (◌≡◌ {A = Result WorkOrdersError ListReply} (ok listed) (ok listed))
    × All (IsWanted query) listed.rows
    × IsDistinct (map (λ r. r.id) listed.rows)
    × (has_cursor listed.next_cursor ≡ listed.has_more)
    × (listed.has_more ≡ true → listed.rows ≢ [])
unfolding replies
list_orders_sound_example = list_orders_sound (ok listed) query listed refl

abbrev summed : List WorkOrderSummary
summed = row "a" ∷ row "b" ∷ []

order_summaries_sound_example :
    AreFirstOccurrences ("a" ∷ "b" ∷ "a" ∷ []) (map (λ r. r.id) summed)
    × All (λ r. r.factory_id ≡ "f") summed
unfolding replies
order_summaries_sound_example =
    order_summaries_sound (ok summed) "f" ("a" ∷ "b" ∷ "a" ∷ []) summed refl

abbrev first_event : WorkOrderEvent
first_event = record { id = "e1"; work_order_id = "w"; sequence = 1 }

abbrev second_event : WorkOrderEvent
second_event = record { id = "e2"; work_order_id = "w"; sequence = 2 }

abbrev server : ℕ → Result WorkOrdersError EventsReply
server zero = ok (record { rows = first_event ∷ []; has_more = true; next_after_sequence = some 1 })
server (suc n) =
    ok (record { rows = second_event ∷ []; has_more = false; next_after_sequence = none })

load_history-IsGapless_example :
    (◌≡◌ {A = Result WorkOrdersError Actor} (ok ann) (ok ann))
    × IsGapless "w" 1 (first_event ∷ second_event ∷ [])
unfolding replies
load_history-IsGapless_example =
    load_history-IsGapless server (ok ann) false ann "w" false 3 0
      {rows = first_event ∷ second_event ∷ []} refl
