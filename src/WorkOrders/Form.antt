-- ===== src/WorkOrders/Form.antt =====
-- What the command form asks for, and what it sends (frontend/lib/work-orders/commands.ts).
use reinforcement_learning_c.Prelude.{
  ℕ, String, Bool, true, false, Option, none, some, List, [], ◌∷◌, ◌≡◌, Result, ok, err, find, trim,
  is_blank, is_empty, arith, ◌↔◌, >>=-eq-ok, ◌&&◌, throw_if, ◌≢◌, ◌⊎◌,
}
use reinforcement_learning_c.WorkOrders.{
  CommandName, assign, accept, start, block, resume, complete, close, request_rework, cancel,
  reassign, manager_hold, reassign_for_rework, Outcome, stopped, CommandDraft, Field,
  assignee_field, work_field, result_field, stop_reason_field, note_field, reason_field, Report,
  Verification, Content, CommandRequest, needs_assignee, is_stopped, build_report, build_reason,
  build_content, build_work_order_command,
}

-- The table of the fields that a command needs, in the order in which the form asks for them.
abbrev pub stop_field : Outcome → List Field
stop_field stopped = stop_reason_field ∷ []
stop_field _ = []

abbrev pub required : CommandName → Outcome → List Field
required accept o = []
required start o = []
required assign o = assignee_field ∷ []
required reassign o = assignee_field ∷ reason_field ∷ []
required reassign_for_rework o = assignee_field ∷ reason_field ∷ []
required complete o = work_field ∷ result_field ∷ stop_field o
required close o = note_field ∷ []
required _ o = reason_field ∷ []

-- A chosen assignee is not the empty id; a text is left out if only white space remains.
abbrev pub is_left_out : CommandDraft → Field → Bool
is_left_out d assignee_field = is_empty d.assignee
is_left_out d work_field = is_blank d.work
is_left_out d result_field = is_blank d.result
is_left_out d stop_reason_field = is_blank d.stop_reason
is_left_out d note_field = is_blank d.note
is_left_out d reason_field = is_blank d.reason

-- What a form has to say: the first field left out, if any.
abbrev pub complaint : {A : Type 0} → Result Field A → Option Field
complaint (ok a) = none
complaint (err f) = some f

-- The form sends a request exactly if no field that the command needs is left out, and otherwise
-- complains of the first one that is.
pub build_work_order_command-complaint :
    (command : CommandName) (revision : ℕ) (d : CommandDraft)
    → complaint (build_work_order_command command revision d)
      ≡ find (is_left_out d) (required command d.outcome)
unfolding build_work_order_command needs_assignee build_content build_reason build_report is_stopped
build_work_order_command-complaint command revision d = ground arith

-- A text of the request is the trimmed text of the draft, which is not blank.
abbrev pub IsTextOf : String → String → Type 0
IsTextOf given s = (s ≡ trim given) × (is_blank given ≡ false)

abbrev pub IsTextIfAny : String → Option String → Type 0
IsTextIfAny given none = Unit
IsTextIfAny given (some s) = IsTextOf given s

-- The commands that name an assignee, and the ones that give a reason.
abbrev pub NamesAssignee : CommandName → Type 0
NamesAssignee assign = Unit
NamesAssignee reassign = Unit
NamesAssignee reassign_for_rework = Unit
NamesAssignee _ = ⊥

abbrev pub GivesReason : CommandName → Type 0
GivesReason block = Unit
GivesReason resume = Unit
GivesReason request_rework = Unit
GivesReason cancel = Unit
GivesReason manager_hold = Unit
GivesReason reassign = Unit
GivesReason reassign_for_rework = Unit
GivesReason _ = ⊥

abbrev pub IsReport : CommandDraft → Option Report → Type 0
IsReport d none = Unit
IsReport d (some r) =
    (r.outcome ≡ d.outcome)
    × IsTextOf d.work r.work_performed
    × IsTextOf d.result r.result
    × IsTextIfAny d.stop_reason r.stop_reason
    × ((r.stop_reason ≢ none) ↔ (d.outcome ≡ stopped))

abbrev pub IsVerification : CommandDraft → Option (Verification × String) → Type 0
IsVerification d none = Unit
IsVerification d (some v) = (v.0 ≡ d.verification) × IsTextOf d.note v.1

-- The members of a request: each one that is there is from the draft; the assignee and the reason
-- are there exactly for the commands above, a report for COMPLETE, a verification for CLOSE.
pub record IsContent (command : CommandName) (d : CommandDraft) (c : Content) : Type 0 where
  pub assigned : (c.assignee_user_id ≢ none) ↔ NamesAssignee command
  pub chosen : c.assignee_user_id ≡ none ⊎ (c.assignee_user_id ≡ some d.assignee)
  pub reason : IsTextIfAny d.reason c.reason
  pub reasoned : (c.reason ≢ none) ↔ GivesReason command
  pub report : IsReport d c.report
  pub reported : (c.report ≢ none) ↔ (command ≡ complete)
  pub verification : IsVerification d c.verification
  pub verified_by : (c.verification ≢ none) ↔ (command ≡ close)

stopped_outcome : (o : Outcome) → is_stopped o ≡ true → o ≡ stopped
unfolding is_stopped
stopped_outcome o h = ground arith

stopped_test : (o : Outcome) → o ≡ stopped → is_stopped o ≡ true
unfolding is_stopped
stopped_test o h = ground arith

build_report-IsReport :
    (d : CommandDraft) {r : Report} → build_report d ≡ ok r → IsReport d (some r)
unfolding build_report
build_report-IsReport d {r} h = ground (arith, stopped_outcome d.outcome, stopped_test d.outcome)

build_reason-IsTextOf :
    (to : Option String) (d : CommandDraft) {c : Content}
    → build_reason to d ≡ ok c
    → (c.assignee_user_id ≡ to)
      × IsTextIfAny d.reason c.reason
      × (c.reason ≢ none)
      × (c.report ≡ none)
      × (c.verification ≡ none)
unfolding build_reason
build_reason-IsTextOf to d h = ground arith

build_content-IsContent :
    (command : CommandName) (d : CommandDraft) {c : Content}
    → build_content command d ≡ ok c
    → IsContent command d c
unfolding build_content needs_assignee
build_content-IsContent accept d h = ground arith
build_content-IsContent start d h = ground arith
build_content-IsContent assign d h = ground arith
build_content-IsContent complete d h =
    let (r, e, h') = >>=-eq-ok (build_report d) _ h in ground (arith, build_report-IsReport d e)
build_content-IsContent close d h = ground arith
build_content-IsContent reassign d h = ground (arith, build_reason-IsTextOf (some d.assignee) d h)
build_content-IsContent reassign_for_rework d h =
    ground (arith, build_reason-IsTextOf (some d.assignee) d h)
build_content-IsContent block d h = ground (arith, build_reason-IsTextOf none d h)
build_content-IsContent resume d h = ground (arith, build_reason-IsTextOf none d h)
build_content-IsContent request_rework d h = ground (arith, build_reason-IsTextOf none d h)
build_content-IsContent cancel d h = ground (arith, build_reason-IsTextOf none d h)
build_content-IsContent manager_hold d h = ground (arith, build_reason-IsTextOf none d h)

-- A request that the form sends names the command and the revision that were given, and has exactly
-- the members of the command: the assignee for ASSIGN, REASSIGN and REASSIGN_FOR_REWORK, a reason for
-- these two and for BLOCK, RESUME, REQUEST_REWORK, CANCEL and MANAGER_HOLD, a report for COMPLETE, with
-- a stop reason exactly if the outcome is STOPPED, a verification for CLOSE. Its texts are the
-- trimmed and not blank texts of the draft.
pub build_work_order_command-IsContent :
    (command : CommandName) (revision : ℕ) (d : CommandDraft) {r : CommandRequest}
    → build_work_order_command command revision d ≡ ok r
    → (r.command ≡ command) × (r.expected_revision ≡ revision) × IsContent command d r.content
unfolding build_work_order_command
build_work_order_command-IsContent command revision d h =
    let (u, assigned, h₁) =
      >>=-eq-ok (throw_if (needs_assignee command && is_empty d.assignee) _) _ h in
    let (c, built, h₂) = >>=-eq-ok (build_content command d) _ h₁ in
    ground (arith, build_content-IsContent command d built)
