-- ===== src/Cases/Rows.antt =====
-- The rows that the list of Decision Cases shows are in scope, and hidden on access loss
-- (frontend/lib/operations-api/use-decision-cases.ts).
use reinforcement_learning_c.Prelude.{
  String, false, Option, none, some, [], ◌≡◌, All, is_empty, string_eq,
}
use reinforcement_learning_c.Cases.{
  FailureKind, unauthorized, not_found, unavailable, invalid_cursor, network_error, error, CaseRow,
  Query, failed, Reading, CaseList,
}

-- A row that the query asks for.
pub record IsInScope (q : Query) (row : CaseRow) : Type 0 where
  pub factory : row.factory_id ≡ q.factory_id
  pub status : (w : String) → q.status ≡ some w → is_empty w ≡ false → row.status ≡ w
  pub mode : (w : String) → q.mode ≡ some w → is_empty w ≡ false → row.mode ≡ w

abbrev ArePrevious : Query → Option Reading → Type 0
ArePrevious q none = Unit
ArePrevious q (some r) = All (IsInScope q) r.previous

-- The failures of access and consistency.
abbrev pub IsHiding : FailureKind → Type 0
IsHiding unauthorized = Unit
IsHiding not_found = Unit
IsHiding invalid_cursor = Unit
IsHiding error = Unit
IsHiding unavailable = ⊥
IsHiding network_error = ⊥

-- The state shows only rows of its scope, and none after a failure of access or consistency; the
-- request under way is of the current query.
pub record IsFaithful (l : CaseList) : Type 0 where
  pub shown : All (IsInScope l.state.scope) l.state.items
  pub hidden : (k : FailureKind) → l.state.kind ≡ failed k → IsHiding k → l.state.items ≡ []
  pub running : ArePrevious l.query l.reading
