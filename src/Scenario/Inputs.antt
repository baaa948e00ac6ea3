-- ===== src/Scenario/Inputs.antt =====
-- What the overrides of an accepted draft satisfy (frontend/lib/scenario-planning/inputs.ts).
use mathlib.Core.List.{Memᴰ}
use reinforcement_learning_c.Prelude.{
  ◌≤◌, ◌<◌, String, Bool, true, false, not, List, [], ◌∷◌, ◌≡◌, ◌≢◌, arith, Result, ok, any, trim,
  throw_if, ◌==◌, string_eq, eq_iff, >>=-eq-ok, throw_if-eq-ok, All, any-mem, subst, sym,
}
use reinforcement_learning_c.Scenario.{
  ScenarioError, bad_input, Override, technician_unavailable, defer_maintenance,
  maintenance_duration, MaintenanceRequest, Baseline, Draft, same_override, is_open_request,
  has_target, is_bad_window, validate_overrides, validate_draft,
}

-- An open request of the baseline.
abbrev pub IsOpen : Baseline → String → Type 0
IsOpen b id =
    (r : MaintenanceRequest) × Memᴰ r b.maintenance_requests
    × (r.maintenance_request_id ≡ id)
    × (r.status ≢ "COMPLETED")
    × (r.status ≢ "CANCELLED")

-- An override that makes sense: its target exists and is open, and its window is in the plan's.
abbrev pub IsSensible : Baseline → Override → Type 0
IsSensible b (technician_unavailable t s e) =
    Memᴰ t b.technicians × (b.start_at ≤ s) × (s < e) × (e ≤ b.end_at)
IsSensible b (defer_maintenance r s) = IsOpen b r × (b.start_at ≤ s) × (s < b.end_at)
IsSensible b (maintenance_duration r m) = IsOpen b r

any-IsOpen :
    (b : Baseline) (id : String)
    → any (is_open_request id) b.maintenance_requests ≡ true
    → IsOpen b id
any-IsOpen b id h =
    let (r, m, fits) = any-mem (is_open_request id) b.maintenance_requests h in
    (
      r,
      m,
      ground (arith, eq_iff r.maintenance_request_id id),
      ground (arith, eq_iff r.status "COMPLETED"),
      ground (arith, eq_iff r.status "CANCELLED"),
    )

is_sensible :
    (b : Baseline) (o : Override)
    → has_target b o ≡ true
    → is_bad_window b o ≡ false
    → IsSensible b o
unfolding has_target is_bad_window
is_sensible b (technician_unavailable t s e) there window =
    let (id, m, same) = any-mem (λ id. id == t) b.technicians there in
    let e' : id ≡ t = (eq_iff id t).0 same in
    (subst (λ x. Memᴰ x b.technicians) e' m, ground arith, ground arith, ground arith)
is_sensible b (defer_maintenance r s) there window =
    (any-IsOpen b r there, ground arith, ground arith)
is_sensible b (maintenance_duration r m) there window = any-IsOpen b r there

-- Two overrides of one type with one target.
abbrev pub HaveOneTarget : Override → Override → Type 0
HaveOneTarget (technician_unavailable a s e) (technician_unavailable b s' e') = a ≡ b
HaveOneTarget (defer_maintenance a s) (defer_maintenance b s') = a ≡ b
HaveOneTarget (maintenance_duration a m) (maintenance_duration b m') = a ≡ b
HaveOneTarget _ _ = ⊥

other_target : (o p : Override) → same_override o p ≡ false → HaveOneTarget o p → ⊥
unfolding same_override
other_target (technician_unavailable a s e) (technician_unavailable b s' e') h same =
    absurd (ground (arith, eq_iff a b))
other_target (defer_maintenance a s) (defer_maintenance b s') h same =
    absurd (ground (arith, eq_iff a b))
other_target (maintenance_duration a m) (maintenance_duration b m') h same =
    absurd (ground (arith, eq_iff a b))
other_target (technician_unavailable a s e) (defer_maintenance b s') h same = same
other_target (technician_unavailable a s e) (maintenance_duration b m) h same = same
other_target (defer_maintenance a s) (technician_unavailable b s' e) h same = same
other_target (defer_maintenance a s) (maintenance_duration b m) h same = same
other_target (maintenance_duration a m) (technician_unavailable b s e) h same = same
other_target (maintenance_duration a m) (defer_maintenance b s) h same = same

other_targets :
    (o : Override) (seen : List Override)
    → any (λ p. same_override p o) seen ≡ false
    → All (λ p. HaveOneTarget p o → ⊥) seen
other_targets o [] h = tt
other_targets o (p ∷ ps) h = (other_target p o (ground arith), other_targets o ps (ground arith))

-- No override has the type and the target of one before it.
abbrev pub AreDifferent : List Override → List Override → Type 0
AreDifferent seen [] = Unit
AreDifferent seen (o ∷ os) = All (λ p. HaveOneTarget p o → ⊥) seen × AreDifferent (o ∷ seen) os

validate_overrides_sound :
    (b : Baseline) (seen os : List Override) {u : Unit {0}}
    → validate_overrides b seen os ≡ ok u
    → All (IsSensible b) os × AreDifferent seen os
unfolding validate_overrides
validate_overrides_sound b seen [] h = (tt, tt)
validate_overrides_sound b seen (o ∷ os) h =
    let (u, fresh, h₁) = >>=-eq-ok (throw_if (any (λ p. same_override p o) seen) _) _ h in
    let (v, there, h₂) = >>=-eq-ok (throw_if (not (has_target b o)) _) _ h₁ in
    let (w, window, h₃) = >>=-eq-ok (throw_if (is_bad_window b o) _) _ h₂ in
    let (rest, others) = validate_overrides_sound b (o ∷ seen) os h₃ in
    let found : has_target b o ≡ true =
      ground (arith, throw_if-eq-ok (not (has_target b o)) (bad_input "INVALID_TARGET") there) in
    let quiet = throw_if-eq-ok (is_bad_window b o) (bad_input "INVALID_WINDOW") window in
    let new =
      throw_if-eq-ok (any (λ p. same_override p o) seen) (bad_input "DUPLICATE_OVERRIDE") fresh in
    ((is_sensible b o found quiet, rest), (other_targets o seen new, others))

-- A draft that the form accepts is the input with its name and note trimmed, which the schema
-- admits and whose weights were accepted; each override has an existing, open target and a window
-- within the planning window, and none has the type and target of one before it.
pub validate_draft_sound :
    (fits_schema : Draft → Bool) (weights : Result ScenarioError (Unit {0})) (input : Draft)
    (b : Baseline) (d : Draft)
    → validate_draft fits_schema weights input b ≡ ok d
    → (d ≡ record input { name = trim input.name; note = trim input.note })
      × (fits_schema d ≡ true)
      × (weights ≡ ok tt)
      × All (IsSensible b) d.overrides
      × AreDifferent [] d.overrides
unfolding validate_draft
validate_draft_sound fits_schema weights input b d h =
    let draft = record input { name = trim input.name; note = trim input.note } in
    let (u, fits, h₁) = >>=-eq-ok (throw_if (not (fits_schema draft)) _) _ h in
    let (v, weighed, h₂) = >>=-eq-ok weights _ h₁ in
    let (w, checked, h₃) = >>=-eq-ok (validate_overrides b [] input.overrides) _ h₂ in
    let (sensible, different) = validate_overrides_sound b [] input.overrides checked in
    let e : draft ≡ d = cc in
    let admitted : fits_schema draft ≡ true =
      ground (arith, throw_if-eq-ok (not (fits_schema draft)) (bad_input "INVALID_INPUT") fits) in
    (
      sym e,
      subst (λ x. fits_schema x ≡ true) e admitted,
      weighed,
      subst (λ x. All (IsSensible b) x.overrides) e sensible,
      subst (λ x. AreDifferent [] x.overrides) e different,
    )
