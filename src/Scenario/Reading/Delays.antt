-- ===== src/Scenario/Reading/Delays.antt =====
-- The polling of the scenario read hook (frontend/lib/scenario-planning/hooks.ts).
use reinforcement_learning_c.Prelude.{
  ℕ, ◌≤◌, ◌<◌, ◌*◌, Bool, true, false, none, List, [], ◌∷◌, ◌≡◌, ◌⊎◌, inl, inr, refl, arith, Result,
  ok, err, Bool-cases,
}
use reinforcement_learning_c.Scenario.{ScenarioError}
use reinforcement_learning_c.Scenario.Reading.{
  View, loading, ready, Wait, nothing, answer, timer, Reader, Signal, effect, cleanup, refresh,
  access_invalidated, timer_fired, answered, next_delay, load, verified, show, on_answer, on_timer,
  read_step, read_run,
}

-- A delay between two seconds and fifteen.
abbrev pub IsDelay : ℕ → Type 0
IsDelay n = (2000 ≤ n) × (n ≤ 15000)

-- The delay after another: twice as long, or the longest if that is too long.
abbrev pub IsDoubled : ℕ → ℕ → Type 0
IsDoubled n next = (next ≡ n * 2) × (n * 2 ≤ 15000) ⊎ ((next ≡ 15000) × (15000 < n * 2))

abbrev IsIdle : Wait → Type 0
IsIdle nothing = Unit
IsIdle (answer delay) = Unit
IsIdle (timer delay next) = ⊥

-- A fresh read has the shortest delay, where the hook is enabled.
abbrev pub IsFresh : Bool → Wait → Type 0
IsFresh true w = w ≡ answer 2000
IsFresh false w = w ≡ nothing

-- What the answer of a read leaves: a timer of the read's delay, or nothing.
abbrev pub IsAnswered : Wait → Wait → Type 0
IsAnswered (answer delay) w =
    w ≡ nothing ⊎ ((next : ℕ) × (w ≡ timer delay next) × IsDoubled delay next)
IsAnswered old w = w ≡ old

-- What a timer leaves: a read of the delay that follows the timer's.
abbrev pub IsFired : Bool → Wait → Wait → Type 0
IsFired true (timer delay next) w = (n : ℕ) × (w ≡ answer n) × IsDoubled delay n
IsFired false (timer delay next) w = w ≡ nothing
IsFired enabled old w = w ≡ old

module _ {T : Type 0} (polling : T → Bool) where
  -- How a signal changes what the hook waits for.
  abbrev pub IsNext : Signal T → Reader T → Wait → Type 0
  IsNext (effect key actor enabled) r w = IsFresh enabled w
  IsNext cleanup r w = w ≡ nothing
  IsNext refresh r w = IsFresh r.enabled w
  IsNext access_invalidated r w = IsFresh r.enabled w
  IsNext timer_fired r w = IsFired r.enabled r.wait w
  IsNext (answered fetched identity) r w = IsAnswered r.wait w

  -- A read is under way with a legal delay while the page loads; a timer runs only for data that is
  -- to be polled, which is shown, and the delay after it is twice as long or the longest.
  abbrev pub IsPaced : View T → Wait → Type 0
  IsPaced v nothing = Unit
  IsPaced v (answer delay) = IsDelay delay
  IsPaced v (timer delay next) =
      IsDelay delay
      × IsDelay next
      × IsDoubled delay next
      × ((d : T) × (v ≡ ready d) × (polling d ≡ true))

  load-IsPaced :
      (delay : ℕ) (r : Reader T)
      → IsDelay delay
      → IsPaced (load polling delay r).view (load polling delay r).wait
  unfolding load
  load-IsPaced delay r h = ground arith

  next_delay-IsDelay : (n : ℕ) → IsDelay n → IsDelay (next_delay n) × IsDoubled n (next_delay n)
  unfolding next_delay
  next_delay-IsDelay n h = ground arith

  show-IsPaced :
      (delay : ℕ) (o : Result ScenarioError T) (r : Reader T)
      → IsDelay delay
      → IsPaced (show polling delay o r).view (show polling delay o r).wait
  unfolding show
  show-IsPaced delay (err e) r h = tt
  show-IsPaced delay (ok d) r h =
      let (legal, doubled) = next_delay-IsDelay delay h in
      elim (Bool-cases (polling d)) [
        | inl more ↦ rw more (h, legal, doubled, (d, refl, more))
        | inr over ↦ rw over tt
      ]

  on_answer-IsPaced :
      (w : Wait) (o : Result ScenarioError T) (r : Reader T)
      → r.wait ≡ w
      → IsPaced r.view w
      → IsPaced (on_answer polling w o r).view (on_answer polling w o r).wait
  unfolding on_answer
  on_answer-IsPaced nothing o r e h = rw e tt
  on_answer-IsPaced (answer delay) o r e h = show-IsPaced delay o r h
  on_answer-IsPaced (timer delay next) o r e h = rw e h

  on_timer-IsPaced :
      (w : Wait) (r : Reader T)
      → r.wait ≡ w
      → IsPaced r.view w
      → IsPaced (on_timer polling w r).view (on_timer polling w r).wait
  unfolding on_timer
  on_timer-IsPaced nothing r e h = rw e tt
  on_timer-IsPaced (answer delay) r e h = rw e h
  on_timer-IsPaced (timer delay next) r e h = load-IsPaced next r h.1

  read_step-IsPaced :
      (s : Signal T) (r : Reader T)
      → IsPaced r.view r.wait
      → IsPaced (read_step polling s r).view (read_step polling s r).wait
  unfolding read_step
  read_step-IsPaced (effect key actor enabled) r h =
      load-IsPaced 2000 (record r { key = key; actor = actor; enabled = enabled })
        (omega arith, omega arith)
  read_step-IsPaced cleanup r h = tt
  read_step-IsPaced refresh r h = load-IsPaced 2000 r (omega arith, omega arith)
  read_step-IsPaced access_invalidated r h =
      load-IsPaced 2000 (record r { state_key = r.key; view = loading none })
        (omega arith, omega arith)
  read_step-IsPaced timer_fired r h = on_timer-IsPaced r.wait r refl h
  read_step-IsPaced (answered fetched identity) r h =
      on_answer-IsPaced r.wait (verified polling r.actor fetched identity) r refl h

  IsPaced-run :
      (ss : List (Signal T)) (r : Reader T)
      → IsPaced r.view r.wait
      → IsPaced (read_run polling ss r).view (read_run polling ss r).wait
  unfolding read_run
  IsPaced-run [] r h = h
  IsPaced-run (s ∷ ss) r h = IsPaced-run ss (read_step polling s r) (read_step-IsPaced s r h)

  load-IsFresh : (r : Reader T) → IsFresh r.enabled (load polling 2000 r).wait
  unfolding load
  load-IsFresh r = elim (Bool-cases r.enabled) [ inl on ↦ rw on refl | inr off ↦ rw off refl ]

  show-IsAnswered :
      (delay : ℕ) (o : Result ScenarioError T) (r : Reader T)
      → IsDelay delay
      → IsAnswered (answer delay) (show polling delay o r).wait
  unfolding show
  show-IsAnswered delay (err e) r h = inl refl
  show-IsAnswered delay (ok d) r h = elim (Bool-cases (polling d)) [
    | inl more ↦ rw more (inr (next_delay delay, refl, (next_delay-IsDelay delay h).1))
    | inr over ↦ rw over (inl refl)
  ]

  on_answer-IsAnswered :
      (w : Wait) (o : Result ScenarioError T) (r : Reader T)
      → r.wait ≡ w
      → IsPaced r.view w
      → IsAnswered w (on_answer polling w o r).wait
  unfolding on_answer
  on_answer-IsAnswered nothing o r e h = e
  on_answer-IsAnswered (answer delay) o r e h = show-IsAnswered delay o r h
  on_answer-IsAnswered (timer delay next) o r e h = e

  load-IsFired :
      (delay next : ℕ) (r : Reader T)
      → IsDoubled delay next
      → IsFired r.enabled (timer delay next) (load polling next r).wait
  unfolding load
  load-IsFired delay next r h = elim (Bool-cases r.enabled) [
    | inl on ↦ rw on (next, refl, h)
    | inr off ↦ rw off refl
  ]

  unfired : (on : Bool) (w w' : Wait) → w' ≡ w → IsIdle w → IsFired on w w'
  unfired true nothing w' e i = e
  unfired false nothing w' e i = e
  unfired true (answer delay) w' e i = e
  unfired false (answer delay) w' e i = e
  unfired on (timer delay next) w' e i = absurd i

  on_timer-IsFired :
      (w : Wait) (r : Reader T)
      → r.wait ≡ w
      → IsPaced r.view w
      → IsFired r.enabled w (on_timer polling w r).wait
  unfolding on_timer
  on_timer-IsFired nothing r e h = unfired r.enabled nothing r.wait e tt
  on_timer-IsFired (answer delay) r e h = unfired r.enabled (answer delay) r.wait e tt
  on_timer-IsFired (timer delay next) r e h = load-IsFired delay next r h.2

  read_step-IsNext :
      (s : Signal T) (r : Reader T)
      → IsPaced r.view r.wait
      → IsNext s r (read_step polling s r).wait
  unfolding read_step
  read_step-IsNext (effect key actor enabled) r h =
      load-IsFresh (record r { key = key; actor = actor; enabled = enabled })
  read_step-IsNext cleanup r h = refl
  read_step-IsNext refresh r h = load-IsFresh r
  read_step-IsNext access_invalidated r h =
      load-IsFresh (record r { state_key = r.key; view = loading none })
  read_step-IsNext timer_fired r h = on_timer-IsFired r.wait r refl h
  read_step-IsNext (answered fetched identity) r h =
      on_answer-IsAnswered r.wait (verified polling r.actor fetched identity) r refl h

  -- Over any run of a reader that waits for nothing at first, every read and every timer has a
  -- delay of two to fifteen seconds, and a timer runs only while the hook shows data that is to be
  -- polled: never after an error. The next signal then does as follows: the effect, a refresh and
  -- lost access start a read with two seconds, if the hook is enabled; an answer starts a timer with
  -- the delay of its read, or nothing; a timer that fires starts a read, if the hook is enabled, with
  -- twice the timer's delay or fifteen seconds, whichever is less; and other signals change nothing.
  pub read_run-IsPaced :
      (ss : List (Signal T)) (s : Signal T) (r : Reader T)
      → r.wait ≡ nothing
      → IsPaced (read_run polling ss r).view (read_run polling ss r).wait
        × IsNext s (read_run polling ss r) (read_step polling s (read_run polling ss r)).wait
  read_run-IsPaced ss s r idle =
      let paced = IsPaced-run ss r (rw idle tt) in
      (paced, read_step-IsNext s (read_run polling ss r) paced)
