-- ===== src/Coordinator/Operations/Retry/Bounds.antt =====
-- How often an action runs, and what waking the machine may do.
use hacs_xbloom.Prelude.{
  Bool, ℕ, ◌≤◌, ◌+◌, suc, arith, ◌||◌, zero, ◌≡◌, false, true, ap, refl, if◌then◌else◌, ◌∙◌,
  Bool-cases, ◌<◌, inl, inr,
}
use hacs_xbloom.Coordinator.{Coordinator, is_none}
use hacs_xbloom.Coordinator.Operations.Retry.{
  Sleep, runs, retry_while_sleeping, wake_machine, after_run,
}
use hacs_xbloom.Brewing.Link.{Line, Chain, Sent, Outcome, done, failed, ack_timeout}

module _ {ℓ} {A : Type ℓ} where
  -- What so many runs of an action leave in the log.
  unfoldable pub ran : ℕ → Chain A → Sent → Sent
  ran zero action s = s
  ran (suc n) action s = ran n action (action s).1

  -- Whether a run is followed by another: the machine sleeps after it, or it got no echo from a
  -- machine that slept at the start.
  abbrev pub wants_again : Outcome A → Bool → Bool → Bool
  wants_again (done a) asleep sleeping = sleeping
  wants_again (failed ack_timeout) asleep sleeping = asleep || sleeping
  wants_again (failed f) asleep sleeping = false

  -- From the k-th run on, with `n` further runs allowed, there are `d`: the log and the outcome are
  -- those of the last run, each before it is followed by another, and if the last is to be followed by
  -- another, none is left.
  abbrev pub RunsOn : Sleep → Chain A → ℕ → ℕ → Sent → Outcome A × Sent → ℕ → Type ℓ
  RunsOn sleep action n k s r d =
      (r ≡ action (ran d action s))
      × ((i : ℕ)
          → i < d
          → wants_again (action (ran i action s)).0 sleep.asleep (sleep.sleeping (k + i)) ≡ true)
      × (wants_again r.0 sleep.asleep (sleep.sleeping (k + d)) ≡ true → d ≡ n)

  after_run-again :
      (r : Outcome A × Sent) (asleep sleeping : Bool) (again : Chain A)
      → after_run r sleeping (asleep || sleeping) again
        ≡ (if wants_again r.0 asleep sleeping then again r.1 else r)
  after_run-again (done a, s) asleep sleeping again = refl
  after_run-again (failed f, s) asleep sleeping again = ground arith

  first_run :
      (sleep : Sleep) (action : Chain A) (n k : ℕ) (s : Sent)
      → (wants_again (action s).0 sleep.asleep (sleep.sleeping k) ≡ true → 0 ≡ n)
      → RunsOn sleep action n k s (action s) 0
  unfolding ran
  first_run sleep action n k s last =
      let start : k + 0 ≡ k = omega arith in
      rw start (refl, λ i below. absurd (omega (arith, below)), last)

  earlier_runs :
      (sleep : Sleep) (action : Chain A) (k d : ℕ) (s : Sent)
      → wants_again (action s).0 sleep.asleep (sleep.sleeping k) ≡ true
      → ((i : ℕ)
          → i < d
          → wants_again
              (action (ran i action (action s).1)).0
              sleep.asleep
              (sleep.sleeping (suc k + i))
            ≡ true)
      → (i : ℕ) → i < suc d
      → wants_again (action (ran i action s)).0 sleep.asleep (sleep.sleeping (k + i)) ≡ true
  unfolding ran
  earlier_runs sleep action k d s here later zero below =
      let start : k + 0 ≡ k = omega arith in rw start here
  earlier_runs sleep action k d s here later (suc i) below =
      let shift : k + suc i ≡ suc k + i = omega arith in rw shift (later i (omega (arith, below)))

  further_run :
      (sleep : Sleep) (action : Chain A) (n k d : ℕ) (s : Sent) (r : Outcome A × Sent)
      → wants_again (action s).0 sleep.asleep (sleep.sleeping k) ≡ true
      → RunsOn sleep action n (suc k) (action s).1 r d
      → RunsOn sleep action (suc n) k s r (suc d)
  unfolding ran
  further_run sleep action n k d s r here (same, before, last) =
      let shift : k + suc d ≡ suc k + d = omega arith in
      rw shift (same, earlier_runs sleep action k d s here before, λ e. ap suc (last e))

  runs-RunsOn :
      (sleep : Sleep) (action : Chain A) (n k : ℕ) (s : Sent)
      → (d : ℕ) × (d ≤ n) × RunsOn sleep action n k s (runs sleep action n k s) d
  unfolding runs
  runs-RunsOn sleep action zero k s = (0, omega arith, first_run sleep action zero k s (λ e. refl))
  runs-RunsOn sleep action (suc n) k s =
      let (d, below, rest) = runs-RunsOn sleep action n (suc k) (action s).1 in
      rw (after_run-again (action s) sleep.asleep (sleep.sleeping k) (runs sleep action n (suc k)))
        (elim (Bool-cases (wants_again (action s).0 sleep.asleep (sleep.sleeping k))) [
          | inl again ↦
              rw again (suc d, omega (arith, below), further_run sleep action n k d s _ again rest)
          | inr ends ↦
              rw ends
                (0, omega arith, first_run sleep action (suc n) k s (λ e. absurd (ground arith)))
        ])

pub retry-RunsOn {ℓ} :
    {A : Type ℓ} (line : Line) (sleep : Sleep) (action : Chain A) (c : Coordinator) (s : Sent)
    → let woken = (if sleep.asleep then wake_machine line sleep c s else (c, s)) in
      let (_, outcome, log) = retry_while_sleeping line sleep action c s in
      (d : ℕ) × (d ≤ 2) × RunsOn sleep action 2 1 woken.1 (outcome, log) d
unfolding retry_while_sleeping
retry-RunsOn line sleep action c s =
    runs-RunsOn sleep action 2 1 (if sleep.asleep then wake_machine line sleep c s else (c, s)).1

awake-after_run {ℓ} :
    {A : Type ℓ} (r : Outcome A × Sent) (again : Chain A) → after_run r false false again ≡ r
awake-after_run (done a, s) again = refl
awake-after_run (failed f, s) again = ground arith

-- With the machine awake throughout, the action runs once and its outcome is the answer, failures
-- included.
pub retry-awake {ℓ} :
    {A : Type ℓ} (line : Line) (sleep : Sleep) (action : Chain A) (c : Coordinator) (s : Sent)
    → sleep.asleep ≡ false
    → sleep.sleeping 1 ≡ false
    → retry_while_sleeping line sleep action c s ≡ (c, (action s).0, (action s).1)
unfolding retry_while_sleeping runs
retry-awake line sleep action c s awake still =
    rw (awake, still) (ap (λ r. (c, r.0, r.1)) (awake-after_run (action s) _))

timeout-after_run {ℓ} :
    {A : Type ℓ} (r : Outcome A × Sent) (sleeping : Bool) (again : Chain A)
    → r.0 ≡ failed ack_timeout
    → after_run r sleeping true again ≡ again r.1
timeout-after_run (done a, s) sleeping again e = absurd (ground arith)
timeout-after_run (failed f, s) sleeping again e = ground arith

-- A timeout while the machine sleeps is tried again: if it then wakes, the outcome of the second run
-- is the answer.
pub retry-timeout {ℓ} :
    {A : Type ℓ} (line : Line) (sleep : Sleep) (action : Chain A) (c : Coordinator) (s : Sent)
    → sleep.asleep ≡ false
    → (action s).0 ≡ failed ack_timeout
    → sleep.sleeping 1 ≡ true
    → sleep.sleeping 2 ≡ false
    → retry_while_sleeping line sleep action c s
      ≡ (c, (action (action s).1).0, (action (action s).1).1)
unfolding retry_while_sleeping runs
retry-timeout line sleep action c s awake timeout asleep woken =
    simp (awake, asleep, woken)
      (ap (λ r. (c, r.0, r.1))
        (timeout-after_run (action s) true _ timeout ∙ awake-after_run (action (action s).1) _))

-- Waking the machine never takes an armed coordinator's link down.
pub wake-armed :
    (line : Line) (sleep : Sleep) (c : Coordinator) (s : Sent)
    → is_none c.armed_operation ≡ false
    → (wake_machine line sleep c s).0 ≡ c
unfolding wake_machine
wake-armed line sleep c s armed = ground arith
