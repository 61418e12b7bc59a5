-- ===== src/Workers/Stopping.antt =====
-- A worker ends after its stop event is set.
use kafka_sqs.Base.{
  ℕ, zero, suc, ◌≤◌, ◌<◌, ◌≡◌, refl, inl, inr, Bool, true, false, Bool-cases, arith, if◌then◌else◌,
}
use kafka_sqs.Base.Int.{ℤ, pos}
use kafka_sqs.Base.Effect.{Exc, Outcome, ok, raise, out_of_fuel, Eff, attempt, continue, ◌>>◌}
use kafka_sqs.Workers.{StopEvent, wait_stop, process_round, worker_loop}

-- The call returns or raises, and `left` has not grown over `n`.
abbrev pub AtMost : {W A : Type 0} → (W → ℕ) → ℕ → Outcome W A → Type 0
AtMost left n (ok a w) = left w ≤ n
AtMost left n (raise e w) = left w ≤ n
AtMost left n out_of_fuel = ⊥

-- The call returns, and `left` has not grown over `n`.
abbrev pub ReturnsAtMost : {W A : Type 0} → (W → ℕ) → ℕ → Outcome W A → Type 0
ReturnsAtMost left n (ok a w) = left w ≤ n
ReturnsAtMost left n other = ⊥

-- The event is found unset at `left` more checks at most. The controls can be read, and process_one
-- returns or raises.
pub record StopsSoon {W R : Type 0} (stop : StopEvent W) (is_paused : Eff W Bool)
    (process_one : Eff W R) : Type 0 where
  pub left : W → ℕ
  pub checks : (w : W) → (stop.is_set w).0 ≡ false → left (stop.is_set w).1 < left w
  pub waits : (seconds : ℤ) (w : W) → left (stop.wait seconds w) ≤ left w
  pub reads : (w : W) → ReturnsAtMost left (left w) (is_paused w)
  pub processes : (w : W) → AtMost left (left w) (process_one w)

module _ {W R : Type 0} (stop : StopEvent W) (is_paused : Eff W Bool) (is_timeout : Exc → Bool)
    (process_one : Eff W R) (soon : StopsSoon stop is_paused process_one) where
  -- The loop returned, after a check that found the event set.
  abbrev pub Stopped : Outcome W (Unit {0}) → Type 0
  Stopped o = (last : W) × (w' : W) × (o ≡ ok tt w') × (stop.is_set last ≡ (true, w'))

  round_Stopped :
      (again : Eff W (Unit {0})) (n : ℕ) (o : Outcome W R)
      → ((v : W) → soon.left v ≤ n → Stopped (again v))
      → AtMost soon.left n o
      → Stopped (
          attempt o
            (λ e. if is_timeout e then again else (wait_stop stop (pos 1000000) >> again))
            (λ _. again))
  round_Stopped again n (ok r v) later h = later v h
  round_Stopped again n (raise e v) later h = split (is_timeout e)
    where
      split :
          (b : Bool) → Stopped ((if b then again else (wait_stop stop (pos 1000000) >> again)) v)
      split true = later v h
      split false = later (stop.wait (pos 1000000) v) (omega (arith, soon.waits (pos 1000000) v))
  round_Stopped again n out_of_fuel later h = elim h [ ]

  controls_Stopped :
      (again : Eff W (Unit {0})) (n : ℕ) (o : Outcome W Bool)
      → ((v : W) → soon.left v ≤ n → Stopped (again v))
      → ReturnsAtMost soon.left n o
      → Stopped (
          continue o λ paused.
            if paused
            then (wait_stop stop (pos 500000) >> again)
            else process_round stop is_timeout process_one again)
  controls_Stopped again n (ok true v) later h =
      later (stop.wait (pos 500000) v) (omega (arith, soon.waits (pos 500000) v))
  controls_Stopped again n (ok false v) later h =
      round_Stopped again (soon.left v) (process_one v) (λ v' h'. later v' (omega arith))
        (soon.processes v)
  controls_Stopped again n (raise e v) later h = elim h [ ]
  controls_Stopped again n out_of_fuel later h = elim h [ ]

  -- If the stop event is found unset a bounded number of times, which waiting, reading the controls
  -- and process_one do not raise, every reading of the pause controls returns, and process_one always
  -- returns or raises, then the loop of a worker returns, with fuel for one more round than that
  -- bound, and the check before its return found the event set.
  pub worker_loop_stops :
      (fuel : ℕ) (w : W)
      → soon.left w < fuel
      → Stopped (worker_loop stop is_paused is_timeout process_one fuel w)
  unfolding worker_loop
  worker_loop_stops zero w enough = absurd (omega arith)
  worker_loop_stops (suc fuel) w enough =
      let (stopped, w1) = stop.is_set w in
      elim (Bool-cases stopped) [
        | inl set ↦ rw set (w, w1, refl, λ i. (set i, w1))
        | inr running ↦ rw running (
            controls_Stopped (worker_loop stop is_paused is_timeout process_one fuel) (soon.left w1)
              (is_paused w1)
              (λ v h. worker_loop_stops fuel v (omega (arith, soon.checks w running)))
              (soon.reads w1))
      ]
