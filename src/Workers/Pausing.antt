-- ===== src/Workers/Pausing.antt =====
-- A paused worker, and what can end a worker.
use kafka_sqs.Base.{
  ℕ, zero, suc, ◌≡◌, refl, inl, inr, Bool, true, false, Bool-cases, ◌∙◌, if◌then◌else◌,
}
use mathlib.Core.Path.{ap₂}
use kafka_sqs.Base.Int.{ℤ, pos}
use kafka_sqs.Base.Effect.{
  Exc, Outcome, ok, raise, out_of_fuel, Eff, pure, attempt, continue, ◌>>=◌, ◌>>◌,
}
use kafka_sqs.Workers.{StopEvent, wait_stop, process_round, worker_loop}

module _ {W : Type 0} where
  -- Whatever an outcome leaves.
  abbrev Leaves : {A : Type 0} → (W → Type 0) → Outcome W A → Type 0
  Leaves P (ok a w) = P w
  Leaves P (raise e w) = P w
  Leaves P out_of_fuel = Unit

-- A property of the world under which the controls say paused, and which checks of the stop event,
-- waits and readings of the controls keep.
record HoldsPaused {W : Type 0} (stop : StopEvent W) (is_paused : Eff W Bool) (P : W → Type 0)
    : Type 0 where
  checks : (w : W) → P w → P (stop.is_set w).1
  waits : (seconds : ℤ) (w : W) → P w → P (stop.wait seconds w)
  reads : (b : Bool) (w w' : W) → is_paused w ≡ ok b w' → P w → P w' × (b ≡ true)
  fails : (e : Exc) (w w' : W) → is_paused w ≡ raise e w' → P w → P w'

module _ {W R : Type 0} (stop : StopEvent W) (is_paused : Eff W Bool) (is_timeout : Exc → Bool)
    (process_one : Eff W R) where
  paused_round :
      (P : W → Type 0) (again : Eff W (Unit {0}))
      → HoldsPaused stop is_paused P
      → ((v : W) → P v → Leaves P (again v))
      → (o : Outcome W Bool) (w : W) → is_paused w ≡ o
      → P w
      → Leaves P (
          continue o λ paused.
            if paused
            then (wait_stop stop (pos 500000) >> again)
            else process_round stop is_timeout process_one again)
  paused_round P again holds later (ok true v) w h p =
      later (stop.wait (pos 500000) v) (holds.waits (pos 500000) v (holds.reads true w v h p).0)
  paused_round P again holds later (ok false v) w h p =
      let paused : ◌≡◌ {A = Bool} false true = (holds.reads false w v h p).1 in absurd (cc)
  paused_round P again holds later (raise e v) w h p = holds.fails e w v h p
  paused_round P again holds later out_of_fuel w h p = tt

  -- A worker whose controls stay paused processes nothing: it only checks the stop event, waits and
  -- reads the controls, and leaves whatever these three keep.
  worker_loop_paused :
      (P : W → Type 0)
      → HoldsPaused stop is_paused P
      → (fuel : ℕ) (w : W) → P w
      → Leaves P (worker_loop stop is_paused is_timeout process_one fuel w)
  unfolding worker_loop
  worker_loop_paused P holds zero w p = tt
  worker_loop_paused P holds (suc fuel) w p =
      let (stopped, w1) = stop.is_set w in
      let p1 = holds.checks w p in
      elim (Bool-cases stopped) [
        | inl set ↦ rw set p1
        | inr running ↦ rw running (
            paused_round P (worker_loop stop is_paused is_timeout process_one fuel) holds
              (worker_loop_paused P holds fuel) (is_paused w1) w1 refl p1)
      ]

  -- The controls, read last, raised the exception.
  abbrev pub ControlsRaised : Exc → W → Type 0
  ControlsRaised e w' = (before : W) × (is_paused before ≡ raise e w')

  round_raises :
      (again : Eff W (Unit {0})) (e : Exc) (w' : W)
      → ((v : W) → again v ≡ raise e w' → ControlsRaised e w')
      → (o : Outcome W R)
      → attempt o
          (λ x. if is_timeout x then again else (wait_stop stop (pos 1000000) >> again))
          (λ _. again)
        ≡ raise e w'
      → ControlsRaised e w'
  round_raises again e w' later (ok r v) h = later v h
  round_raises again e w' later (raise x v) h = split (is_timeout x) h
    where
      split :
          (b : Bool)
          → (if b then again else (wait_stop stop (pos 1000000) >> again)) v ≡ raise e w'
          → ControlsRaised e w'
      split true g = later v g
      split false g = later (stop.wait (pos 1000000) v) g
  round_raises again e w' later out_of_fuel h = absurd (cc)

  controls_raise :
      (again : Eff W (Unit {0})) (e : Exc) (w' : W)
      → ((v : W) → again v ≡ raise e w' → ControlsRaised e w')
      → (o : Outcome W Bool) (w : W) → is_paused w ≡ o
      → continue o (λ paused.
        if paused
        then (wait_stop stop (pos 500000) >> again)
        else process_round stop is_timeout process_one again)
        ≡ raise e w'
      → ControlsRaised e w'
  controls_raise again e w' later (ok true v) w h g = later (stop.wait (pos 500000) v) g
  controls_raise again e w' later (ok false v) w h g =
      round_raises again e w' later (process_one v) g
  controls_raise again e w' later (raise x v) w h g =
      let same_error : x ≡ e = cc (g) in
      let same_world : v ≡ w' = cc (g) in (w, h ∙ ap₂ raise same_error same_world)
  controls_raise again e w' later out_of_fuel w h g = absurd (cc)

  -- The loop of a worker raises only what reading its pause control raises, as its last call: no
  -- exception of process_one ends it.
  pub worker_loop_raise :
      (fuel : ℕ) (e : Exc) (w w' : W)
      → worker_loop stop is_paused is_timeout process_one fuel w ≡ raise e w'
      → ControlsRaised e w'
  unfolding worker_loop
  worker_loop_raise zero e w w' h = absurd (cc)
  worker_loop_raise (suc fuel) e w w' h =
      let (stopped, w1) = stop.is_set w in split stopped h (λ v. worker_loop_raise fuel e v w')
    where
      split :
          (b : Bool)
          → (if b
                then pure tt
                else is_paused >>= λ paused.
                    if paused
                    then (wait_stop stop (pos 500000)
                        >> worker_loop stop is_paused is_timeout process_one fuel)
                    else process_round stop is_timeout process_one
                        (worker_loop stop is_paused is_timeout process_one fuel))
              (stop.is_set w).1
            ≡ raise e w'
          → ((v : W)
              → worker_loop stop is_paused is_timeout process_one fuel v ≡ raise e w'
              → ControlsRaised e w')
          → ControlsRaised e w'
      split true g later = absurd (cc)
      split false g later =
          controls_raise (worker_loop stop is_paused is_timeout process_one fuel) e w' later
            (is_paused (stop.is_set w).1) (stop.is_set w).1 refl g
