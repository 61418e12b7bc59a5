-- ===== src/Workers/Examples.antt =====
-- A worker that is stopped after a few checks.
use kafka_sqs.Base.{ℕ, suc, ◌-◌, ◌<◌, ◌≡◌, refl, Bool, false, arith, ◌==◌}
use native.Mathlib.Nat.{le_refl}
use kafka_sqs.Base.Effect.{Exc, ok, raise, Eff, runtime_error}
use kafka_sqs.Workers.{StopEvent, is_kafka_timeout, worker_loop}
use kafka_sqs.Workers.Pausing.{ControlsRaised, worker_loop_raise}
use kafka_sqs.Workers.Stopping.{StopsSoon, Stopped, worker_loop_stops}

record Lab : Type 0 where
  checks : ℕ
  paused : Bool
  processed : ℕ

abbrev stop : StopEvent Lab
stop = record {
  is_set = λ w. (w.checks == 0, record w { checks = w.checks - 1 });
  wait = λ seconds w. w;
}

abbrev read_paused : Eff Lab Bool
read_paused w = ok w.paused w

abbrev fails_always : Eff Lab ℕ
fails_always w = raise (runtime_error "no broker") (record w { processed = suc w.processed })

abbrev is_timeout : Exc → Bool
is_timeout = is_kafka_timeout stop

check_counts : (w : Lab) → (stop.is_set w).0 ≡ false → (stop.is_set w).1.checks < w.checks
check_counts w h = ground arith

abbrev lab_StopsSoon : StopsSoon stop read_paused fails_always
lab_StopsSoon = record {
  left = λ w. w.checks;
  checks = check_counts;
  waits = λ seconds w. le_refl w.checks;
  reads = λ w. le_refl w.checks;
  processes = λ w. le_refl w.checks;
}

abbrev busy : Lab
busy = record { checks = 2; paused = false; processed = 0 }

worker_loop_stops_example :
    Stopped stop read_paused is_timeout fails_always lab_StopsSoon
      (worker_loop stop read_paused is_timeout fails_always 3 busy)
worker_loop_stops_example =
    worker_loop_stops stop read_paused is_timeout fails_always lab_StopsSoon 3 busy (omega arith)

-- Controls that cannot be read.
abbrev unreadable : Eff Lab Bool
unreadable w = raise (runtime_error "no database") w

ends_without_controls :
    worker_loop stop unreadable is_timeout fails_always 9 busy
    ≡ raise (runtime_error "no database") (record busy { checks = 1 })
unfolding worker_loop
ends_without_controls = refl

worker_loop_raise_example :
    ControlsRaised stop unreadable is_timeout fails_always
      (runtime_error "no database")
      (record busy { checks = 1 })
worker_loop_raise_example =
    worker_loop_raise stop unreadable is_timeout fails_always 9 (runtime_error "no database") busy
      (record busy { checks = 1 }) ends_without_controls
