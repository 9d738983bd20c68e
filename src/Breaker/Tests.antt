-- ===== src/Breaker/Tests.antt =====
-- The circuit breaker on one snapshot: a full queue, and nothing else at its limit.
use proven_loop.Shared.{ℕ, ◌≡◌, ◌↔◌, refl, true, [], ◌∷◌, contains}
use proven_loop.Breaker.{
  CaptureWorkerPressureReason, queue, Number, amount, CaptureWorkerPressureSnapshot,
  CaptureWorkerPressureThresholds, evaluate,
}
use proven_loop.Breaker.Laws.{IsUnder, reason_eq, evaluate-IsUnder}

abbrev limits : CaptureWorkerPressureThresholds ℕ
limits = record {
  max_consecutive_provider_errors = 3;
  max_cpu_percent = 90;
  max_memory_bytes = 1000;
  max_queue_depth = 50;
  min_free_disk_bytes = 10;
}

abbrev raw_limits : CaptureWorkerPressureThresholds Number
raw_limits = record {
  max_consecutive_provider_errors = amount 3;
  max_cpu_percent = amount 90;
  max_memory_bytes = amount 1000;
  max_queue_depth = amount 50;
  min_free_disk_bytes = amount 10;
}

abbrev backlog : CaptureWorkerPressureSnapshot
backlog = record {
  consecutive_provider_errors = 0;
  cpu_percent = 20;
  free_disk_bytes = 500;
  memory_bytes = 100;
  queue_depth = 50;
}

backlog_reasons : (evaluate limits backlog).reasons ≡ queue ∷ []
unfolding evaluate
backlog_reasons = refl

evaluate-IsUnder_example :
    ((r : CaptureWorkerPressureReason)
      → (contains r (evaluate limits backlog).reasons ≡ true) ↔ IsUnder limits backlog r)
    × (((evaluate limits backlog).allowed ≡ true)
        ↔ ((r : CaptureWorkerPressureReason) → ¬ IsUnder limits backlog r))
evaluate-IsUnder_example = evaluate-IsUnder limits backlog
