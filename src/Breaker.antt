-- ===== src/Breaker.antt =====
-- packages/host/src/worker-circuit-breaker.ts: the pressure test that admits the capture worker.
pub mod Laws
mod Tests
use proven_loop.Shared.{ℕ, ◌≡◌, Bool, true, false, List, [], ◌∷◌, ◌++◌, leb, if◌then◌else◌}
use proven_loop.Shared.Result.{Result, ok, err, ◌>>=◌}

pub data CaptureWorkerPressureReason : Type 0 where
  cpu disk memory provider_errors queue : CaptureWorkerPressureReason

-- A JavaScript number, a fraction counted in a fixed unit: `below_zero n` is -(n + 1).
pub data Number : Type 0 where
  amount : ℕ → Number
  below_zero : ℕ → Number
  not_finite : Number

pub record CaptureWorkerPressureSnapshot : Type 0 where
  pub consecutive_provider_errors : ℕ
  pub cpu_percent : ℕ
  pub free_disk_bytes : ℕ
  pub memory_bytes : ℕ
  pub queue_depth : ℕ

-- The fields of `CaptureWorkerPressureThresholds`, before and after their validation.
pub record CaptureWorkerPressureThresholds (A : Type 0) : Type 0 where
  pub max_consecutive_provider_errors : A
  pub max_cpu_percent : A
  pub max_memory_bytes : A
  pub max_queue_depth : A
  pub min_free_disk_bytes : A

pub record CaptureWorkerAdmission : Type 0 where
  pub allowed : Bool
  pub reasons : List CaptureWorkerPressureReason

-- The option that `InvalidWorkerPressureThresholdError` names.
pub data ThresholdField : Type 0 where
  max_consecutive_provider_errors max_cpu_percent max_memory_bytes : ThresholdField
  max_queue_depth min_free_disk_bytes : ThresholdField

pub positive_finite : Number → ThresholdField → Result ThresholdField ℕ
positive_finite not_finite field = err field
positive_finite (below_zero n) field = err field
positive_finite (amount n) field = if leb n 0 then err field else ok n

-- The constructor of `CaptureWorkerCircuitBreaker`: it keeps the validated thresholds.
pub construct :
    CaptureWorkerPressureThresholds Number
    → Result ThresholdField (CaptureWorkerPressureThresholds ℕ)
unfolding positive_finite
construct t = do
  errors ← positive_finite t.max_consecutive_provider_errors max_consecutive_provider_errors
  cpu_limit ← positive_finite t.max_cpu_percent max_cpu_percent
  memory_limit ← positive_finite t.max_memory_bytes max_memory_bytes
  depth ← positive_finite t.max_queue_depth max_queue_depth
  free ← positive_finite t.min_free_disk_bytes min_free_disk_bytes
  ok (record {
    max_consecutive_provider_errors = errors;
    max_cpu_percent = cpu_limit;
    max_memory_bytes = memory_limit;
    max_queue_depth = depth;
    min_free_disk_bytes = free;
  })

-- One `if (test) reasons.push(reason)`.
abbrev push_if : Bool → CaptureWorkerPressureReason → List CaptureWorkerPressureReason
push_if test reason = if test then reason ∷ [] else []

abbrev is_empty : List CaptureWorkerPressureReason → Bool
is_empty [] = true
is_empty (_ ∷ _) = false

unfoldable pub pressure_reasons :
    CaptureWorkerPressureThresholds ℕ
    → CaptureWorkerPressureSnapshot
    → List CaptureWorkerPressureReason
pressure_reasons t s =
    push_if (leb t.max_cpu_percent s.cpu_percent) cpu
    ++ (push_if (leb s.free_disk_bytes t.min_free_disk_bytes) disk
        ++ (push_if (leb t.max_memory_bytes s.memory_bytes) memory
            ++ (push_if (leb t.max_consecutive_provider_errors s.consecutive_provider_errors)
                  provider_errors
                ++ push_if (leb t.max_queue_depth s.queue_depth) queue)))

unfoldable pub evaluate :
    CaptureWorkerPressureThresholds ℕ → CaptureWorkerPressureSnapshot → CaptureWorkerAdmission
unfolding pressure_reasons
evaluate t s =
    let reasons = pressure_reasons t s in record { allowed = is_empty reasons; reasons = reasons }
