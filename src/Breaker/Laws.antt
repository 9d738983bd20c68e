-- ===== src/Breaker/Laws.antt =====
-- What the circuit breaker admits, and what its constructor accepts.
use proven_loop.Shared.{ℕ, ◌≤◌, ◌<◌, ◌≡◌, ◌↔◌, Bool, true, false, Eq, contains, arith}
use proven_loop.Shared.Result.{ok}
use proven_loop.Breaker.{
  CaptureWorkerPressureReason, cpu, disk, memory, provider_errors, queue, Number, amount,
  CaptureWorkerPressureSnapshot, CaptureWorkerPressureThresholds, construct, evaluate,
}

abbrev pub same_reason : CaptureWorkerPressureReason → CaptureWorkerPressureReason → Bool
same_reason cpu cpu = true
same_reason disk disk = true
same_reason memory memory = true
same_reason provider_errors provider_errors = true
same_reason queue queue = true
same_reason _ _ = false

-- The measurement that a reason stands for is at its limit.
abbrev pub IsUnder :
    CaptureWorkerPressureThresholds ℕ
    → CaptureWorkerPressureSnapshot
    → CaptureWorkerPressureReason
    → Type 0
IsUnder t s cpu = t.max_cpu_percent ≤ s.cpu_percent
IsUnder t s disk = s.free_disk_bytes ≤ t.min_free_disk_bytes
IsUnder t s memory = t.max_memory_bytes ≤ s.memory_bytes
IsUnder t s provider_errors = t.max_consecutive_provider_errors ≤ s.consecutive_provider_errors
IsUnder t s queue = t.max_queue_depth ≤ s.queue_depth

pub same_reason_iff : (a b : CaptureWorkerPressureReason) → (same_reason a b ≡ true) ↔ (a ≡ b)
same_reason_iff a b = (λ h. ground arith, λ h. ground arith)

instance abbrev pub reason_eq : Eq CaptureWorkerPressureReason
reason_eq = record { is_same = same_reason; is_same_iff = same_reason_iff }

module _ (t : CaptureWorkerPressureThresholds ℕ) (s : CaptureWorkerPressureSnapshot) where
  listed_iff :
      (r : CaptureWorkerPressureReason) → (contains r (evaluate t s).reasons ≡ true) ↔ IsUnder t s r
  unfolding evaluate
  listed_iff r = (λ h. ground arith, λ h. ground arith)

  allowed_iff :
      ((evaluate t s).allowed ≡ true) ↔ ((r : CaptureWorkerPressureReason) → ¬ IsUnder t s r)
  unfolding evaluate
  allowed_iff = (
    (λ h r. ground arith),
    (λ h. ground (arith, h cpu, h disk, h memory, h provider_errors, h queue)),
  )

-- The breaker lists a reason exactly when the measurement of that reason is at its limit, and it
-- allows a run exactly when no measurement is.
pub evaluate-IsUnder :
    (t : CaptureWorkerPressureThresholds ℕ) (s : CaptureWorkerPressureSnapshot)
    → ((r : CaptureWorkerPressureReason)
        → (contains r (evaluate t s).reasons ≡ true) ↔ IsUnder t s r)
      × (((evaluate t s).allowed ≡ true) ↔ ((r : CaptureWorkerPressureReason) → ¬ IsUnder t s r))
evaluate-IsUnder t s = (listed_iff t s, allowed_iff t s)

-- The number that a threshold has to be.
abbrev IsLimit : Number → ℕ → Type 0
IsLimit (amount n) m = (n ≡ m) × (0 < n)
IsLimit _ m = ⊥

-- The constructor succeeds exactly on five positive finite numbers, and keeps them.
construct-eq-ok_iff :
    (t : CaptureWorkerPressureThresholds Number) (u : CaptureWorkerPressureThresholds ℕ)
    → (construct t ≡ ok u) ↔ (
        IsLimit t.max_consecutive_provider_errors u.max_consecutive_provider_errors
        × IsLimit t.max_cpu_percent u.max_cpu_percent
        × IsLimit t.max_memory_bytes u.max_memory_bytes
        × IsLimit t.max_queue_depth u.max_queue_depth
        × IsLimit t.min_free_disk_bytes u.min_free_disk_bytes)
unfolding construct
construct-eq-ok_iff t u = (λ h. ground arith, λ h. ground arith)
