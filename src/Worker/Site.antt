-- ===== src/Worker/Site.antt =====
-- packages/cli/src/run-worker.ts, runCaptureWorkerOnce: the worker wired to the durable queue, the
-- circuit breaker and the canonical store. The store is a value of any type with its ingestion; the
-- clocks and measurements of the process are arguments, read one after another.
pub mod Stored
use mathlib.Core.List.{List, [], ◌∷◌}
use text.Mathlib.Text.{◌==◌ as same_text}
use text.Mathlib.TextEquality.{eq_iff}
use mathlib.Core.Bool.{◌&&◌, ◌||◌}
use Prim.Native.Nat.{ℕ, zero, suc, ◌+◌, ◌-◌, ◌*◌, ◌≤◌, ◌<◌}
use mathlib.Core.Logic.{◌≢◌, ◌↔◌, ◌⊎◌, inl, inr, ⊎_elim, ∥∥₁_elim}
use mathlib.Core.Option.{Option, none, some}
use mathlib.Core.Path.{◌≡◌, refl, sym, ap, subst, ◌∙◌}
use native.Mathlib.Omega.{arith}
use proven_loop.Shared.{
  Bool, true, false, not, String, String_eq, Pair_eq, ℕ_eq, List_eq, Option_eq, Eq, ◌==◌, contains,
  without, if◌then◌else◌, length, total, take, keep, any, all, bit, All, List-cases, ltb, leb,
  same_number, if_cases, Bool-cases, Option-cases, same_refl, ◌++◌, map, get_last?, unique,
  same_number_iff, length-append, total-append, append-nil, append_assoc,
}
use proven_loop.Shared.Assoc.{
  lookup, insert, delete, touch, unlink, lookup-insert, lookup-delete, contains-touch,
  contains-unlink, length-insert-le,
}
use proven_loop.Shared.Result.{Result, ok, err}
use proven_loop.Shared.Action.{Action, ◌>>=◌, ◌>>◌, return, modify, gets}
use proven_loop.Queue.Data.{CaptureQueueItem, QueueError, CaptureQueueClaim}
use proven_loop.Queue.State.{WindowsCaptureQueue, QueueAct}
use proven_loop.Queue.Claims
use proven_loop.Queue.Open
use proven_loop.Breaker.{
  CaptureWorkerAdmission, CaptureWorkerPressureSnapshot, CaptureWorkerPressureThresholds, evaluate,
}
use proven_loop.Worker.{
  WorkerError, queue_error, other_error, CanonicalIngestResult, Host, CaptureWorker,
  CaptureWorkerRunResult, run_once,
}

pub record Site (T : Type 0) : Type 0 where
  pub queue : WindowsCaptureQueue
  pub store : T
  pub projection_dirty : Bool  -- the file at paths.projectionDirty
  pub readings : ℕ  -- how often a clock or a measurement was read

-- What the process around the worker gives: the worker's capability in the state of the adapter and
-- the measurements at a reading, the clock, the text of an error, and the store's ingestion.
pub record Process (T : Type 0) : Type 0 where
  pub item_bytes : CaptureQueueItem → ℕ
  pub enabled_at : ℕ → Bool
  pub snapshot_at : ℕ → ℕ → CaptureWorkerPressureSnapshot  -- the second number is the queue's depth
  pub clock : ℕ → ℕ  -- the first reading of an operation
  pub second_clock : ℕ → ℕ  -- its second one
  pub item_clock : ℕ → CaptureQueueItem → ℕ
  pub message : WorkerError → String
  pub ingest : CaptureQueueItem → T → Result String CanonicalIngestResult × T

abbrev pub default_thresholds : CaptureWorkerPressureThresholds ℕ
default_thresholds = record {
  max_consecutive_provider_errors = 3;
  max_cpu_percent = 80;
  max_memory_bytes = 512 * 1024 * 1024;
  max_queue_depth = 10000;
  min_free_disk_bytes = 512 * 1024 * 1024;
}

module _ {T : Type 0} where
  abbrev pub queue_result :
      {A : Type 0}
      → Site T
      → Result QueueError A × WindowsCaptureQueue
      → Result WorkerError A × Site T
  queue_result s (ok a, q) = (ok a, record s { queue = q; readings = suc s.readings })
  queue_result s (err e, q) =
      (err (queue_error e), record s { queue = q; readings = suc s.readings })

  abbrev pub store_result :
      Site T
      → Result String CanonicalIngestResult × T
      → Result WorkerError CanonicalIngestResult × Site T
  store_result s (ok r, t) = (ok r, record s { store = t })
  store_result s (err e, t) = (err (other_error e), record s { store = t })

  -- An operation of the queue; the number counts the readings before it.
  unfoldable pub on_queue : {A : Type 0} → (ℕ → QueueAct A) → Action WorkerError (Site T) A
  on_queue m s = queue_result s (m s.readings s.queue)

  -- A reading of the process that changes nothing else.
  unfoldable pub observe : {A : Type 0} → (Site T → A) → Action WorkerError (Site T) A
  observe f s = (ok (f s), record s { readings = suc s.readings })

  -- `markProjectionDirty`
  unfoldable pub mark_projection_dirty : Action WorkerError (Site T) (Unit {0})
  mark_projection_dirty s = (ok tt, record s { projection_dirty = true })

  unfoldable pub ingest_at :
      Process T → CaptureQueueItem → Action WorkerError (Site T) CanonicalIngestResult
  ingest_at p x s = store_result s (p.ingest x s.store)

  -- The options that runCaptureWorkerOnce gives to the worker. Its lease is got always: the process
  -- holds its own lease around the run.
  unfoldable pub site_host : Process T → Host (Site T)
  unfolding on_queue observe mark_projection_dirty ingest_at
  site_host p = record {
    enabled = observe (λ s. p.enabled_at s.readings);
    admission =
        observe (λ s. evaluate default_thresholds (p.snapshot_at s.readings (Open.depth s.queue)));
    try_acquire = return true;
    release = return tt;
    recover_expired_claims =
        on_queue (λ i. Claims.recover_expired_claims p.item_bytes (p.clock i) (p.item_clock i));
    claim_next = λ owner. on_queue (λ i. Claims.claim_next p.item_bytes owner (p.clock i));
    on_canonical_mutation_pending = mark_projection_dirty;
    ingest_queue_item = ingest_at p;
    acknowledge =
        λ c. on_queue (λ i. Claims.acknowledge p.item_bytes c (p.clock i) (p.second_clock i));
    retry_claim = λ c e.
        on_queue (λ i.
          Claims.retry_claim p.item_bytes c (p.message e) none (p.clock i) (p.second_clock i));
    retry_after_commit = λ c e. on_queue (λ i.
        Claims.retry_after_commit p.item_bytes c (p.message e) (p.clock i) (p.second_clock i));
    dead_letter_claim = λ c reason.
        on_queue
          (λ i. Claims.dead_letter_claim p.item_bytes c reason (p.clock i) (p.second_clock i));
    yield_control = return tt;
  }

  unfoldable pub run_capture_worker_once :
      Process T → CaptureWorker → Action WorkerError (Site T) CaptureWorkerRunResult
  unfolding site_host
  run_capture_worker_once p w = run_once (site_host p) w
