-- ===== src/Worker.antt =====
-- packages/host/src/capture-worker.ts: the worker that moves items from the queue to the store. What
-- it calls is the record `Host` of operations on a state of their own, each of which may throw.
pub mod Balance
pub mod Lease
pub mod Safe
pub mod Site
mod Tests
use mathlib.Core.List.{List, [], ◌∷◌}
use text.Mathlib.Text.{◌==◌ as same_text}
use text.Mathlib.TextEquality.{eq_iff}
use mathlib.Core.Bool.{◌&&◌, ◌||◌}
use Prim.Native.Nat.{ℕ, zero, suc, ◌+◌, ◌-◌, ◌*◌, ◌≤◌, ◌<◌}
use mathlib.Core.Logic.{◌≢◌, ◌↔◌, ◌⊎◌, inl, inr, ⊎_elim, ∥∥₁_elim}
use mathlib.Core.Option.{Option, none, some}
use mathlib.Core.Path.{◌≡◌, refl, sym, ap, subst, ◌∙◌}
use native.Mathlib.Omega.{arith}
use proven_loop.Shared.{
  Bool, true, false, not, String, String_eq, Pair_eq, ℕ_eq, List_eq, Option_eq, Eq, ◌==◌, contains,
  without, if◌then◌else◌, length, total, take, keep, any, all, bit, All, List-cases, ltb, leb,
  same_number, if_cases, Bool-cases, Option-cases, same_refl, ◌++◌, map, get_last?, unique,
  same_number_iff, length-append, total-append, append-nil, append_assoc,
}
use proven_loop.Shared.Assoc.{
  lookup, insert, delete, touch, unlink, lookup-insert, lookup-delete, contains-touch,
  contains-unlink, length-insert-le,
}
use proven_loop.Shared.Result.{Result, ok, err}
use proven_loop.Shared.Action.{Action, ◌>>=◌, ◌>>◌, return, throw, continue}
use proven_loop.Queue.Data.{
  CaptureQueueState, pending, claimed, acknowledged, retry, dead_letter, CaptureQueueItem,
  QueueError, CaptureQueueClaim,
}
use proven_loop.Breaker.{CaptureWorkerAdmission, CaptureWorkerPressureReason, queue}

-- What an operation throws: an error of the queue, the worker's own error, or another one.
pub data WorkerError : Type 0 where
  queue_error : QueueError → WorkerError
  unexpected_state : CaptureQueueState → WorkerError
  other_error : String → WorkerError

pub data CanonicalIngestResult : Type 0 where
  ingest_stored ingest_duplicate : CanonicalIngestResult
  ingest_unsupported ingest_rejected : (reason : String) → CanonicalIngestResult

-- The options of the worker: the queue, the store, the lease and the callbacks. `try_acquire` says
-- whether the lease was got.
pub record Host (S : Type 0) : Type 0 where
  pub enabled : Action WorkerError S Bool
  pub admission : Action WorkerError S CaptureWorkerAdmission
  pub try_acquire : Action WorkerError S Bool
  pub release : Action WorkerError S (Unit {0})
  pub recover_expired_claims : Action WorkerError S (List CaptureQueueItem)
  pub claim_next : String → Action WorkerError S (Option CaptureQueueItem)
  pub on_canonical_mutation_pending : Action WorkerError S (Unit {0})
  pub ingest_queue_item : CaptureQueueItem → Action WorkerError S CanonicalIngestResult
  pub acknowledge : CaptureQueueClaim → Action WorkerError S CaptureQueueItem
  pub retry_claim : CaptureQueueClaim → WorkerError → Action WorkerError S CaptureQueueItem
  pub retry_after_commit : CaptureQueueClaim → WorkerError → Action WorkerError S CaptureQueueItem
  pub dead_letter_claim : CaptureQueueClaim → String → Action WorkerError S CaptureQueueItem
  pub yield_control : Action WorkerError S (Unit {0})

-- The counters of #runWithLease.
pub record Counters : Type 0 where
  pub acknowledged_count : ℕ
  pub dead_lettered : ℕ
  pub circuit_open_reasons : List CaptureWorkerPressureReason
  pub duplicates : ℕ
  pub failed : ℕ
  pub retried : ℕ
  pub stored_count : ℕ
  pub unsupported : ℕ

pub data CaptureWorkerRunResult : Type 0 where
  disabled lease_unavailable : CaptureWorkerRunResult
  circuit_open : List CaptureWorkerPressureReason → CaptureWorkerRunResult
  completed : (recovered_claims : ℕ) → Counters → CaptureWorkerRunResult

pub data WorkerOption : Type 0 where
  batch_size worker_id : WorkerOption

-- A JavaScript number as the option `batchSize`: an integer from 0, one below, or none.
pub data BatchSize : Type 0 where
  integer : ℕ → BatchSize
  negative not_integer : BatchSize

pub record CaptureWorker : Type 0 where
  pub batch : ℕ
  pub owner : String

module _ (trim : String → String) where
  pub construct : BatchSize → String → Result WorkerOption CaptureWorker
  construct (integer n) id =
      if leb n 0
      then err batch_size
      else if trim id == ""
      then err worker_id
      else ok (record { batch = n; owner = trim id })
  construct negative id = err batch_size
  construct not_integer id = err batch_size

abbrev pub no_counts : Counters
no_counts = record {
  acknowledged_count = 0;
  dead_lettered = 0;
  circuit_open_reasons = [];
  duplicates = 0;
  failed = 0;
  retried = 0;
  stored_count = 0;
  unsupported = 0;
}

abbrev pub claim_from_item : CaptureQueueItem → String → CaptureQueueClaim
claim_from_item x owner = record {
  attempt_count = x.attempt_count;
  claim_owner_id = owner;
  queue_item_id = x.queue_item_id;
}

abbrev only_queue : List CaptureWorkerPressureReason → Bool
only_queue (queue ∷ []) = true
only_queue _ = false

pub queue_pressure_only : CaptureWorkerAdmission → Bool
queue_pressure_only a = not a.allowed && only_queue a.reasons

abbrev pub is_dead_letter : CaptureQueueState → Bool
is_dead_letter (dead_letter error) = true
is_dead_letter _ = false

abbrev pub acknowledged_more : Counters → Counters
acknowledged_more n = record n { acknowledged_count = suc n.acknowledged_count }

abbrev pub dead_lettered_more : Counters → Counters
dead_lettered_more n = record n { dead_lettered = suc n.dead_lettered }

abbrev pub failed_more : Counters → Counters
failed_more n = record n { failed = suc n.failed }

abbrev pub retried_more : Counters → Counters
retried_more n = record n { retried = suc n.retried }

-- The reasons that a round notes, and whether it stops the loop.
pub noted : CaptureWorkerAdmission → Counters → Counters
noted a n = if a.allowed then n else record n { circuit_open_reasons = a.reasons }

abbrev pub stops : CaptureWorkerAdmission → Bool
stops a = not a.allowed && not (queue_pressure_only a)

module _ {S : Type 0} where
  -- What `try` sees: the outcome as a value.
  abbrev pub attempt :
      {A : Type 0} → Action WorkerError S A → Action WorkerError S (Result WorkerError A)
  attempt m s = (ok (m s).0, (m s).1)

  abbrev pub after_release :
      {A : Type 0}
      → Result WorkerError A
      → Result WorkerError (Unit {0}) × S
      → Result WorkerError A × S
  after_release r (ok _, s) = (r, s)
  after_release r (err e, s) = (err e, s)

  -- `try { return await m } finally { await last }`
  unfoldable pub finally :
      {A : Type 0}
      → Action WorkerError S A
      → Action WorkerError S (Unit {0})
      → Action WorkerError S A
  finally m last s = after_release (m s).0 (last (m s).1)

module _ {S : Type 0} (host : Host S) where
  open host use {
    enabled, admission, try_acquire, release, recover_expired_claims, claim_next,
    on_canonical_mutation_pending, ingest_queue_item, acknowledge, retry_claim, retry_after_commit,
    dead_letter_claim, yield_control,
  }

  -- try { await end(); ended } catch { failed; await retryAfterCommit(); retried }
  abbrev pub after_end :
      CaptureQueueClaim
      → Counters
      → Counters
      → Result WorkerError CaptureQueueItem
      → Action WorkerError S Counters
  after_end claim ended refused (ok x) = return ended
  after_end claim ended refused (err e) = do
    item ← retry_after_commit claim e
    return (retried_more refused)

  unfoldable pub end_claim :
      CaptureQueueClaim
      → Action WorkerError S CaptureQueueItem
      → Counters
      → Counters
      → Action WorkerError S Counters
  end_claim claim end ended refused = do
    outcome ← attempt end
    after_end claim ended refused outcome

  -- The `switch` on the result of ingestQueueItem.
  unfoldable pub settle :
      CaptureQueueClaim → Counters → CanonicalIngestResult → Action WorkerError S Counters
  unfolding end_claim
  settle claim n ingest_stored =
      let n = record n { stored_count = suc n.stored_count } in
      end_claim claim (acknowledge claim) (acknowledged_more n) (failed_more n)
  settle claim n ingest_duplicate =
      let n = record n { duplicates = suc n.duplicates } in
      end_claim claim (acknowledge claim) (acknowledged_more n) (failed_more n)
  settle claim n (ingest_unsupported reason) =
      let n = record n { unsupported = suc n.unsupported } in
      end_claim claim (dead_letter_claim claim reason) (dead_lettered_more n) (failed_more n)
  settle claim n (ingest_rejected reason) =
      let n = failed_more n in
      end_claim claim (dead_letter_claim claim reason) (dead_lettered_more n) n

  -- The `catch` of the ingestion.
  unfoldable pub ingest_failed :
      CaptureQueueClaim → Counters → WorkerError → Action WorkerError S Counters
  ingest_failed claim n e = do
    next ← retry_claim claim e
    return (
        if is_dead_letter next.state
        then dead_lettered_more (failed_more n)
        else retried_more (failed_more n))

  abbrev pub after_ingest :
      CaptureQueueClaim
      → Counters
      → Result WorkerError CanonicalIngestResult
      → Action WorkerError S Counters
  after_ingest claim n (ok result) = settle claim n result
  after_ingest claim n (err e) = ingest_failed claim n e

  -- One item that was claimed, to the end of its round.
  unfoldable pub process :
      CaptureQueueItem → CaptureQueueClaim → Counters → Action WorkerError S Counters
  unfolding settle ingest_failed
  process x claim n = do
    result ← attempt (on_canonical_mutation_pending >> ingest_queue_item x)
    n' ← after_ingest claim n result
    yield_control
    return n'

  unfoldable pub process_found :
      CaptureQueueItem → CaptureQueueState → Counters → Action WorkerError S Counters
  unfolding process
  process_found x (claimed at expires owner) n = process x (claim_from_item x owner) n
  process_found x state n = throw (unexpected_state state)

  abbrev pub after_claim :
      (Counters → Action WorkerError S Counters)
      → Counters
      → Option CaptureQueueItem
      → Action WorkerError S Counters
  after_claim rest n none = return n
  after_claim rest n (some x) = process_found x x.state n >>= rest

  -- The `for` loop, with the number of rounds that are left.
  unfoldable pub run_batch : String → ℕ → Counters → Action WorkerError S Counters
  unfolding process_found
  run_batch owner zero n = return n
  run_batch owner (suc left) n =
      let rest = run_batch owner left in
      do
        on ← enabled
        if not on then return n else do
          a ← admission
          if stops a
              then return (noted a n)
              else do found ← claim_next owner; after_claim rest (noted a n) found

  unfoldable pub run_with_lease : CaptureWorker → Action WorkerError S CaptureWorkerRunResult
  unfolding run_batch
  run_with_lease w =
      finally
        (do
          recovered ← recover_expired_claims
          n ← run_batch w.owner w.batch no_counts
          return (completed (length recovered) n))
        release

  unfoldable pub run_once : CaptureWorker → Action WorkerError S CaptureWorkerRunResult
  unfolding run_with_lease
  run_once w = do
    on ← enabled
    if not on then return disabled else do
      a ← admission
      if stops a
          then return (circuit_open a.reasons)
          else do got ← try_acquire; if got then run_with_lease w else return lease_unavailable
