-- ===== src/Worker/Tests.antt =====
-- The worker over a counter of items in place of a queue, and over the queue itself.
use mathlib.Core.List.{List, [], ◌∷◌}
use Prim.Native.Nat.{ℕ, zero, suc}
use mathlib.Core.Option.{Option, none, some}
use mathlib.Core.Path.{◌≡◌, refl, ap}
use native.Mathlib.Omega.{arith}
use proven_loop.Shared.{
  Bool, true, false, String, String_eq, Pair_eq, ℕ_eq, List_eq, Option_eq, contains, same_refl,
}
use proven_loop.Shared.Assoc.{lookup, insert, touch, unlink}
use proven_loop.Shared.Result.{Result, ok, err}
use proven_loop.Shared.Action.{◌>>=◌, ◌>>◌, return}
use proven_loop.Queue.Data.{
  CaptureEnvelope, CaptureQueueItem, claimed, acknowledged, is_queue_item_id, matches_id,
  is_id_char, is_alphanumeric,
}
use proven_loop.Queue.Disk.{
  read, parse_file, write_steps, update_state_index, apply_all, apply, sort_names, insert_name,
  name_le, read_active,
}
use proven_loop.Queue.Claims
use proven_loop.Queue.State.{assert_active_claim, write}
use proven_loop.Breaker.{evaluate, pressure_reasons}
use proven_loop.Worker.Site.{site_host, on_queue, observe, mark_projection_dirty, ingest_at}
use proven_loop.Queue.Runs.{bytes, item, with_one, queue}
use proven_loop.Breaker.{CaptureWorkerPressureSnapshot}
use proven_loop.Worker.{
  WorkerError, other_error, CanonicalIngestResult, ingest_stored, ingest_rejected, Host, Counters,
  completed, CaptureWorker, run_once, run_with_lease, finally, run_batch, process_found, process,
  settle, end_claim, ingest_failed, noted, queue_pressure_only, BatchSize, WorkerOption, construct,
}
use proven_loop.Worker.Balance.{IsWithin, run_once-IsWithin}
use proven_loop.Worker.Lease.{LeaseLaws, run_once-IsFree}
use proven_loop.Worker.Site.{Site, Process, run_capture_worker_once}
use proven_loop.Worker.Site.Stored.{StoreLaws, EachStored, run_capture_worker_once-IsStored}

-- The items that wait, and whether the lease is held.
abbrev Toy : Type 0
Toy = ℕ × Bool

abbrev held_item : CaptureQueueItem
held_item = record (item "a" 5) { state = claimed 5 35 "w" }

abbrev next_item : Toy → Result WorkerError (Option CaptureQueueItem) × Toy
next_item (zero, lease) = (ok none, (zero, lease))
next_item (suc n, lease) = (ok (some held_item), (n, lease))

-- The last item is rejected, and the queue refuses to acknowledge the one before it.
abbrev ingest_toy : Toy → Result WorkerError CanonicalIngestResult × Toy
ingest_toy (zero, lease) = (ok (ingest_rejected "bad"), (zero, lease))
ingest_toy (suc n, lease) = (ok ingest_stored, (suc n, lease))

abbrev acknowledge_toy : Toy → Result WorkerError CaptureQueueItem × Toy
acknowledge_toy (suc zero, lease) = (err (other_error "stale"), (1, lease))
acknowledge_toy s = (ok held_item, s)

abbrev free_toy : Toy → Result WorkerError (Unit {0}) × Toy
free_toy (n, lease) = (ok tt, (n, false))

abbrev hold_toy : Toy → Result WorkerError Bool × Toy
hold_toy (n, lease) = (ok true, (n, true))

abbrev toy : Host Toy
toy = record {
  enabled = return true;
  admission = return (record { allowed = true; reasons = [] });
  try_acquire = hold_toy;
  release = free_toy;
  recover_expired_claims = return [];
  claim_next = λ owner. next_item;
  on_canonical_mutation_pending = return tt;
  ingest_queue_item = λ x. ingest_toy;
  acknowledge = λ c. acknowledge_toy;
  retry_claim = λ c e. return held_item;
  retry_after_commit = λ c e. return held_item;
  dead_letter_claim = λ c reason. return held_item;
  yield_control = return tt;
}

abbrev worker : CaptureWorker
worker = record { batch = 5; owner = "w" }

abbrev counts : Counters
counts = record {
  acknowledged_count = 1;
  dead_lettered = 1;
  circuit_open_reasons = [];
  duplicates = 0;
  failed = 2;
  retried = 1;
  stored_count = 2;
  unsupported = 0;
}

toy_run : run_once toy worker (3, false) ≡ (ok (completed 0 counts), (0, false))
unfolding run_once run_with_lease finally run_batch process_found process settle end_claim
    ingest_failed noted queue_pressure_only ◌>>=◌ ◌>>◌
toy_run = refl

construct_run :
    (construct (λ t. t) (BatchSize.integer 0) "w" ≡ err WorkerOption.batch_size)
    × (construct (λ t. t) (BatchSize.integer 5) "w" ≡ ok worker)
unfolding construct
construct_run = (refl, refl)

run_once-IsWithin_example : IsWithin 5 counts
run_once-IsWithin_example = run_once-IsWithin toy worker (3, false) (0, false) 0 counts toy_run

abbrev IsFreeToy : Toy → Type 0
IsFreeToy s = s.1 ≡ false

toy_lease : LeaseLaws toy IsFreeToy
toy_lease = record {
  enabled_free = λ s h. h;
  admission_free = λ s h. h;
  refused_free = λ s h no. absurd (no refl);
  release_free = λ s. refl;
}

run_once-IsFree_example : IsFreeToy (run_once toy worker (3, false)).1
run_once-IsFree_example = run_once-IsFree toy IsFreeToy toy_lease worker (3, false) refl

abbrev calm : CaptureWorkerPressureSnapshot
calm = record {
  consecutive_provider_errors = 0;
  cpu_percent = 10;
  free_disk_bytes = 1000000000;
  memory_bytes = 1000;
  queue_depth = 1;
}

-- A store that keeps the identifiers of its events.
abbrev Events : Type 0
Events = List String

abbrev HasEvent : Events → CaptureEnvelope → Type 0
HasEvent events e = contains e.event_id events ≡ true

abbrev process_of : Process Events
process_of = record {
  item_bytes = bytes;
  enabled_at = λ i. true;
  snapshot_at = λ i depth. calm;
  clock = λ i. 10;
  second_clock = λ i. 11;
  item_clock = λ i x. 11;
  message = λ e. "e";
  ingest = λ x events. (ok ingest_stored, x.envelope.event_id ∷ events);
}

abbrev site : Site Events
site = record { queue = queue [] with_one; store = []; projection_dirty = false; readings = 0 }

store_laws : StoreLaws process_of HasEvent
store_laws = record {
  committed = λ x t t' r h done.
      ground (arith, ap (λ o. contains x.envelope.event_id o.1) h, same_refl x.envelope.event_id);
  kept = λ x t e h. ground arith;
}

none_acknowledged : EachStored process_of HasEvent site
unfolding read parse_file lookup
none_acknowledged id x back done = absurd (ground arith)

run_capture_worker_once-IsStored_example :
    EachStored process_of HasEvent (run_capture_worker_once process_of worker site).1
run_capture_worker_once-IsStored_example =
    run_capture_worker_once-IsStored process_of HasEvent store_laws worker site none_acknowledged

acknowledged_run :
    read bytes "a" (run_capture_worker_once process_of worker site).1.queue.disk
    ≡ ok (record (item "a" 5) { attempt_count = 1; state = acknowledged 11; updated_at = 11 })
unfolding run_capture_worker_once site_host on_queue observe mark_projection_dirty ingest_at
    evaluate pressure_reasons run_once run_with_lease finally run_batch process_found process settle
    end_claim noted queue_pressure_only ◌>>=◌ ◌>>◌ Claims.recover_expired_claims Claims.recover_open
    Claims.read_all_active Claims.retry_expired Claims.claim_next Claims.claim_next_open Claims.scan
    Claims.refill Claims.claim_found Claims.acknowledge Claims.read_claimed Claims.write_and_return
    assert_active_claim write write_steps update_state_index apply_all apply sort_names insert_name
    name_le read_active read parse_file is_queue_item_id matches_id is_id_char is_alphanumeric
    lookup insert touch unlink
acknowledged_run = refl
