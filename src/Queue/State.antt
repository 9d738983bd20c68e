-- ===== src/Queue/State.antt =====
-- The queue object: its options, its memory and its directory; and the guards and writes that the
-- operations share. `#runExclusive` runs one operation at a time, so an operation is one function.
use proven_loop.Shared.{same_number}
use proven_loop.Shared.{◌&&◌}
use proven_loop.Shared.{
  ℕ, ◌-◌, ◌*◌, ◌^◌, min, Bool, true, false, not, List, Option, none, some, String, String_eq, ltb,
  ◌==◌, ◌||◌, if◌then◌else◌,
}
use proven_loop.Shared.Result.{Result, ok, err}
use proven_loop.Queue.Data.{
  claimed, CaptureQueueItem, QueueError, not_initialized, item_too_large, write_failed,
  deletion_in_progress, stale_claim, invalid_transition, CaptureQueueClaim,
  WindowsCaptureQueueOptions,
}
use proven_loop.Queue.Disk.{IndexName, Disk, apply_all, write_steps, size_limit, read}
use proven_loop.Queue.Act.{Act, ◌>>=◌, ◌>>◌, modify, gets, reads, refuse_if}
use proven_loop.Shared.{take}

-- `candidates` are the names of `#claimCandidates` from `#claimCandidateIndex` on. `write_faults` is not
-- of the object: it says whether a file operation of a write fails, and how many of the changes that
-- publish the item have taken effect by then.
pub record WindowsCaptureQueue : Type 0 where
  pub options : WindowsCaptureQueueOptions
  pub open options use *
  pub initialized : Bool
  pub candidates : List IndexName
  pub disk : Disk
  pub write_faults : CaptureQueueItem → Disk → Option ℕ

abbrev pub QueueAct : Type 0 → Type 0
QueueAct A = Act WindowsCaptureQueue A

abbrev pub with_disk :
    {A : Type 0}
    → WindowsCaptureQueue
    → Result QueueError A × Disk
    → Result QueueError A × WindowsCaptureQueue
with_disk q (r, d) = (r, record q { disk = d })

-- An operation on the directory alone.
abbrev pub on_disk : {A : Type 0} → Act Disk A → QueueAct A
on_disk m q = with_disk q (m q.disk)

abbrev pub change_disk : (Disk → Disk) → QueueAct (Unit {0})
change_disk f = modify (λ q. record q { disk = f q.disk })

-- `#assertInitialized`
abbrev pub assert_initialized : QueueAct (Unit {0})
assert_initialized q = refuse_if (not q.initialized) not_initialized q

abbrev pub is_some : Option String → Bool
is_some none = false
is_some (some _) = true

-- `#deletionBarrierActive`
abbrev pub deletion_barrier_active : WindowsCaptureQueue → Bool
deletion_barrier_active q = is_some q.disk.barrier

-- `#assertNoDeletionBarrier`
abbrev pub assert_no_deletion_barrier : QueueAct (Unit {0})
assert_no_deletion_barrier q =
    refuse_if (deletion_barrier_active q || q.disk.reset_pending) deletion_in_progress q

-- `#retryDelay`. `Math.max(0, count - 1)` is the subtraction of natural numbers.
unfoldable pub retry_delay : WindowsCaptureQueueOptions → ℕ → ℕ
retry_delay o count = min (o.retry_base_delay_ms * 2 ^ (count - 1)) o.retry_max_delay_ms

abbrev pub claim_matches : CaptureQueueClaim → CaptureQueueItem → ℕ → ℕ → String → Bool
claim_matches c x now expires owner =
    owner == c.claim_owner_id && same_number x.attempt_count c.attempt_count && ltb now expires

-- `#assertActiveClaim`
unfoldable pub assert_active_claim :
    CaptureQueueItem → CaptureQueueClaim → ℕ → Result QueueError (Unit {0})
assert_active_claim x c now = elim x.state [
  | claimed at expires owner ↦
      if claim_matches c x now expires owner then ok tt else err stale_claim
  | other ↦ err (invalid_transition other)
]

-- The changes that publish an item: all of them, or those before a file operation that fails.
abbrev pub publish : Option ℕ → CaptureQueueItem → QueueAct (Unit {0})
publish none x q = (ok tt, record q { disk = apply_all (write_steps x) q.disk })
publish (some done) x q =
    (err write_failed, record q { disk = apply_all (take done (write_steps x)) q.disk })

module _ (item_bytes : CaptureQueueItem → ℕ) where
  -- `#read`, as an operation.
  abbrev pub read_item : String → QueueAct CaptureQueueItem
  read_item id = reads (λ q. read item_bytes id q.disk)

  -- `#write`, its errors by a file operation included.
  unfoldable pub write : CaptureQueueItem → QueueAct (Unit {0})
  write x = do
    refuse_if (ltb size_limit (item_bytes x)) item_too_large
    fault ← gets (λ q. q.write_faults x q.disk)
    publish fault x
