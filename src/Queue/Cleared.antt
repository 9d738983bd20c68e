-- ===== src/Queue/Cleared.antt =====
-- What a reset of the queue leaves, and what it keeps out.
use proven_loop.Shared.{
  ℕ, ◌≡◌, ◌≤◌, sym, ap, subst, same_refl, true, false, none, some, String, String_eq, length, arith,
}
use proven_loop.Shared.Result.{ok, err}
use proven_loop.Shared.Assoc.{lookup}
use proven_loop.Queue.Data.{
  CaptureQueueItem, CaptureEnvelope, item_not_found, deleted_source, is_queue_item_id,
}
use proven_loop.Queue.Disk.{read}
use proven_loop.Queue.Act.{◌>>=◌, ◌>>◌}
use proven_loop.Queue.State.{WindowsCaptureQueue}
use proven_loop.Queue.Enqueue.{predates_records_reset, accept_new, enqueue}
use proven_loop.Queue.Barrier.{lift_barrier, end_deletion_barrier}
use proven_loop.Queue.Reset.{clear_all_records}
use proven_loop.Queue.Reset.Removed.{emptied}
use proven_loop.Queue.Reset.Inventory.{cleared, reset_records-empties}

cleared-inv :
    (cutoff now n : ℕ) (q q' : WindowsCaptureQueue)
    → clear_all_records cutoff now q ≡ (ok n, q')
    → (n ≡ length q.disk.files) × (q' ≡ cleared cutoff q) × (q.initialized ≡ true)
unfolding clear_all_records ◌>>◌ ◌>>=◌
cleared-inv cutoff now n q q' h = ground (arith, reset_records-empties cutoff q)

-- A queue without the barrier.
abbrev unbarred : WindowsCaptureQueue → WindowsCaptureQueue
unbarred q = record q { disk = record q.disk { barrier = none } }

lifted :
    (cutoff : ℕ) (active : String) (q q' q'' : WindowsCaptureQueue) (u : Unit {0})
    → q' ≡ cleared cutoff q
    → q.initialized ≡ true
    → q.disk.barrier ≡ some active
    → end_deletion_barrier active q' ≡ (ok u, q'')
    → q'' ≡ unbarred (cleared cutoff q)
unfolding end_deletion_barrier lift_barrier ◌>>◌ ◌>>=◌
lifted cutoff active q q' q'' u e i b h = ground (arith, e, i, b, h, same_refl active)

module _ (item_bytes : CaptureQueueItem → ℕ) (digest : String → String → String → String) where
  -- A reset that succeeds counts every item file, the malformed ones too, and the removal of the
  -- listed files one by one leaves nothing but the barrier, the marker of the cutoff and the marker of
  -- the indexes: no item can be read afterwards.
  pub clear_all_records-empties :
      (cutoff now n : ℕ) (id : String) (q q' : WindowsCaptureQueue)
      → clear_all_records cutoff now q ≡ (ok n, q')
      → is_queue_item_id id ≡ true
      → (n ≡ length q.disk.files)
        × (q'.disk ≡ emptied (record q.disk { reset_cutoff = some cutoff }))
        × (read item_bytes id q'.disk ≡ err item_not_found)
  unfolding read lookup
  clear_all_records-empties cutoff now n id q q' h v =
      let (counted, e, i) = cleared-inv cutoff now n q q' h in
      (counted, ap (λ p. p.disk) e, ground (arith, e, v))

  refused :
      (cutoff : ℕ) (id : String) (e : CaptureEnvelope) (now' : ℕ) (q : WindowsCaptureQueue)
      → q.initialized ≡ true
      → q.disk.reset_pending ≡ false
      → is_queue_item_id id ≡ true
      → e.timestamp ≤ cutoff
      → enqueue item_bytes digest e id now' (unbarred (cleared cutoff q))
        ≡ (err deleted_source, unbarred (cleared cutoff q))
  unfolding enqueue accept_new predates_records_reset lookup ◌>>◌ ◌>>=◌
  refused cutoff id e now' q i p v old = ground (arith, i, p, v, old)

  -- What was captured up to the cutoff of a reset stays out: when the reset's barrier is lifted, and
  -- no reset is pending elsewhere, entering such an event is refused as one of a deleted source.
  pub clear_all_records-stays :
      (cutoff now now' n : ℕ) (active id : String) (e : CaptureEnvelope)
      (q q' q'' : WindowsCaptureQueue) (u : Unit {0})
      → clear_all_records cutoff now q ≡ (ok n, q')
      → end_deletion_barrier active q' ≡ (ok u, q'')
      → q.disk.barrier ≡ some active
      → q.disk.reset_pending ≡ false
      → is_queue_item_id id ≡ true
      → e.timestamp ≤ cutoff
      → enqueue item_bytes digest e id now' q'' ≡ (err deleted_source, q'')
  clear_all_records-stays cutoff now now' n active id e q q' q'' u h h' b p v old =
      let (counted, left, i) = cleared-inv cutoff now n q q' h in
      let open_again = lifted cutoff active q q' q'' u left i b h' in
      subst (λ r. enqueue item_bytes digest e id now' r ≡ (err deleted_source, r)) (sym open_again)
        (refused cutoff id e now' q i p v old)
