-- ===== src/Queue/Leases.antt =====
-- Claims and the ways in which they end: `acknowledge`, `retry`, `retryAfterCommit`, `deadLetter`.
use proven_loop.Shared.{none}
use proven_loop.Shared.{
  ℕ, ◌≡◌, refl, true, false, List, ◌++◌, String, String_eq, Pair_eq, ℕ_eq, same_refl, if_cases,
  arith, ltb,
}
use proven_loop.Shared.Result.{ok, err}
use proven_loop.Shared.Assoc.{insert, lookup-insert}
use proven_loop.Queue.Data.{
  CaptureQueueState, claimed, pending, retry, acknowledged, dead_letter, CaptureQueueItem,
  terminal_queue_state, QueueError, is_queue_item_id, CaptureQueueClaim,
}
use proven_loop.Queue.Disk.{
  stored, Disk, DiskStep, apply, apply_all, touch_acknowledged_of, update_state_index, write_steps,
  size_limit, read, parse_file,
}
use proven_loop.Queue.Act.{◌>>=◌, ◌>>◌}
use proven_loop.Shared.Action.Outcomes.{bind-ok}
use proven_loop.Shared.Action.Outcomes.{bind-of}
use proven_loop.Queue.Act.{return}
use proven_loop.Queue.State.{write}
use proven_loop.Queue.Written.{written, write-ok, write-of}
use proven_loop.Queue.State.{WindowsCaptureQueue, assert_active_claim, write}
use proven_loop.Queue.Claims.{read_claimed, write_and_return, acknowledge}

module _ (item_bytes : CaptureQueueItem → ℕ) where
  -- The claim stands: the item is held by this owner, at this attempt, and the lease runs.
  abbrev pub Holds : CaptureQueueClaim → ℕ → WindowsCaptureQueue → CaptureQueueItem → Type 0
  Holds c checked q x =
      (q.initialized ≡ true)
      × (read item_bytes c.queue_item_id q.disk ≡ ok x)
      × (assert_active_claim x c checked ≡ ok tt)

  pub read_claimed-inv :
      (c : CaptureQueueClaim) (checked : ℕ) (q q' : WindowsCaptureQueue) (x : CaptureQueueItem)
      → read_claimed item_bytes c checked q ≡ (ok x, q')
      → (q' ≡ q) × Holds c checked q x
  unfolding read_claimed ◌>>◌ ◌>>=◌
  read_claimed-inv c checked q q' x h = ground arith

  pub read_claimed-err :
      (c : CaptureQueueClaim) (checked : ℕ) (q q' : WindowsCaptureQueue) (e : QueueError)
      → read_claimed item_bytes c checked q ≡ (err e, q')
      → q' ≡ q
  unfolding read_claimed ◌>>◌ ◌>>=◌
  read_claimed-err c checked q q' e h = ground arith

  acknowledged-files :
      (state : CaptureQueueState) (id : String) (ss : List DiskStep) (d : Disk)
      → ((d' : Disk) → (apply_all ss d').files ≡ d'.files)
      → (apply_all (touch_acknowledged_of state id ++ ss) d).files ≡ d.files
  unfolding apply_all apply
  acknowledged-files (acknowledged at) id ss d h = h _
  acknowledged-files pending id ss d h = h d
  acknowledged-files (claimed at expires owner) id ss d h = h d
  acknowledged-files (retry error at) id ss d h = h d
  acknowledged-files (dead_letter error) id ss d h = h d

  pub update_state_index-files :
      (x : CaptureQueueItem) (d : Disk) → (apply_all (update_state_index x) d).files ≡ d.files
  unfolding update_state_index apply_all apply
  update_state_index-files x d = acknowledged-files x.state x.queue_item_id _ d λ d'.
      if_cases (λ ss. (apply_all ss d').files ≡ d'.files) (terminal_queue_state x.state) (λ t. refl)
        (λ f. refl)

  pub write_steps-files :
      (x : CaptureQueueItem) (d : Disk)
      → (apply_all (write_steps x) d).files ≡ insert x.queue_item_id (stored x) d.files
  unfolding write_steps apply_all apply
  write_steps-files x d =
      if_cases (λ ss. (apply_all ss d).files ≡ insert x.queue_item_id (stored x) d.files)
        (terminal_queue_state x.state) (λ t. update_state_index-files x _) (λ f. refl)

  pub read-write_steps :
      (x : CaptureQueueItem) (d : Disk)
      → is_queue_item_id x.queue_item_id ≡ true
      → ltb size_limit (item_bytes x) ≡ false
      → read item_bytes x.queue_item_id (apply_all (write_steps x) d) ≡ ok x
  unfolding read parse_file
  read-write_steps x d valid small = ground (
    arith,
    write_steps-files x d,
    lookup-insert x.queue_item_id x.queue_item_id (stored x) d.files,
    same_refl x.queue_item_id,
  )

  pub write_and_return-inv :
      (x y : CaptureQueueItem) (q q' : WindowsCaptureQueue)
      → write_and_return item_bytes x q ≡ (ok y, q')
      → (y ≡ x)
        × (ltb size_limit (item_bytes x) ≡ false)
        × (q' ≡ record q { disk = apply_all (write_steps x) q.disk })
  unfolding write_and_return ◌>>◌
  write_and_return-inv x y q q' h =
      let (u, q1, w, r) = bind-ok (write item_bytes x) (λ _. return x) q y q' h in
      let (small, e) = write-ok item_bytes x q q1 u w in (cc, small, cc)

  pub write_and_return-of :
      (x : CaptureQueueItem) (q : WindowsCaptureQueue)
      → ltb size_limit (item_bytes x) ≡ false
      → q.write_faults x q.disk ≡ none
      → write_and_return item_bytes x q
        ≡ (ok x, record q { disk = apply_all (write_steps x) q.disk })
  unfolding write_and_return ◌>>◌
  write_and_return-of x q h sound =
      bind-of (write item_bytes x) (λ _. return x) q tt (written x q)
        (write-of item_bytes x q h sound)

  pub read-valid :
      (id : String) (d : Disk) (x : CaptureQueueItem)
      → read item_bytes id d ≡ ok x
      → is_queue_item_id id ≡ true
  unfolding read
  read-valid id d x h = ground arith

  pub acknowledge-inv :
      (c : CaptureQueueClaim) (checked now : ℕ) (q q' : WindowsCaptureQueue) (y : CaptureQueueItem)
      → acknowledge item_bytes c checked now q ≡ (ok y, q')
      → (x : CaptureQueueItem) × Holds c checked q x
        × (y ≡ record x { state = acknowledged now; updated_at = now })
        × (ltb size_limit (item_bytes y) ≡ false)
        × (q' ≡ record q { disk = apply_all (write_steps y) q.disk })
  unfolding acknowledge
  acknowledge-inv c checked now q q' y h =
      let (x, q1, r, w) = bind-ok _ _ q y q' h in
      let (e, holds) = read_claimed-inv c checked q q1 x r in
      let (ey, small, eq) = write_and_return-inv _ y q1 q' w in (x, holds, ey, cc, cc)

  pub read_claimed-of :
      (c : CaptureQueueClaim) (checked : ℕ) (q : WindowsCaptureQueue) (x : CaptureQueueItem)
      → Holds c checked q x
      → read_claimed item_bytes c checked q ≡ (ok x, q)
  unfolding read_claimed ◌>>◌ ◌>>=◌
  read_claimed-of c checked q x (i, r, a) = ground (arith, i, r, a)

  pub read_claimed-refused :
      (c : CaptureQueueClaim) (checked : ℕ) (q : WindowsCaptureQueue) (x : CaptureQueueItem)
      (e : QueueError)
      → q.initialized ≡ true
      → read item_bytes c.queue_item_id q.disk ≡ ok x
      → assert_active_claim x c checked ≡ err e
      → read_claimed item_bytes c checked q ≡ (err e, q)
  unfolding read_claimed ◌>>◌ ◌>>=◌
  read_claimed-refused c checked q x e i r a = ground (arith, i, r, a)
