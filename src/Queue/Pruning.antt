-- ===== src/Queue/Pruning.antt =====
-- Pruning and the barrier leave the active index complete.
use proven_loop.Queue.Disk.{drop_acknowledged}
use proven_loop.Queue.Data.{acknowledged}
use proven_loop.Shared.{
  ℕ, List, [], ◌∷◌, Option, none, some, String, String_eq, Pair_eq, ℕ_eq, same_refl, if_cases, ◌==◌,
  arith,
}
use proven_loop.Shared.Result.{Result, ok, err}
use proven_loop.Shared.Assoc.{lookup-delete}
use proven_loop.Queue.Data.{CaptureQueueState, CaptureQueueItem, QueueError}
use proven_loop.Queue.Disk.{IndexName, Disk, drop_file, apply, read}
use proven_loop.Queue.Index.{Indexed, step-Indexed}
use proven_loop.Queue.Crash.{SafeAll, all-Indexed}
use proven_loop.Shared.Action.Keeps.{
  Keeps, bind-Keeps, then-Keeps, refuse_if-Keeps, reads-Keeps, keeps, runs,
}
use proven_loop.Queue.State.{WindowsCaptureQueue}
use proven_loop.Queue.Indexing.{Good}
use proven_loop.Queue.Disk.{
  remove_state_indexes, sort_names, acknowledged_or_drop, acknowledged_or_settled,
  read_acknowledged, drop_acknowledged_of,
}
use proven_loop.Queue.Indexing.{settle_unread-Indexed}
use proven_loop.Queue.Prune.{
  is_kept_until, collect, remove_all, prune_collected, prune_open, prune_acknowledged,
}
use proven_loop.Queue.Barrier.{
  place_barrier, begin_deletion_barrier, lift_barrier, end_deletion_barrier,
  active_deletion_barrier,
}
use proven_loop.Queue.Blocking.{on_disk-Indexed, assert-Indexed}
use proven_loop.Queue.Entering.{remove_source-Indexed}

module _ (item_bytes : CaptureQueueItem → ℕ) where
  abbrev AtRest : Disk → Type 0
  AtRest d = Indexed item_bytes d

  abbrev InOrder : WindowsCaptureQueue → Type 0
  InOrder q = Good item_bytes q

  acknowledged_or_drop-Indexed :
      (n : IndexName) (state : CaptureQueueState) (x : CaptureQueueItem) (d : Disk)
      → AtRest d
      → AtRest (acknowledged_or_drop item_bytes n state x d).1
  acknowledged_or_drop-Indexed n (acknowledged at) x d i = i
  acknowledged_or_drop-Indexed n _ x d i = step-Indexed item_bytes (drop_acknowledged n) d tt i

  acknowledged_or_settled-Indexed :
      (n : IndexName) (r : Result QueueError CaptureQueueItem) (d : Disk)
      → AtRest d
      → AtRest (acknowledged_or_settled item_bytes n r d).1
  acknowledged_or_settled-Indexed n (ok x) d i = acknowledged_or_drop-Indexed n x.state x d i
  acknowledged_or_settled-Indexed n (err e) d i =
      step-Indexed item_bytes (drop_acknowledged n) _ tt
        (settle_unread-Indexed item_bytes e n.1 d i)

  collect-Indexed :
      (q : WindowsCaptureQueue) (now : ℕ) (ns : List IndexName) (d : Disk)
      → AtRest d
      → AtRest (collect item_bytes q now ns d).1
  unfolding collect read_acknowledged
  collect-Indexed q now [] d i = i
  collect-Indexed q now (n ∷ ns) d i =
      if_cases (λ (p : List CaptureQueueItem × Disk). AtRest p.1) (is_kept_until q now n.0) (λ t. i)
        (λ f.
          collect-Indexed q now ns _
            (acknowledged_or_settled-Indexed n (read item_bytes n.1 d) d i))

  acknowledged-SafeAll :
      (state : CaptureQueueState) (id : String) (d : Disk)
      → SafeAll item_bytes (drop_acknowledged_of state id) d
  acknowledged-SafeAll (acknowledged at) id d = (tt, tt)
  acknowledged-SafeAll _ id d = tt

  -- With its file gone, an item needs no name in the active index.
  remove-SafeAll :
      (x : CaptureQueueItem) (d : Disk)
      → SafeAll item_bytes (drop_file x.queue_item_id ∷ remove_state_indexes x) d
  unfolding remove_state_indexes read apply
  remove-SafeAll x d = (
    tt,
    (
      λ y r. absurd (
          ground (
            arith,
            r,
            lookup-delete x.queue_item_id x.queue_item_id d.files,
            same_refl x.queue_item_id,
          )),
      acknowledged-SafeAll x.state x.queue_item_id _,
    ),
  )

  remove_all-Indexed : (xs : List CaptureQueueItem) → Keeps AtRest (remove_all item_bytes xs)
  unfolding remove_all
  remove_all-Indexed [] = reads-Keeps AtRest _
  remove_all-Indexed (x ∷ xs) = bind-Keeps AtRest _ _ (reads-Keeps AtRest _) λ there.
      then-Keeps AtRest _ _ (refuse_if-Keeps AtRest _ _) (
        then-Keeps AtRest _ _ (keeps AtRest _ λ d. all-Indexed item_bytes _ d (remove-SafeAll x d))
          (then-Keeps AtRest _ _ (keeps AtRest _ (remove_source-Indexed item_bytes _ _))
            (remove_all-Indexed xs)))

  prune_collected-Indexed :
      (xs : List CaptureQueueItem) → Keeps AtRest (prune_collected item_bytes xs)
  unfolding prune_collected
  prune_collected-Indexed xs = then-Keeps AtRest _ _ (remove_all-Indexed xs) (reads-Keeps AtRest _)

  prune_open-Indexed : (now : ℕ) → Keeps InOrder (prune_open item_bytes now)
  unfolding prune_open
  prune_open-Indexed now = keeps InOrder _ λ q i.
      runs InOrder _ (on_disk-Indexed item_bytes _ (prune_collected-Indexed _))
        (record q {
          disk = (collect item_bytes q now (sort_names q.disk.acknowledged_names) q.disk).1;
        })
        (collect-Indexed q now _ q.disk i)

  pub prune_acknowledged-Indexed : (now : ℕ) → Keeps InOrder (prune_acknowledged item_bytes now)
  unfolding prune_acknowledged
  prune_acknowledged-Indexed now =
      then-Keeps InOrder _ _ (assert-Indexed item_bytes) (prune_open-Indexed now)

  place_barrier-Indexed : (id : String) (o : Option String) → Keeps AtRest (place_barrier id o)
  unfolding place_barrier Indexed read
  place_barrier-Indexed id none = keeps AtRest _ λ d i. i
  place_barrier-Indexed id (some active) = keeps AtRest _ λ d i.
      if_cases (λ (p : Result QueueError (Unit {0}) × Disk). AtRest p.1) (active == id) (λ t. i)
        (λ f. i)

  pub begin_deletion_barrier-Indexed : (id : String) → Keeps InOrder (begin_deletion_barrier id)
  unfolding begin_deletion_barrier
  begin_deletion_barrier-Indexed id = then-Keeps InOrder _ _ (assert-Indexed item_bytes) (
      then-Keeps InOrder _ _ (refuse_if-Keeps InOrder _ _) (
        on_disk-Indexed item_bytes _
          (keeps AtRest _ λ d. runs AtRest _ (place_barrier-Indexed id d.barrier) d)))

  lift_barrier-Indexed : (id : String) (o : Option String) → Keeps AtRest (lift_barrier id o)
  unfolding lift_barrier Indexed read
  lift_barrier-Indexed id none = reads-Keeps AtRest _
  lift_barrier-Indexed id (some active) = keeps AtRest _ λ d i.
      if_cases (λ (p : Result QueueError (Unit {0}) × Disk). AtRest p.1) (active == id) (λ t. i)
        (λ f. i)

  pub end_deletion_barrier-Indexed : (id : String) → Keeps InOrder (end_deletion_barrier id)
  unfolding end_deletion_barrier
  end_deletion_barrier-Indexed id = then-Keeps InOrder _ _ (assert-Indexed item_bytes) (
      on_disk-Indexed item_bytes _
        (keeps AtRest _ λ d. runs AtRest _ (lift_barrier-Indexed id d.barrier) d))

  pub active_deletion_barrier-Indexed : Keeps InOrder active_deletion_barrier
  unfolding active_deletion_barrier
  active_deletion_barrier-Indexed =
      then-Keeps InOrder _ _ (assert-Indexed item_bytes) (reads-Keeps InOrder _)
