-- ===== src/Queue/Entering.antt =====
-- Entering an item, pruning and the deletion barrier leave the active index complete.
use proven_loop.Queue.Data.{is_queue_item_id}
use proven_loop.Shared.{
  ℕ, Bool, true, false, Option, none, some, String, String_eq, Pair_eq, ℕ_eq, if◌then◌else◌,
  if_cases, ◌==◌,
}
use proven_loop.Shared.Result.{Result, ok, err}
use proven_loop.Shared.Assoc.{lookup}
use proven_loop.Queue.Data.{CaptureQueueItem, QueueError, corrupt_item}
use proven_loop.Queue.Disk.{Disk, put_source, drop_source, apply, read}
use proven_loop.Queue.Index.{Indexed, step-Indexed}
use proven_loop.Shared.Action.Keeps.{
  Keeps, bind-Keeps, then-Keeps, refuse_if-Keeps, reads-Keeps, keeps, runs,
}
use proven_loop.Queue.State.{WindowsCaptureQueue, write}
use proven_loop.Queue.Indexing.{Good, write-Indexed}
use proven_loop.Queue.Data.{CaptureEnvelope, item_not_found}
use proven_loop.Queue.Indexing.{quarantine-Indexed}
use proven_loop.Queue.Enqueue.{
  exists, remove_source_index_if_owned, reserve_source, release_source, settle_write, accept_new,
  source_of, validated_of, validated_source_index, write_or_release, enqueue, enqueue_absent,
  enqueue_unblocked, enqueue_after_reset, enqueue_if_source_absent,
}
use proven_loop.Queue.Blocking.{on_disk-Indexed, assert-Indexed, identities_blocked-Indexed}

module _ (item_bytes : CaptureQueueItem → ℕ) where
  abbrev AtRest : Disk → Type 0
  AtRest d = Indexed item_bytes d

  abbrev InOrder : WindowsCaptureQueue → Type 0
  InOrder q = Good item_bytes q

  drop_source-Indexed : (key : String) (d : Disk) → AtRest d → AtRest (apply (drop_source key) d)
  drop_source-Indexed key d i = step-Indexed item_bytes (drop_source key) d tt i

  pub remove_source-Indexed :
      (key id : String) (d : Disk) → AtRest d → AtRest (remove_source_index_if_owned key id d)
  unfolding remove_source_index_if_owned
  remove_source-Indexed key id d i = owned (lookup key d.sources)
    where
      owned :
          (o : Option String)
          → AtRest (elim o [
            | none ↦ d
            | some owner ↦ if owner == id then apply (drop_source key) d else d
          ])
      owned none = i
      owned (some owner) = if_cases AtRest (owner == id) (λ t. drop_source-Indexed key d i) (λ f. i)

  pub reserve_source-Indexed :
      (existing : Option String) (key id : String) (d : Disk)
      → AtRest d
      → AtRest (reserve_source existing key id d)
  unfolding reserve_source
  reserve_source-Indexed none key id d i = step-Indexed item_bytes (put_source key id) d tt i
  reserve_source-Indexed (some owner) key id d i = i

  release_source-Indexed :
      (existing : Option String) (x : CaptureQueueItem) (d : Disk)
      → AtRest d
      → AtRest (release_source existing x d)
  unfolding release_source
  release_source-Indexed none x d i =
      if_cases AtRest (exists x.queue_item_id d) (λ t. i) (λ f. remove_source-Indexed _ _ d i)
  release_source-Indexed (some owner) x d i = i

  settle_write-Indexed :
      (existing : Option String) (x : CaptureQueueItem)
      (r : Result QueueError (Unit {0}) × WindowsCaptureQueue)
      → InOrder r.1
      → InOrder (settle_write existing x r).1
  unfolding settle_write
  settle_write-Indexed existing x (ok done, q) i = i
  settle_write-Indexed existing x (err e, q) i = release_source-Indexed existing x q.disk i

  write_or_release-Indexed :
      (existing : Option String) (x : CaptureQueueItem)
      → Keeps InOrder (write_or_release item_bytes existing x)
  unfolding write_or_release
  write_or_release-Indexed existing x = keeps InOrder _ λ q i.
      settle_write-Indexed existing x (write item_bytes x q)
        (runs InOrder _ (write-Indexed item_bytes x) q i)

  validated_of-Indexed :
      (key id : String) (r : Result QueueError CaptureQueueItem)
      → Keeps AtRest (validated_of item_bytes key id r)
  unfolding validated_of
  validated_of-Indexed key id (ok x) = keeps AtRest _ λ d i.
      if_cases (λ (p : Result QueueError (Option String) × Disk). AtRest p.1)
        (x.envelope.deduplication_key == key) (λ t. i) (λ f. drop_source-Indexed key d i)
  validated_of-Indexed key id (err corrupt_item) =
      keeps AtRest _ λ d i. drop_source-Indexed key _ (quarantine-Indexed item_bytes id d i)
  validated_of-Indexed key id (err item_not_found) = keeps AtRest _ (drop_source-Indexed key)
  validated_of-Indexed key id (err _) = reads-Keeps AtRest _

  source_cases :
      (key : String) (d : Disk) (o : Option String)
      → AtRest d
      → AtRest (source_of item_bytes key o d).1
  source_cases key d none i = i
  source_cases key d (some id) i =
      if_cases (λ (p : Result QueueError (Option String) × Disk). AtRest p.1) (is_queue_item_id id)
        (λ t. runs AtRest _ (validated_of-Indexed key id (read item_bytes id d)) d i)
        (λ f. drop_source-Indexed key d i)

  pub validated_source_index-Indexed :
      (key : String) → Keeps AtRest (validated_source_index item_bytes key)
  unfolding validated_source_index
  validated_source_index-Indexed key =
      keeps AtRest _ λ d i. source_cases key d (lookup key d.sources) i

  pub accept_new-Indexed : (id : String) → Keeps InOrder (accept_new id)
  unfolding accept_new
  accept_new-Indexed id = then-Keeps InOrder _ _ (assert-Indexed item_bytes) (
      then-Keeps InOrder _ _ (refuse_if-Keeps InOrder _ _) (
        bind-Keeps InOrder _ _ (reads-Keeps InOrder _) λ taken.
          then-Keeps InOrder _ _ (refuse_if-Keeps InOrder _ _)
            (keeps InOrder _ λ q. runs InOrder _ (refuse_if-Keeps InOrder _ _) q)))

  module _ (digest : String → String → String → String) where
    pub enqueue-Indexed :
        (e : CaptureEnvelope) (id : String) (now : ℕ)
        → Keeps InOrder (enqueue item_bytes digest e id now)
    unfolding enqueue
    enqueue-Indexed e id now = then-Keeps InOrder _ _ (accept_new-Indexed id) (
        bind-Keeps InOrder _ _ (reads-Keeps InOrder _) λ old.
          then-Keeps InOrder _ _ (refuse_if-Keeps InOrder _ _) (
            bind-Keeps InOrder _ _
              (on_disk-Indexed item_bytes _ (identities_blocked-Indexed item_bytes digest _))
              λ blocked. then-Keeps InOrder _ _ (refuse_if-Keeps InOrder _ _) (
                bind-Keeps InOrder _ _
                  (on_disk-Indexed item_bytes _ (validated_source_index-Indexed _))
                  λ existing.
                    then-Keeps InOrder _ _
                      (keeps InOrder _ λ q. reserve_source-Indexed existing _ id q.disk)
                      (write_or_release-Indexed existing _))))

    enqueue_absent-Indexed :
        (e : CaptureEnvelope) (id : String) (now : ℕ) (owner : Option String)
        → Keeps InOrder (enqueue_absent item_bytes digest e id now owner)
    unfolding enqueue_absent
    enqueue_absent-Indexed e id now (some owner) = reads-Keeps InOrder _
    enqueue_absent-Indexed e id now none =
        then-Keeps InOrder _ _ (keeps InOrder _ λ q. reserve_source-Indexed none _ id q.disk)
          (bind-Keeps InOrder _ _ (write_or_release-Indexed none _) λ x. reads-Keeps InOrder _)

    enqueue_unblocked-Indexed :
        (e : CaptureEnvelope) (id : String) (now : ℕ) (blocked : Bool)
        → Keeps InOrder (enqueue_unblocked item_bytes digest e id now blocked)
    unfolding enqueue_unblocked
    enqueue_unblocked-Indexed e id now true = reads-Keeps InOrder _
    enqueue_unblocked-Indexed e id now false =
        bind-Keeps InOrder _ _ (on_disk-Indexed item_bytes _ (validated_source_index-Indexed _))
          (enqueue_absent-Indexed e id now)

    enqueue_after_reset-Indexed :
        (e : CaptureEnvelope) (id : String) (now : ℕ) (old : Bool)
        → Keeps InOrder (enqueue_after_reset item_bytes digest e id now old)
    unfolding enqueue_after_reset
    enqueue_after_reset-Indexed e id now true = reads-Keeps InOrder _
    enqueue_after_reset-Indexed e id now false =
        bind-Keeps InOrder _ _
          (on_disk-Indexed item_bytes _ (identities_blocked-Indexed item_bytes digest _))
          (enqueue_unblocked-Indexed e id now)

    pub enqueue_if_source_absent-Indexed :
        (e : CaptureEnvelope) (id : String) (now : ℕ)
        → Keeps InOrder (enqueue_if_source_absent item_bytes digest e id now)
    unfolding enqueue_if_source_absent
    enqueue_if_source_absent-Indexed e id now =
        then-Keeps InOrder _ _ (accept_new-Indexed id)
          (bind-Keeps InOrder _ _ (reads-Keeps InOrder _) (enqueue_after_reset-Indexed e id now))
