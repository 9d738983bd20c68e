-- ===== src/Queue/Opening.antt =====
-- Opening leaves the active index complete, and so does every sequence of operations.
use proven_loop.Shared.{arith}
use proven_loop.Shared.Assoc.{lookup}
use proven_loop.Shared.Action.Keeps.{refuse_if-Keeps}
use proven_loop.Queue.Reset
use proven_loop.Queue.Reset.{remove_records}
use proven_loop.Queue.Calls.{clear_all_records}
use proven_loop.Shared.{ℕ}
use proven_loop.Shared.{
  ℕ, ◌≡◌, refl, sym, ap, ◌∙◌, true, List, [], ◌∷◌, Option, none, some, String, String_eq, Pair_eq,
  ℕ_eq, if_cases,
}
use proven_loop.Shared.Result.{Result, ok, err}
use proven_loop.Queue.Data.{CaptureQueueItem, terminal_queue_state, QueueError, corrupt_item}
use proven_loop.Queue.Disk.{Disk, update_state_index, read}
use proven_loop.Queue.Index.{Indexed}
use proven_loop.Queue.Crash.{all-Indexed, update_state_index-SafeAll}
use proven_loop.Shared.Action.Keeps.{Keeps, bind-Keeps, then-Keeps, reads-Keeps, keeps, runs}
use proven_loop.Queue.Act.{◌>>=◌, ◌>>◌}
use proven_loop.Queue.Reset.{reset_records}
use proven_loop.Queue.Reset.Removed.{emptied}
use proven_loop.Queue.Reset.Inventory.{reset_records-empties}
use proven_loop.Shared.{subst, sym, some}
use proven_loop.Shared.Result.{Result}
use proven_loop.Queue.Data.{QueueError}
use proven_loop.Queue.State.{WindowsCaptureQueue}
use proven_loop.Queue.Indexing.{Good}
use proven_loop.Queue.Data.{item_not_found, invalid_item_id}
use proven_loop.Queue.Indexing.{quarantine-Indexed}
use proven_loop.Queue.Blocking.{on_disk-Indexed, assert-Indexed, block_identities-Indexed}
use proven_loop.Queue.Entering.{
  reserve_source-Indexed, validated_source_index-Indexed, enqueue-Indexed,
  enqueue_if_source_absent-Indexed,
}
use proven_loop.Queue.Indexing.{same_item}
use proven_loop.Queue.Claiming.{index_passing}
use proven_loop.Queue.Passing.{
  claim_next-Keeping, acknowledge-Keeping, retry_claim-Keeping, retry_after_commit-Keeping,
  dead_letter_claim-Keeping, recover_expired_claims-Keeping,
}
use proven_loop.Queue.Pruning.{
  prune_acknowledged-Indexed, begin_deletion_barrier-Indexed, end_deletion_barrier-Indexed,
  active_deletion_barrier-Indexed,
}
use proven_loop.Queue.Calls.{
  QueueCall, call, call_all, enqueue, enqueue_if_source_absent, claim_next, acknowledge,
  retry_claim, retry_after_commit, dead_letter_claim, recover_expired_claims, prune_acknowledged,
  begin_deletion_barrier, end_deletion_barrier, active_deletion_barrier, block_identities,
}
use proven_loop.Queue.Open.{
  own_source, claim_source_index, visit, iterate_items, index_item, file_names, build_indexes,
  initialize, get,
}

module _ (item_bytes : CaptureQueueItem → ℕ) where
  abbrev AtRest : Disk → Type 0
  AtRest d = Indexed item_bytes d

  abbrev InOrder : WindowsCaptureQueue → Type 0
  InOrder q = Good item_bytes q

  own_source-Indexed :
      (existing : Option String) (key id : String) → Keeps AtRest (own_source existing key id)
  own_source-Indexed none key id = keeps AtRest _ (reserve_source-Indexed item_bytes none key id)
  own_source-Indexed (some owner) key id = reads-Keeps AtRest _

  claim_source_index-Indexed :
      (key id : String) → Keeps AtRest (claim_source_index item_bytes key id)
  unfolding claim_source_index
  claim_source_index-Indexed key id =
      bind-Keeps AtRest _ _ (validated_source_index-Indexed item_bytes key)
        (λ existing. own_source-Indexed existing key id)

  -- The item was just read, so its index may follow its state.
  index_item-Indexed :
      (id : String) (x : CaptureQueueItem) (d : Disk)
      → read item_bytes id d ≡ ok x
      → AtRest d
      → AtRest (index_item item_bytes x d).1
  unfolding index_item ◌>>◌ ◌>>=◌
  index_item-Indexed id x d r i =
      runs AtRest _ (claim_source_index-Indexed x.envelope.deduplication_key x.queue_item_id) _ (
        all-Indexed item_bytes (update_state_index x) d
          (update_state_index-SafeAll item_bytes x d λ t y s.
            ap (λ z. terminal_queue_state z.state) (sym (same_item item_bytes id d x y r s)) ∙ t)
          i)

  visit-Indexed :
      (id : String) (r : Result QueueError CaptureQueueItem) (d : Disk)
      → read item_bytes id d ≡ r
      → AtRest d
      → AtRest (visit item_bytes id r (index_item item_bytes) d).1
  unfolding visit
  visit-Indexed id (ok x) d h i = index_item-Indexed id x d h i
  visit-Indexed id (err item_not_found) d h i = i
  visit-Indexed id (err corrupt_item) d h i = quarantine-Indexed item_bytes id d i
  visit-Indexed id (err invalid_item_id) d h i = quarantine-Indexed item_bytes id d i
  visit-Indexed id (err _) d h i = i

  iterate_items-Indexed :
      (ids : List String) → Keeps AtRest (iterate_items item_bytes ids (index_item item_bytes))
  unfolding iterate_items
  iterate_items-Indexed [] = reads-Keeps AtRest _
  iterate_items-Indexed (id ∷ ids) =
      then-Keeps AtRest _ _ (keeps AtRest _ λ d i. visit-Indexed id (read item_bytes id d) d refl i)
        (iterate_items-Indexed ids)

  marked-Indexed : (d : Disk) → AtRest d → AtRest (record d { indexes_v2 = true })
  unfolding Indexed read
  marked-Indexed d i = i

  build_indexes-Indexed : Keeps AtRest (build_indexes item_bytes)
  unfolding build_indexes
  build_indexes-Indexed = keeps AtRest _ λ d.
      runs AtRest _
        (then-Keeps AtRest _ _ (iterate_items-Indexed (file_names item_bytes d))
          (keeps AtRest _ marked-Indexed))
        d

  initialize-Indexed : Keeps InOrder (initialize item_bytes)
  unfolding initialize
  initialize-Indexed = keeps InOrder _ λ q i.
      if_cases (λ (p : Result QueueError (Unit {0}) × WindowsCaptureQueue). InOrder p.1)
        q.disk.indexes_v2 (λ t. i)
        (λ f.
          runs InOrder _ (on_disk-Indexed item_bytes _ build_indexes-Indexed)
            (record q { initialized = true }) i)

  get-Indexed : (id : String) → Keeps InOrder (get item_bytes id)
  unfolding get
  get-Indexed id = then-Keeps InOrder _ _ (assert-Indexed item_bytes) (reads-Keeps InOrder _)

  emptied-Indexed : (d : Disk) → AtRest (emptied d)
  unfolding Indexed read lookup
  emptied-Indexed d x r l = absurd (ground (arith, r))

  reset_records-Indexed : (cutoff : ℕ) → Keeps InOrder (reset_records cutoff)
  reset_records-Indexed cutoff = keeps InOrder _ λ q i.
      subst (λ (r : Result QueueError ℕ × WindowsCaptureQueue). InOrder r.1)
        (sym (reset_records-empties cutoff q))
        (emptied-Indexed (record q.disk { reset_cutoff = some cutoff }))

  clear_all_records-Indexed : (cutoff now : ℕ) → Keeps InOrder (Reset.clear_all_records cutoff now)
  unfolding Reset.clear_all_records
  clear_all_records-Indexed cutoff now = then-Keeps InOrder _ _ (assert-Indexed item_bytes) (
      then-Keeps InOrder _ _ (refuse_if-Keeps InOrder _ _) (
        bind-Keeps InOrder _ _ (reads-Keeps InOrder _) λ barrier.
          then-Keeps InOrder _ _ (refuse_if-Keeps InOrder _ _) (
            bind-Keeps InOrder _ _ (reads-Keeps InOrder _) λ previous.
              then-Keeps InOrder _ _ (refuse_if-Keeps InOrder _ _) (reset_records-Indexed cutoff))))

  module _ (digest : String → String → String → String) where
    call-Indexed :
        (c : QueueCall) (q : WindowsCaptureQueue) → InOrder q → InOrder (call item_bytes digest c q)
    unfolding call
    call-Indexed QueueCall.initialize = runs InOrder _ initialize-Indexed
    call-Indexed (enqueue e id now) = runs InOrder _ (enqueue-Indexed item_bytes digest e id now)
    call-Indexed (enqueue_if_source_absent e id now) =
        runs InOrder _ (enqueue_if_source_absent-Indexed item_bytes digest e id now)
    call-Indexed (QueueCall.get id) = runs InOrder _ (get-Indexed id)
    call-Indexed (claim_next owner now) =
        runs InOrder _ (claim_next-Keeping item_bytes (index_passing item_bytes) owner now)
    call-Indexed (acknowledge c checked now) =
        runs InOrder _
          (acknowledge-Keeping item_bytes (index_passing item_bytes) c checked now (λ _. tt))
    call-Indexed (retry_claim c error at checked now) =
        runs InOrder _
          (retry_claim-Keeping item_bytes (index_passing item_bytes) c error at checked now)
    call-Indexed (retry_after_commit c error checked now) =
        runs InOrder _
          (retry_after_commit-Keeping item_bytes (index_passing item_bytes) c error checked now)
    call-Indexed (dead_letter_claim c error checked now) =
        runs InOrder _
          (dead_letter_claim-Keeping item_bytes (index_passing item_bytes) c error checked now)
    call-Indexed (recover_expired_claims now later) =
        runs InOrder _
          (recover_expired_claims-Keeping item_bytes (index_passing item_bytes) now later)
    call-Indexed (prune_acknowledged now) =
        runs InOrder _ (prune_acknowledged-Indexed item_bytes now)
    call-Indexed (begin_deletion_barrier id) =
        runs InOrder _ (begin_deletion_barrier-Indexed item_bytes id)
    call-Indexed (end_deletion_barrier id) =
        runs InOrder _ (end_deletion_barrier-Indexed item_bytes id)
    call-Indexed active_deletion_barrier =
        runs InOrder _ (active_deletion_barrier-Indexed item_bytes)
    call-Indexed (clear_all_records cutoff now) =
        runs InOrder _ (clear_all_records-Indexed cutoff now)
    call-Indexed (block_identities generated is) =
        runs InOrder _ (block_identities-Indexed item_bytes digest generated is)

    -- Any sequence of the operations that QueueCall names (opening, entering, claims and their ends,
    -- recovery, pruning, the deletion barrier, blocking, the reset), those that throw included, keeps
    -- every item that can be read and is not finished in the active index, if that was so before.
    pub call_all-Indexed :
        (cs : List QueueCall) (q : WindowsCaptureQueue)
        → Indexed item_bytes q.disk
        → Indexed item_bytes (call_all item_bytes digest cs q).disk
    unfolding call_all
    call_all-Indexed [] q i = i
    call_all-Indexed (c ∷ cs) q i =
        call_all-Indexed cs (call item_bytes digest c q) (call-Indexed c q i)
