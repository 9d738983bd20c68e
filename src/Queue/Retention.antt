-- ===== src/Queue/Retention.antt =====
-- What `pruneAcknowledged` may remove.
use proven_loop.Shared.Action.Keeps.{
  Keeps, bind-Keeps, then-Keeps, refuse_if-Keeps, reads-Keeps, keeps, runs,
}
use proven_loop.Queue.Disk.{remove_state_indexes, sort_names}
use proven_loop.Queue.Disk.{drop_acknowledged}
use proven_loop.Shared.{
  ℕ, ◌≡◌, ◌≢◌, refl, sym, ap, subst, true, false, List, [], ◌∷◌, Option, none, some, String,
  String_eq, Pair_eq, ℕ_eq, if◌then◌else◌, if_cases, arith,
}
use proven_loop.Shared.Result.{Result, ok, err}
use proven_loop.Queue.Data.{CaptureQueueState, acknowledged, CaptureQueueItem, QueueError}
use proven_loop.Queue.Disk.{Disk, apply, apply_all, active_name, read}
use proven_loop.Queue.Act.{◌>>=◌, ◌>>◌}
use proven_loop.Queue.State.{WindowsCaptureQueue}
use proven_loop.Queue.Indexing.{read-id}
use proven_loop.Shared.Assoc.{lookup-delete}
use proven_loop.Queue.Disk.{IndexName, drop_file, settle_unread, sort_names}
use proven_loop.Queue.Data.{corrupt_item}
use proven_loop.Queue.Search.{Kept}
use proven_loop.Shared.{◌≢◌}
use proven_loop.Shared.{
  ℕ, ◌≡◌, refl, sym, ap, true, false, List, [], ◌∷◌, Option, none, some, String, String_eq, Pair_eq,
  ℕ_eq, if◌then◌else◌, if_cases, arith,
}
use proven_loop.Shared.Assoc.{delete, unlink, lookup-delete}
use proven_loop.Queue.Data.{CaptureQueueState, CaptureQueueItem, QueueError, corrupt_item}
use proven_loop.Queue.Disk.{
  IndexName, Disk, drop_file, apply, apply_all, active_name, settle_unread, read,
}
use proven_loop.Queue.Act.{◌>>=◌, ◌>>◌}
use proven_loop.Queue.State.{WindowsCaptureQueue}
use proven_loop.Queue.Disk.{
  remove_state_indexes, sort_names, acknowledged_or_drop, acknowledged_or_settled,
  read_acknowledged, drop_acknowledged_of,
}
use proven_loop.Queue.Indexing.{read-id}
use proven_loop.Queue.Prune.{
  is_kept_until, collects, keep_old, collect, remove_all, prune_collected, prune_open,
  prune_acknowledged,
}
use proven_loop.Shared.{All}
use proven_loop.Queue.Disk.{drop_acknowledged_of}
use proven_loop.Queue.Enqueue.{remove_source_index_if_owned}
use proven_loop.Queue.Search.{same_files-Kept, quarantine-Kept}

module _ (item_bytes : CaptureQueueItem → ℕ) where
  acknowledged_or_drop-Kept :
      (n : IndexName) (state : CaptureQueueState) (x : CaptureQueueItem) (d : Disk)
      → Kept item_bytes d (acknowledged_or_drop item_bytes n state x d).1
  unfolding read apply
  acknowledged_or_drop-Kept n (acknowledged at) x d = λ id z r. r
  acknowledged_or_drop-Kept n _ x d = λ id z r. r

  settle-Kept :
      (e : QueueError) (n : IndexName) (d : Disk)
      → read item_bytes n.1 d ≡ err e
      → Kept item_bytes d (apply (drop_acknowledged n) (settle_unread e n.1 d))
  unfolding settle_unread apply read
  settle-Kept corrupt_item n d r = quarantine-Kept item_bytes n.1 d corrupt_item r
  settle-Kept _ n d r = λ id z s. s

  acknowledged-Kept :
      (n : IndexName) (r : Result QueueError CaptureQueueItem) (d : Disk)
      → read item_bytes n.1 d ≡ r
      → Kept item_bytes d (acknowledged_or_settled item_bytes n r d).1
  acknowledged-Kept n (ok x) d h = acknowledged_or_drop-Kept n x.state x d
  acknowledged-Kept n (err e) d h = settle-Kept e n d h

  acknowledged_or_drop-found :
      (n : IndexName) (state : CaptureQueueState) (x y : CaptureQueueItem) (d : Disk)
      → (acknowledged_or_drop item_bytes n state x d).0 ≡ some y
      → x ≡ y
  acknowledged_or_drop-found n (acknowledged at) x y d h = cc
  acknowledged_or_drop-found n _ x y d h = absurd (cc)

  acknowledged-found :
      (n : IndexName) (r : Result QueueError CaptureQueueItem) (d : Disk) (y : CaptureQueueItem)
      → (acknowledged_or_settled item_bytes n r d).0 ≡ some y
      → r ≡ ok y
  acknowledged-found n (ok x) d y h = ap ok (acknowledged_or_drop-found n x.state x y d h)
  acknowledged-found n (err e) d y h = absurd (cc)

  -- An item that the first loop collected: it is readable, and its retention is over.
  abbrev Old : WindowsCaptureQueue → ℕ → Disk → CaptureQueueItem → Type 0
  Old q now d y = (read item_bytes y.queue_item_id d ≡ ok y) × (collects q now y.state ≡ true)

  abbrev Collected : WindowsCaptureQueue → ℕ → Disk → List CaptureQueueItem × Disk → Type 0
  Collected q now d r = Kept item_bytes d r.1 × All (Old q now r.1) r.0

  keep_old-Old :
      (q : WindowsCaptureQueue) (now : ℕ) (found : Option CaptureQueueItem)
      (xs : List CaptureQueueItem) (d : Disk)
      → ((y : CaptureQueueItem) → found ≡ some y → read item_bytes y.queue_item_id d ≡ ok y)
      → All (Old q now d) xs
      → All (Old q now d) (keep_old item_bytes q now found xs)
  keep_old-Old q now none xs d h a = a
  keep_old-Old q now (some y) xs d h a =
      if_cases (λ ys. All (Old q now d) ys) (collects q now y.state) (λ t. ((h y refl, t), a))
        (λ f. a)

  collect-Collected :
      (q : WindowsCaptureQueue) (now : ℕ) (ns : List IndexName) (d : Disk)
      → Collected q now d (collect item_bytes q now ns d)
  unfolding collect read_acknowledged
  collect-Collected q now [] d = ((λ id z r. r), tt)
  collect-Collected q now (n ∷ ns) d =
      let (k, a) = collect-Collected q now ns (read_acknowledged item_bytes n d).1 in
      let k0 = acknowledged-Kept n (read item_bytes n.1 d) d refl in
      if_cases (λ (r : List CaptureQueueItem × Disk). Collected q now d r) (is_kept_until q now n.0)
        (λ t. ((λ id z r. r), tt))
        (λ f. (
          (λ id z r. k id z (k0 id z r)),
          keep_old-Old q now _ _ _
              (λ y e.
                let r = acknowledged-found n (read item_bytes n.1 d) d y e in
                let i = read-id item_bytes n.1 d y r in
                k y.queue_item_id y (k0 y.queue_item_id y (cc)))
              a,
        ))

  pub remove_source-files :
      (key id : String) (d : Disk) → (remove_source_index_if_owned key id d).files ≡ d.files
  unfolding remove_source_index_if_owned apply
  remove_source-files key id d = ground arith

  pub dropped-files :
      (state : CaptureQueueState) (id : String) (d : Disk)
      → (apply_all (drop_acknowledged_of state id) d).files ≡ d.files
  unfolding apply_all apply
  dropped-files (acknowledged at) id d = refl
  dropped-files _ id d = refl

  remove-read :
      (y z : CaptureQueueItem) (id : String) (d : Disk)
      → y.queue_item_id ≢ id
      → read item_bytes id d ≡ ok z
      → read item_bytes id (apply_all (drop_file y.queue_item_id ∷ remove_state_indexes y) d) ≡ ok z
  unfolding remove_state_indexes apply_all apply read
  remove-read y z id d ne r = ground (
    arith,
    ne,
    r,
    lookup-delete y.queue_item_id id d.files,
    String_eq.is_same_iff y.queue_item_id id,
    dropped-files y.state y.queue_item_id (record d {
      files = delete y.queue_item_id d.files;
      active = unlink (active_name y) d.active;
    }),
  )

  ReadAs : String → CaptureQueueItem → Disk → Type 0
  ReadAs id z d = read item_bytes id d ≡ ok z

  remove_all-read :
      (id : String) (z : CaptureQueueItem) (ys : List CaptureQueueItem)
      → All (λ y. y.queue_item_id ≢ id) ys
      → Keeps (ReadAs id z) (remove_all item_bytes ys)
  unfolding remove_all ReadAs
  remove_all-read id z [] a = reads-Keeps (ReadAs id z) _
  remove_all-read id z (y ∷ ys) (ne, a) =
      bind-Keeps (ReadAs id z) _ _ (reads-Keeps (ReadAs id z) _) λ there.
        then-Keeps (ReadAs id z) _ _ (refuse_if-Keeps (ReadAs id z) _ _) (
          then-Keeps (ReadAs id z) _ _ (keeps (ReadAs id z) _ λ d r. remove-read y z id d ne r) (
            then-Keeps (ReadAs id z) _ _
              (keeps (ReadAs id z) _
                λ d r. same_files-Kept item_bytes d _ (remove_source-files _ _ d) id z r)
              (remove_all-read id z ys a)))

  read_same :
      (id : String) (d : Disk) (y z : CaptureQueueItem)
      → read item_bytes id d ≡ ok y
      → read item_bytes id d ≡ ok z
      → y ≡ z
  read_same id d y z r s = cc

  clash :
      (q : WindowsCaptureQueue) (now : ℕ) (y z : CaptureQueueItem) (id : String) (d : Disk)
      → y.queue_item_id ≡ id
      → read item_bytes id d ≡ ok z
      → read item_bytes y.queue_item_id d ≡ ok y
      → collects q now z.state ≡ false
      → collects q now y.state ≢ true
  clash q now y z id d e r r' c c' = let same = read_same id d y z (cc) r in absurd (cc)

  other_ids :
      (q : WindowsCaptureQueue) (now : ℕ) (id : String) (z : CaptureQueueItem) (d : Disk)
      (ys : List CaptureQueueItem)
      → read item_bytes id d ≡ ok z
      → collects q now z.state ≡ false
      → All (Old q now d) ys
      → All (λ y. y.queue_item_id ≢ id) ys
  other_ids q now id z d [] r c a = tt
  other_ids q now id z d (y ∷ ys) r c ((r', c'), a) =
      (λ e. absurd (clash q now y z id d e r r' c c'), other_ids q now id z d ys r c a)

  prune_collected-read :
      (id : String) (z : CaptureQueueItem) (ys : List CaptureQueueItem)
      → All (λ y. y.queue_item_id ≢ id) ys
      → Keeps (ReadAs id z) (prune_collected item_bytes ys)
  unfolding prune_collected
  prune_collected-read id z ys a =
      then-Keeps (ReadAs id z) _ _ (remove_all-read id z ys a) (reads-Keeps (ReadAs id z) _)

  prune_open-read :
      (now : ℕ) (id : String) (z : CaptureQueueItem) (q : WindowsCaptureQueue)
      → read item_bytes id q.disk ≡ ok z
      → collects q now z.state ≡ false
      → read item_bytes id (prune_open item_bytes now q).1.disk ≡ ok z
  unfolding prune_open ReadAs
  prune_open-read now id z q r c =
      let (k, a) = collect-Collected q now (sort_names q.disk.acknowledged_names) q.disk in
      let r' = k id z r in
      runs (ReadAs id z) _ (prune_collected-read id z _ (other_ids q now id z _ _ r' c a)) _ r'

  prune_acknowledged-initialized :
      (now : ℕ) (q : WindowsCaptureQueue)
      → (prune_acknowledged item_bytes now q).1
        ≡ (if q.initialized then (prune_open item_bytes now q).1 else q)
  unfolding prune_acknowledged ◌>>◌ ◌>>=◌
  prune_acknowledged-initialized now q = ground arith

  -- Pruning removes nothing but acknowledged items whose retention is over: every item that could be
  -- read, and is not such a one, can still be read and is the same, whether or not pruning fails.
  pub prune_acknowledged-keeps :
      (now : ℕ) (id : String) (z : CaptureQueueItem) (q : WindowsCaptureQueue)
      → read item_bytes id q.disk ≡ ok z
      → collects q now z.state ≡ false
      → read item_bytes id (prune_acknowledged item_bytes now q).1.disk ≡ ok z
  prune_acknowledged-keeps now id z q r c =
      subst (λ q'. read item_bytes id q'.disk ≡ ok z) (sym (prune_acknowledged-initialized now q))
        (if_cases (λ (q' : WindowsCaptureQueue). read item_bytes id q'.disk ≡ ok z) q.initialized
          (λ t. prune_open-read now id z q r c) (λ f. r))
