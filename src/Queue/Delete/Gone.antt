-- ===== src/Queue/Delete/Gone.antt =====
-- What a deletion from the matching on leaves of the items that can be read.
use mathlib.Core.List.{List, [], ◌∷◌}
use Prim.Native.Nat.{ℕ}
use mathlib.Core.Logic.{◌↔◌}
use mathlib.Core.Path.{◌≡◌, refl, sym, ap, subst, ◌∙◌}
use native.Mathlib.Omega.{arith}
use proven_loop.Shared.{
  Bool, false, String, String_eq, Pair_eq, ℕ_eq, List_eq, Option_eq, contains, if◌then◌else◌,
  if_cases,
}
use proven_loop.Shared.Assoc.{delete, lookup-delete}
use proven_loop.Shared.Result.{Result, ok, err}
use proven_loop.Shared.Sorting.{Order, sort_by}
use proven_loop.Shared.Action.Keeps.{runs}
use proven_loop.Shared.Action.Outcomes.{bind-ok}
use proven_loop.Shared.Action.{continue}
use proven_loop.Queue.Data.{CaptureQueueItem, QueueError}
use proven_loop.Queue.Disk.{
  Disk, drop_file, drop_source, apply, apply_all, remove_state_indexes, read,
}
use proven_loop.Queue.Act.{Act, ◌>>=◌, ◌>>◌}
use proven_loop.Queue.Identity.{block_identities_exclusive, CaptureQueueIdentity}
use proven_loop.Queue.Blocking.{block_identities_exclusive-Keeps}
use proven_loop.Queue.Enqueue.{remove_source_index_if_owned}
use proven_loop.Queue.Open.{file_names}
use proven_loop.Queue.Search.{same_files-Kept}
use proven_loop.Queue.Retention.{remove_source-files, dropped-files}
use proven_loop.Queue.Vouched.{same_files-Fewer}
use proven_loop.Queue.Related.{Matching, item_ids}
use proven_loop.Queue.Delete.{
  DeleteCaptureQueueResult, deleted_identities, delete_items, delete_sources, read_files, read_all,
  oldest_first, result_of, is_stale, delete_matched,
}
use proven_loop.Queue.Delete.Scanned.{Same, read_files-Same}

module _ (item_bytes : CaptureQueueItem → ℕ) where
  abbrev delete_item : CaptureQueueItem → Disk → Disk
  delete_item x d =
      remove_source_index_if_owned x.envelope.deduplication_key x.queue_item_id
        (apply_all (drop_file x.queue_item_id ∷ remove_state_indexes x) d)

  delete_item-files :
      (x : CaptureQueueItem) (d : Disk) → (delete_item x d).files ≡ delete x.queue_item_id d.files
  unfolding apply_all apply remove_state_indexes
  delete_item-files x d =
      remove_source-files item_bytes x.envelope.deduplication_key x.queue_item_id
        (apply_all (drop_file x.queue_item_id ∷ remove_state_indexes x) d)
      ∙ dropped-files item_bytes x.state x.queue_item_id _

  read-delete_item :
      (x : CaptureQueueItem) (d : Disk) (id : String) (z : CaptureQueueItem)
      → (read item_bytes id (delete_item x d) ≡ ok z)
        ↔ ((String_eq.is_same x.queue_item_id id ≡ false) × (read item_bytes id d ≡ ok z))
  unfolding read
  read-delete_item x d id z = (
    λ h. ground (arith, h, delete_item-files x d, lookup-delete x.queue_item_id id d.files),
    λ h. ground (arith, h, delete_item-files x d, lookup-delete x.queue_item_id id d.files),
  )

  read-delete_items :
      (items : List CaptureQueueItem) (d : Disk) (id : String) (z : CaptureQueueItem)
      → (read item_bytes id (delete_items items d) ≡ ok z)
        ↔ ((contains id (item_ids items) ≡ false) × (read item_bytes id d ≡ ok z))
  unfolding delete_items
  read-delete_items [] d id z = ((λ h. (refl, h)), (λ h. h.1))
  read-delete_items (x ∷ items) d id z = (
    λ h.
        let (apart, there) = (read-delete_items items (delete_item x d) id z).0 h in
        let (other, r) = (read-delete_item x d id z).0 there in (ground arith, r),
    λ h.
        (read-delete_items items (delete_item x d) id z).1
          (ground arith, (read-delete_item x d id z).1 (ground arith, h.1)),
  )

  delete_sources-files :
      (test : String → String → Bool) (sources : List (String × String)) (d : Disk)
      → (delete_sources test sources d).files ≡ d.files
  unfolding delete_sources apply
  delete_sources-files test [] d = refl
  delete_sources-files test ((key, id) ∷ sources) d =
      delete_sources-files test sources (if test key id then apply (drop_source key) d else d)
      ∙ if_cases (λ (e : Disk). e.files ≡ d.files) (test key id) (λ _. refl) (λ _. refl)

  -- What a deletion of these items leaves: what could be read, and is none of them.
  abbrev pub Leaves : List CaptureQueueItem → Disk → Disk → Type 0
  Leaves items d d' =
      (id : String) (z : CaptureQueueItem)
      → (read item_bytes id d' ≡ ok z)
        ↔ ((contains id (item_ids items) ≡ false) × (read item_bytes id d ≡ ok z))

  -- The changes of a deletion, one after another: the identities' files, the items, a scan, and the
  -- source indexes.
  all_steps :
      (items : List CaptureQueueItem) (d blocked scanned last : Disk)
      → blocked.files ≡ d.files
      → Same item_bytes (delete_items items blocked) scanned
      → last.files ≡ scanned.files
      → Leaves items d last
  all_steps items d blocked scanned last same (kept, fewer) end id z = (
    λ h.
        let (apart, r) =
          (read-delete_items items blocked id z).0
            (fewer id z (same_files-Fewer item_bytes scanned last end id z h)) in
        (apart, same_files-Fewer item_bytes d blocked same id z r),
    λ h. same_files-Kept item_bytes scanned last end id z (
        kept id z (
          (read-delete_items items blocked id z).1
            (h.0, same_files-Kept item_bytes d blocked same id z h.1))),
  )

  module _ (locale units : String → String → Order) where
    -- The disk after the items, a scan, and the source indexes.
    abbrev swept : Matching → Disk → Disk
    swept m d =
        let scan =
          read_files item_bytes (file_names item_bytes (delete_items m.matched d))
            (delete_items m.matched d) in
        delete_sources
          (is_stale item_bytes locale units m.normalized
            (item_ids (sort_by (oldest_first item_bytes locale units) scan.0)))
          scan.1.sources scan.1

    swept-Leaves :
        (m : Matching) (d blocked : Disk)
        → blocked.files ≡ d.files
        → Leaves m.matched d (swept m blocked)
    swept-Leaves m d blocked same =
        let deleted = delete_items m.matched blocked in
        let scan = read_files item_bytes (file_names item_bytes deleted) deleted in
        all_steps m.matched d blocked scan.1 (swept m blocked) same
          (read_files-Same item_bytes (file_names item_bytes deleted) deleted)
          (delete_sources-files
            (is_stale item_bytes locale units m.normalized
              (item_ids (sort_by (oldest_first item_bytes locale units) scan.0)))
            scan.1.sources scan.1)

    abbrev sweep : Matching → Unit {0} → Act Disk DeleteCaptureQueueResult
    sweep m u d = (ok (result_of item_bytes locale units m.matched), swept m d)

    sweep-asked :
        (m : Matching) (answer : Result QueueError (Unit {0})) (d d' : Disk)
        (r : DeleteCaptureQueueResult)
        → continue (sweep m) (answer, d) ≡ (ok r, d')
        → (r ≡ result_of item_bytes locale units m.matched) × (d' ≡ swept m d)
    sweep-asked m (ok u) d d' r h = (cc, sym (ap (λ p. p.1) h))
    sweep-asked m (err e) d d' r h = absurd (cc)

    module _ (digest : String → String → String → String)
        (before_delete : DeleteCaptureQueueResult → Result QueueError (Unit {0})) where
      block-files :
          (generated : String) (is : List CaptureQueueIdentity) (d : Disk)
          → (block_identities_exclusive digest generated is d).1.files ≡ d.files
      block-files generated is d =
          runs (λ (e : Disk). e.files ≡ d.files) _
            (block_identities_exclusive-Keeps (λ (e : Disk). e.files ≡ d.files)
              (λ e key verifier tombstones h. h) digest generated is)
            d refl

      pub delete_matched-Leaves :
          (generated : String) (m : Matching) (d d' : Disk) (r : DeleteCaptureQueueResult)
          → delete_matched item_bytes locale units digest before_delete generated m d ≡ (ok r, d')
          → (r ≡ result_of item_bytes locale units m.matched) × Leaves m.matched d d'
      unfolding delete_matched ◌>>◌ ◌>>=◌ read_all
      delete_matched-Leaves generated m d d' r h =
          let identities = deleted_identities m.matched in
          let answer = before_delete (result_of item_bytes locale units m.matched) in
          let (u, blocked, start, rest) =
            bind-ok (block_identities_exclusive digest generated identities)
              (λ _ e. continue (sweep m) (answer, e)) d r d' h in
          let (same, end) = sweep-asked m answer blocked d' r rest in
          let files =
            ap (λ (p : Result QueueError (Unit {0}) × Disk). p.1.files) (sym start)
            ∙ block-files generated identities d in
          (same, subst (Leaves m.matched d) (sym end) (swept-Leaves m d blocked files))
