-- ===== src/Queue/Delete/Closure.antt =====
-- After a deletion no item that can be read refers to what was deleted, and nothing else is gone.
use mathlib.Core.List.{List, [], ◌∷◌}
use mathlib.Core.Bool.{◌||◌}
use Prim.Native.Nat.{ℕ}
use mathlib.Core.Logic.{◌↔◌}
use mathlib.Core.Path.{◌≡◌, refl, sym, ap, subst, ◌∙◌}
use native.Mathlib.Omega.{arith}
use proven_loop.Shared.{
  Bool, true, false, not, String, String_eq, Pair_eq, ℕ_eq, List_eq, Option_eq, contains,
  if◌then◌else◌, any, all,
}
use proven_loop.Shared.Result.{Result, ok}
use proven_loop.Shared.Sorting.{Order, sort_by, all-sort_by, any-sort_by}
use proven_loop.Shared.Action.Outcomes.{bind-ok}
use proven_loop.Queue.Data.{CaptureQueueItem, QueueError}
use proven_loop.Queue.Disk.{Disk, read}
use proven_loop.Queue.Act.{Act, ◌>>=◌, ◌>>◌}
use proven_loop.Queue.State.{WindowsCaptureQueue}
use proven_loop.Queue.Open.{file_names}
use proven_loop.Queue.Indexing.{read-id}
use proven_loop.Queue.Related.{DeleteCaptureQueueOptions, Matching, item_ids, is_related}
use proven_loop.Queue.Related.Closed.{Finds, first_match_items-Finds}
use proven_loop.Queue.Delete.{
  DeleteCaptureQueueResult, is_nil, read_files, read_all, oldest_first, or_start, find_related,
  names_of, delete_matched, delete_named, delete_by_identifiers,
}
use proven_loop.Queue.State.{QueueAct, assert_initialized, on_disk}
use proven_loop.Queue.Act.{refuse_if, return}
use proven_loop.Queue.Data.{quarantine_unreviewed, not_initialized}
use proven_loop.Queue.Delete.Scanned.{read_files-all, read-file_names, read_all-inv}
use proven_loop.Shared.Sorting.{All-sort_by}
use proven_loop.Queue.Delete.Scanned.{IsItem, read_files-All}
use proven_loop.Queue.Related.Implicated.{HasNames, Implicated, match_items-Implicated}
use Prim.Native.Nat.{suc}
use proven_loop.Shared.{All, length}
use mathlib.Core.Option.{some}
use proven_loop.Queue.Related.{match_items}
use proven_loop.Queue.Delete.Gone.{delete_matched-Leaves}

contains-any :
    (name : String) (names : List String)
    → contains name names ≡ any (λ n. String_eq.is_same n name) names
contains-any name [] = refl
contains-any name (n ∷ names) = ground (arith, contains-any name names)

refused-inv :
    {S : Type 0} (test : Bool) (e : QueueError) (s s' : S) (u : Unit {0})
    → refuse_if test e s ≡ (ok u, s')
    → (test ≡ false) × (s' ≡ s)
refused-inv true e s s' u h = absurd (cc)
refused-inv false e s s' u h = (refl, cc)

module _ (item_bytes : CaptureQueueItem → ℕ) (locale units : String → String → Order) where
  contains-ids :
      (id : String) (names : List String) → contains id (sort_by units names) ≡ contains id names
  contains-ids id names =
      contains-any id (sort_by units names)
      ∙ any-sort_by units (λ n. String_eq.is_same n id) names
      ∙ sym (contains-any id names)

  -- The directory after a deletion that began with these names and gave this result.
  abbrev pub IsDeleted :
      DeleteCaptureQueueOptions → List String → DeleteCaptureQueueResult → Disk → Disk → Type 0
  IsDeleted options names result d d' =
      (all_names : List String) × ((name : String)
        → contains name names ≡ true
        → contains name all_names ≡ true)
      × ((id : String) (z : CaptureQueueItem)
          → read item_bytes id d' ≡ ok z
          → is_related options all_names z ≡ false)
      × ((id : String) (z : CaptureQueueItem)
          → (read item_bytes id d' ≡ ok z)
            ↔ ((contains id result.queue_item_ids ≡ false) × (read item_bytes id d ≡ ok z)))
      × ((id : String)
          → contains id result.queue_item_ids ≡ true
          → (z : CaptureQueueItem) × (read item_bytes id d ≡ ok z)
            × Implicated (IsItem item_bytes d) options names z
            × HasNames all_names z)

  module _ (digest : String → String → String → String)
      (before_delete : DeleteCaptureQueueResult → Result QueueError (Unit {0}))
      (options : DeleteCaptureQueueOptions) where
    found_by :
        (names : List String) (items : List CaptureQueueItem)
        → (match_items options
              (suc (length items))
              items
              (record { matched = []; normalized = names; changed = false })
            ≡ some (find_related item_bytes locale units options names items))
          × Finds options items
              (record { matched = []; normalized = names; changed = false })
              (find_related item_bytes locale units options names items)
    found_by names items =
        let start : Matching = record { matched = []; normalized = names; changed = false } in
        let (found, ends, finds) = first_match_items-Finds options items start in
        let same : found ≡ find_related item_bytes locale units options names items =
          ap (or_start item_bytes locale units start) (sym ends) in
        (ends ∙ ap some same, subst (Finds options items start) same finds)

    after_scan :
        (generated : String) (names : List String) (items : List CaptureQueueItem)
        (d scanned d' : Disk) (result : DeleteCaptureQueueResult)
        → read_all item_bytes locale units d ≡ (ok items, scanned)
        → delete_matched item_bytes locale units digest before_delete generated
            (find_related item_bytes locale units options names items)
            scanned
          ≡ (ok result, d')
        → IsDeleted options names result d d'
    after_scan generated names items d scanned d' result scan rest =
        let found = find_related item_bytes locale units options names items in
        let (ends, (closed, named)) = found_by names items in
        let (listed, (kept, fewer)) = read_all-inv item_bytes locale units d scanned items scan in
        let (gives, leaves) =
          delete_matched-Leaves item_bytes locale units digest before_delete generated found scanned
            d' result rest in
        let test : CaptureQueueItem → Bool = λ x.
          contains x.queue_item_id (item_ids found.matched)
          || not (is_related options found.normalized x) in
        let ids = file_names item_bytes d in
        let whole : all test (read_files item_bytes ids d).0 ≡ true =
          sym (
            all-sort_by (oldest_first item_bytes locale units) test (read_files item_bytes ids d).0)
          ∙ ap (λ l. all test l) (sym listed)
          ∙ closed in
        let deleted : (id : String)
            → contains id result.queue_item_ids ≡ contains id (item_ids found.matched) =
          λ id.
            ap (λ r. contains id r.queue_item_ids) gives
            ∙ contains-ids id (item_ids found.matched) in
        let read_items : All (IsItem item_bytes d) items =
          subst (All (IsItem item_bytes d)) (sym listed) (
            All-sort_by (oldest_first item_bytes locale units) (IsItem item_bytes d)
              (read_files item_bytes ids d).0 (read_files-All item_bytes ids d)) in
        (
          found.normalized,
          named,
          (λ id z r.
              let (apart, before) = (leaves id z).0 r in
              let there = fewer id z before in
              let fine =
                read_files-all item_bytes test ids d whole id z
                  (read-file_names item_bytes id d z there) there in
              ground (
                arith,
                fine,
                apart,
                ap (λ j. contains j (item_ids found.matched))
                    (read-id item_bytes id scanned z before),
              )),
          (λ id z. (
            λ r. let (apart, before) = (leaves id z).0 r in (deleted id ∙ apart, fewer id z before),
            λ h. (leaves id z).1 (sym (deleted id) ∙ h.0, kept id z h.1),
          )),
          (λ id gone.
              let (z, same, item, linked, has_names) =
                match_items-Implicated (IsItem item_bytes d) options names (suc (length items))
                  items found read_items ends id (sym (deleted id) ∙ gone) in
              (z, subst (λ j. read item_bytes j d ≡ ok z) same item, linked, has_names)),
        )

    delete_named-IsDeleted :
        (generated : String) (names : List String) (d d' : Disk) (result : DeleteCaptureQueueResult)
        → delete_named item_bytes locale units digest before_delete generated names options d
          ≡ (ok result, d')
        → IsDeleted options names result d d'
    unfolding delete_named ◌>>◌ ◌>>=◌
    delete_named-IsDeleted generated names d d' result h =
        let remove : List CaptureQueueItem → Act Disk DeleteCaptureQueueResult = λ items.
          delete_matched item_bytes locale units digest before_delete generated
            (find_related item_bytes locale units options names items) in
        let (u, d1, refused, rest) =
          bind-ok (refuse_if (not (is_nil d.quarantined)) quarantine_unreviewed)
            (λ _. read_all item_bytes locale units >>= remove) d result d' h in
        let (items, scanned, scan, end) =
          bind-ok (read_all item_bytes locale units) remove d1 result d' rest in
        let (_, same) =
          refused-inv (not (is_nil d.quarantined)) quarantine_unreviewed d d1 u refused in
        after_scan generated names items d scanned d' result
          (subst (λ e. read_all item_bytes locale units e ≡ (ok items, scanned)) same scan) end

    on_disk-inv :
        {A : Type 0} (q q' : WindowsCaptureQueue) (m : Act Disk A) (a : A)
        → on_disk m q ≡ (ok a, q')
        → m q.disk ≡ (ok a, q'.disk)
    on_disk-inv q q' m a h = ap (λ p. (p.0, p.1.disk)) h

    -- A deletion by identifiers that ends without an error, and has a name that is not blank, leaves
    -- what can be read as it was, but for the items whose ids it returns. There is a list of names with
    -- all that were given, and the event, the key and the id of every item that was deleted, such that
    -- no item that is left bears one of them as its key or event or parent, or is among the items or
    -- sessions of the options: so nothing that is left refers to what was deleted. Each id that it
    -- returns is that of an item that could be read and is linked to what was given: it is named
    -- itself, or refers to such an item directly or through others.
    pub delete_by_identifiers-IsDeleted :
        (trim : String → String) (generated : String) (identifiers : List String)
        (q q' : WindowsCaptureQueue) (result : DeleteCaptureQueueResult)
        → delete_by_identifiers item_bytes locale units digest before_delete trim generated
            identifiers options q
          ≡ (ok result, q')
        → is_nil (names_of trim identifiers) ≡ false
        → IsDeleted options (names_of trim identifiers) result q.disk q'.disk
    unfolding delete_by_identifiers ◌>>◌ ◌>>=◌
    delete_by_identifiers-IsDeleted trim generated identifiers q q' result h some_name =
        let names = names_of trim identifiers in
        let body : QueueAct DeleteCaptureQueueResult =
          if is_nil names
          then return (record { identities = []; queue_item_ids = [] })
          else on_disk
              (delete_named item_bytes locale units digest before_delete generated names options) in
        let (u, q1, refused, rest) = bind-ok assert_initialized (λ _. body) q result q' h in
        let (_, same) = refused-inv (not q.initialized) not_initialized q q1 u refused in
        let named : body
            ≡ on_disk (
                delete_named item_bytes locale units digest before_delete generated names options) =
          ap
            (λ b.
              if b
              then return (record { identities = []; queue_item_ids = [] })
              else on_disk (
                  delete_named item_bytes locale units digest before_delete generated names
                    options))
            some_name in
        let runs_named =
          on_disk-inv q q'
            (delete_named item_bytes locale units digest before_delete generated names options)
            result (sym (ap (λ b. b q) named) ∙ ap (λ p. body p) (sym same) ∙ rest) in
        delete_named-IsDeleted generated names q.disk q'.disk result runs_named
