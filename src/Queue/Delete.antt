-- ===== src/Queue/Delete.antt =====
-- `deleteByIdentifiers` with `#readAll`. The directory has no temporary files, so what the code does
-- about those is left out; `trim`, `locale` and `units` are trim(), localeCompare and the order of
-- Array.prototype.sort.
pub mod Scanned
pub mod Gone
pub mod Closure
mod Tests
use mathlib.Core.List.{List, [], ◌∷◌}
use text.Mathlib.Text.{◌==◌ as same_text}
use text.Mathlib.TextEquality.{eq_iff}
use mathlib.Core.Bool.{◌&&◌, ◌||◌}
use Prim.Native.Nat.{ℕ, zero, suc, ◌+◌, ◌-◌, ◌*◌, ◌≤◌, ◌<◌}
use mathlib.Core.Logic.{◌≢◌, ◌↔◌, ◌⊎◌, inl, inr, ⊎_elim, ∥∥₁_elim}
use mathlib.Core.Option.{Option, none, some}
use mathlib.Core.Path.{◌≡◌, refl, sym, ap, subst, ◌∙◌}
use native.Mathlib.Omega.{arith}
use proven_loop.Shared.{
  Bool, true, false, not, String, String_eq, Pair_eq, ℕ_eq, List_eq, Option_eq, Eq, ◌==◌, contains,
  without, if◌then◌else◌, length, total, take, keep, any, all, bit, All, List-cases, ltb, leb,
  same_number, if_cases, Bool-cases, Option-cases, same_refl, ◌++◌, map, get_last?, unique,
  same_number_iff, length-append, total-append, append-nil, append_assoc,
}
use proven_loop.Shared.Assoc.{
  lookup, insert, delete, touch, unlink, lookup-insert, lookup-delete, contains-touch,
  contains-unlink, length-insert-le,
}
use proven_loop.Shared.Result.{Result, ok, err}
use proven_loop.Shared.Sorting.{Order, or_else, number_order, sort_by}
use proven_loop.Queue.Data.{
  CaptureQueueItem, CaptureQueueState, pending, claimed, acknowledged, retry, dead_letter,
  QueueError, quarantine_unreviewed, corrupt_item, invalid_item_id,
}
use proven_loop.Queue.Disk.{
  Disk, drop_file, drop_source, apply, apply_all, remove_state_indexes, quarantine, read,
}
use proven_loop.Queue.Act.{Act, ◌>>=◌, ◌>>◌, return, modify, gets, reads, refuse_if}
use proven_loop.Queue.State.{WindowsCaptureQueue, QueueAct, on_disk, assert_initialized}
use proven_loop.Queue.Identity.{CaptureQueueIdentity, block_identities_exclusive}
use proven_loop.Queue.Enqueue.{remove_source_index_if_owned}
use proven_loop.Queue.Open.{file_names}
use proven_loop.Queue.Related.{DeleteCaptureQueueOptions, Matching, item_ids, is_among, match_items}

pub record DeleteCaptureQueueResult : Type 0 where
  pub identities : List CaptureQueueIdentity
  pub queue_item_ids : List String

abbrev pub is_nil : List String → Bool
is_nil [] = true
is_nil (_ ∷ _) = false

abbrev pub is_blank : String → Bool
is_blank String.[] = true
is_blank (String.◌∷◌ _ _) = false

-- `normalized`, before the matching: the names that are not blank, each once.
abbrev pub names_of : (String → String) → List String → List String
names_of trim identifiers = unique (keep (λ name. not (is_blank name)) (map trim identifiers))

-- The identities of an item that is deleted.
abbrev pub deleted_identities : List CaptureQueueItem → List CaptureQueueIdentity
deleted_identities [] = []
deleted_identities (x ∷ items) =
    record { identifier = x.envelope.deduplication_key; identity_type = "deduplication" }
    ∷ record { identifier = x.envelope.event_id; identity_type = "event" }
    ∷ deleted_identities items

-- The unlinking of the files and indexes of the matched items.
unfoldable pub delete_items : List CaptureQueueItem → Disk → Disk
delete_items [] d = d
delete_items (x ∷ items) d = delete_items items (
    remove_source_index_if_owned x.envelope.deduplication_key x.queue_item_id
      (apply_all (drop_file x.queue_item_id ∷ remove_state_indexes x) d))

-- The last loop, over the source indexes that are left: a stale one is unlinked.
unfoldable pub delete_sources : (String → String → Bool) → List (String × String) → Disk → Disk
delete_sources is_stale [] d = d
delete_sources is_stale ((key, id) ∷ sources) d =
    delete_sources is_stale sources (if is_stale key id then apply (drop_source key) d else d)

module _ (item_bytes : CaptureQueueItem → ℕ) where
  abbrev pub read_file :
      String
      → Result QueueError CaptureQueueItem
      → List CaptureQueueItem × Disk
      → List CaptureQueueItem × Disk
  read_file id (ok x) (items, d) = (x ∷ items, d)
  read_file id (err e) (items, d) = (items, d)

  -- A file that cannot be read for another reason than its absence is put into quarantine.
  abbrev pub settle_file : String → Result QueueError CaptureQueueItem → Disk → Disk
  settle_file id (err corrupt_item) d = quarantine id d
  settle_file id (err invalid_item_id) d = quarantine id d
  settle_file id r d = d

  -- `#iterateItems` as `#readAll` uses it, over the names that `readdir` gave.
  unfoldable pub read_files : List String → Disk → List CaptureQueueItem × Disk
  read_files [] d = ([], d)
  read_files (id ∷ ids) d =
      read_file id (read item_bytes id d) (read_files ids (settle_file id (read item_bytes id d) d))

  module _ (locale units : String → String → Order) where
    abbrev pub oldest_first : CaptureQueueItem → CaptureQueueItem → Order
    oldest_first a b =
        or_else (number_order a.created_at b.created_at) (locale a.queue_item_id b.queue_item_id)

    -- `#readAll`
    unfoldable pub read_all : Act Disk (List CaptureQueueItem)
    unfolding read_files
    read_all d =
        let (items, d') = read_files (file_names item_bytes d) d in
        (ok (sort_by oldest_first items), d')

    abbrev pub by_identity : CaptureQueueIdentity → CaptureQueueIdentity → Order
    by_identity a b =
        or_else (locale a.identity_type b.identity_type) (locale a.identifier b.identifier)

    -- Two identities by the key of the map that makes them unique.
    abbrev identity_key : CaptureQueueIdentity → String × String
    identity_key i = (i.identity_type, i.identifier)

    abbrev keyed :
        List CaptureQueueIdentity
        → List ((String × String) × CaptureQueueIdentity)
        → List ((String × String) × CaptureQueueIdentity)
    keyed [] entries = entries
    keyed (i ∷ identities) entries = keyed identities (insert (identity_key i) i entries)

    -- Each identity once, in order.
    abbrev pub unique_identities : List CaptureQueueIdentity → List CaptureQueueIdentity
    unique_identities identities =
        sort_by by_identity (
          map (λ (entry : (String × String) × CaptureQueueIdentity). entry.1) (keyed identities []))

    abbrev pub result_of : List CaptureQueueItem → DeleteCaptureQueueResult
    result_of items = record {
      identities = unique_identities (deleted_identities items);
      queue_item_ids = sort_by units (item_ids items);
    }

    abbrev pub is_stale : List String → List String → String → String → Bool
    is_stale names remaining key id =
        contains key names || (contains id names || not (contains id remaining))

    -- A result that is there: the passes do not run out of fuel.
    abbrev pub or_start : Matching → Option Matching → Matching
    or_start m none = m
    or_start m (some found) = found

    abbrev pub find_related :
        DeleteCaptureQueueOptions → List String → List CaptureQueueItem → Matching
    find_related options names items =
        let start : Matching = record { matched = []; normalized = names; changed = false } in
        or_start start (match_items options (suc (length items)) items start)

    module _ (digest : String → String → String → String)
        (before_delete : DeleteCaptureQueueResult → Result QueueError (Unit {0})) where
      -- From the matching on.
      unfoldable pub delete_matched : String → Matching → Act Disk DeleteCaptureQueueResult
      unfolding delete_items delete_sources read_all
      delete_matched generated m = do
        block_identities_exclusive digest generated (deleted_identities m.matched)
        reads (λ _. before_delete (result_of m.matched))
        modify (delete_items m.matched)
        remaining ← read_all
        modify (λ d. delete_sources (is_stale m.normalized (item_ids remaining)) d.sources d)
        return (result_of m.matched)

      unfoldable pub delete_named :
          String → List String → DeleteCaptureQueueOptions → Act Disk DeleteCaptureQueueResult
      unfolding delete_matched
      delete_named generated names options = do
        quarantined ← gets (λ (d : Disk). d.quarantined)
        refuse_if (not (is_nil quarantined)) quarantine_unreviewed
        items ← read_all
        delete_matched generated (find_related options names items)

      unfoldable pub delete_by_identifiers :
          (String → String)
          → String
          → List String
          → DeleteCaptureQueueOptions
          → QueueAct DeleteCaptureQueueResult
      unfolding delete_named
      delete_by_identifiers trim generated identifiers options = do
        assert_initialized
        if is_nil (names_of trim identifiers)
            then return (record { identities = []; queue_item_ids = [] })
            else on_disk (delete_named generated (names_of trim identifiers) options)
