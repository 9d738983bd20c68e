-- ===== src/Queue/Delete/Tests.antt =====
-- A deletion by the id of an event, and of its child's with it.
use mathlib.Core.List.{List, [], ◌∷◌}
use mathlib.Core.Option.{Option, none, some}
use mathlib.Core.Path.{◌≡◌, refl}
use proven_loop.Shared.{false, String, String_eq, Pair_eq, ℕ_eq, List_eq, Option_eq, total}
use proven_loop.Shared.Assoc.{lookup, insert, delete, touch, unlink}
use proven_loop.Shared.Result.{Result, ok, err}
use proven_loop.Shared.Sorting.{Order, number_order, sort_by}
use proven_loop.Queue.Data.{CaptureQueueItem, QueueError}
use proven_loop.Queue.Disk.{Disk, apply, apply_all, remove_state_indexes, read, parse_file}
use proven_loop.Queue.Act.{◌>>=◌, ◌>>◌}
use proven_loop.Queue.State.{WindowsCaptureQueue}
use proven_loop.Queue.Identity.{block_identities_exclusive}
use proven_loop.Queue.Enqueue.{remove_source_index_if_owned}
use proven_loop.Queue.Related.{DeleteCaptureQueueOptions, match_items}
use proven_loop.Queue.Delete.{
  DeleteCaptureQueueResult, is_nil, delete_items, delete_sources, read_files, read_all, names_of,
  delete_matched, delete_named, delete_by_identifiers,
}
use proven_loop.Queue.Data.{quarantine_unreviewed}
use proven_loop.Shared.{char_codes}
use proven_loop.Shared.Sorting.{place}
use proven_loop.Queue.Data.{
  before_delete_failed, is_queue_item_id, matches_id, is_id_char, is_alphanumeric,
}
use proven_loop.Queue.Identity.{deletion_identity_key, deletion_key_of, add_tombstones}
use proven_loop.Queue.Related.{match_pass, match_item}
use proven_loop.Queue.Disk.{stored}
use proven_loop.Queue.Runs.{bytes, digest, queue, empty, item, key, event}
use proven_loop.Queue.Delete.Closure.{IsDeleted, delete_by_identifiers-IsDeleted}

abbrev alphabetical : String → String → Order
alphabetical a b = number_order (total (λ c. c) (char_codes a)) (total (λ c. c) (char_codes b))

abbrev member : String → String → Option String → CaptureQueueItem
member id event_id parent = record (item id 5) {
  envelope = record (event id) { event_id = event_id; parent_event_id = parent };
}

abbrev family : Disk
family = record empty {
  files =
      ("c", stored (member "c" "h" (some "g")))
      ∷ ("b", stored (member "b" "f" (some "e")))
      ∷ ("a", stored (member "a" "e" none))
      ∷ [];
  active = (5, "a") ∷ (5, "b") ∷ (5, "c") ∷ [];
  sources = ("a", "a") ∷ ("b", "b") ∷ ("c", "c") ∷ [];
}

abbrev nothing_else : DeleteCaptureQueueOptions
nothing_else = record { queue_item_ids = []; session_ids = [] }

abbrev outcome :
    Result QueueError (Unit {0})
    → List String
    → WindowsCaptureQueue
    → Result QueueError DeleteCaptureQueueResult × WindowsCaptureQueue
outcome answer names q =
    delete_by_identifiers bytes alphabetical alphabetical digest (λ r. answer) (λ name. name) key
      names nothing_else q

abbrev two_deleted : DeleteCaptureQueueResult
two_deleted = record {
  identities =
      record { identifier = "e"; identity_type = "event" }
      ∷ record { identifier = "f"; identity_type = "event" }
      ∷ record { identifier = "a"; identity_type = "deduplication" }
      ∷ record { identifier = "b"; identity_type = "deduplication" }
      ∷ [];
  queue_item_ids = "a" ∷ "b" ∷ [];
}

abbrev one_left : Disk
one_left = record empty {
  files = ("c", stored (member "c" "h" (some "g"))) ∷ [];
  active = (5, "c") ∷ [];
  sources = ("c", "c") ∷ [];
  identity_key = some key;
  identity_verifier = some key;
  tombstones = ("deduplication", key) ∷ ("event", key) ∷ [];
}

deletes_family : outcome (ok tt) ("e" ∷ []) (queue [] family) ≡ (ok two_deleted, queue [] one_left)
unfolding delete_by_identifiers delete_named delete_matched delete_items delete_sources read_files
    read_all match_items match_pass match_item sort_by place ◌>>=◌ ◌>>◌ block_identities_exclusive
    deletion_identity_key deletion_key_of add_tombstones remove_source_index_if_owned
    remove_state_indexes read parse_file is_queue_item_id matches_id is_id_char is_alphanumeric
    apply apply_all lookup insert delete touch unlink
deletes_family = refl

refuses_unreviewed :
    outcome (ok tt) ("e" ∷ []) (queue [] (record family { quarantined = "x" ∷ [] }))
    ≡ (err quarantine_unreviewed, queue [] (record family { quarantined = "x" ∷ [] }))
unfolding delete_by_identifiers delete_named delete_matched delete_items delete_sources read_files
    read_all match_items match_pass match_item sort_by place ◌>>=◌ ◌>>◌ block_identities_exclusive
    deletion_identity_key deletion_key_of add_tombstones remove_source_index_if_owned
    remove_state_indexes read parse_file is_queue_item_id matches_id is_id_char is_alphanumeric
    apply apply_all lookup insert delete touch unlink
refuses_unreviewed = refl

passes_on_refusal :
    (outcome (err before_delete_failed) ("e" ∷ []) (queue [] family)).0 ≡ err before_delete_failed
unfolding delete_by_identifiers delete_named delete_matched delete_items delete_sources read_files
    read_all match_items match_pass match_item sort_by place ◌>>=◌ ◌>>◌ block_identities_exclusive
    deletion_identity_key deletion_key_of add_tombstones remove_source_index_if_owned
    remove_state_indexes read parse_file is_queue_item_id matches_id is_id_char is_alphanumeric
    apply apply_all lookup insert delete touch unlink
passes_on_refusal = refl

named_e : is_nil (names_of (λ name. name) ("e" ∷ [])) ≡ false
named_e = refl

delete_by_identifiers-IsDeleted_example :
    IsDeleted bytes alphabetical alphabetical nothing_else ("e" ∷ []) two_deleted family one_left
delete_by_identifiers-IsDeleted_example =
    delete_by_identifiers-IsDeleted bytes alphabetical alphabetical digest (λ r. ok tt) nothing_else
      (λ name. name) key ("e" ∷ []) (queue [] family) (queue [] one_left) two_deleted deletes_family
      named_e
