-- ===== src/Queue/Remaining/Tests.antt =====
-- What is listed of a directory with two items.
use mathlib.Core.List.{[], ◌∷◌}
use mathlib.Core.Option.{none, some}
use mathlib.Core.Path.{◌≡◌, refl}
use proven_loop.Shared.{String, String_eq, Pair_eq, total, char_codes}
use proven_loop.Shared.Assoc.{lookup, insert}
use proven_loop.Shared.Result.{ok}
use proven_loop.Shared.Sorting.{Order, number_order, sort_by, place}
use proven_loop.Queue.Data.{is_queue_item_id, matches_id, is_id_char, is_alphanumeric}
use proven_loop.Queue.Disk.{read, parse_file}
use proven_loop.Queue.Act.{◌>>=◌, ◌>>◌}
use proven_loop.Queue.Delete.{read_all, read_files}
use proven_loop.Queue.Remaining.{
  list, quarantine_issues, issue_of, remaining_identifiers, remaining_identities,
}
use proven_loop.Queue.Runs.{bytes, queue, item, done, a_done, with_one, deleted}

abbrev alphabetical : String → String → Order
alphabetical a b = number_order (total (λ c. c) (char_codes a)) (total (λ c. c) (char_codes b))

lists_acknowledged :
    (list bytes alphabetical alphabetical (some "acknowledged") (queue [] a_done)).0
    ≡ ok (done ∷ [])
unfolding list remaining_identifiers remaining_identities read_all read_files sort_by place ◌>>=◌
    ◌>>◌ read parse_file is_queue_item_id matches_id is_id_char is_alphanumeric lookup insert
lists_acknowledged = refl

lists_all :
    (list bytes alphabetical alphabetical none (queue [] a_done)).0 ≡ ok (done ∷ item "b" 6 ∷ [])
unfolding list remaining_identifiers remaining_identities read_all read_files sort_by place ◌>>=◌
    ◌>>◌ read parse_file is_queue_item_id matches_id is_id_char is_alphanumeric lookup insert
lists_all = refl

lists_quarantined :
    (quarantine_issues alphabetical (queue [] (record a_done { quarantined = "y" ∷ "x" ∷ [] }))).0
    ≡ ok (issue_of "x" ∷ issue_of "y" ∷ [])
unfolding quarantine_issues sort_by place
lists_quarantined = refl

finds_remaining :
    (remaining_identifiers bytes alphabetical alphabetical
      ("z" ∷ "e" ∷ "a" ∷ [])
      (queue [] with_one)).0
    ≡ ok ("a" ∷ "e" ∷ [])
unfolding list remaining_identifiers remaining_identities read_all read_files sort_by place ◌>>=◌
    ◌>>◌ read parse_file is_queue_item_id matches_id is_id_char is_alphanumeric lookup insert
finds_remaining = refl

finds_deleted :
    (remaining_identities bytes alphabetical alphabetical
      (deleted ∷ deleted ∷ [])
      (queue [] with_one)).0
    ≡ ok (deleted ∷ [])
unfolding list remaining_identifiers remaining_identities read_all read_files sort_by place ◌>>=◌
    ◌>>◌ read parse_file is_queue_item_id matches_id is_id_char is_alphanumeric lookup insert
finds_deleted = refl
