-- ===== src/Queue/Remaining.antt =====
-- The operations that list what the queue holds: `list`, `quarantineIssues`, `remainingIdentifiers`
-- and `remainingIdentities`. The directory has no temporary files for the last two to look into.
mod Tests
use mathlib.Core.List.{List, [], ◌∷◌}
use mathlib.Core.Bool.{◌&&◌, ◌||◌}
use Prim.Native.Nat.{ℕ}
use mathlib.Core.Option.{Option, none, some}
use proven_loop.Shared.{
  Bool, true, false, String, String_eq, Pair_eq, Option_eq, ◌==◌, contains, if◌then◌else◌, keep,
  any, ◌++◌, map, unique,
}
use proven_loop.Shared.Sorting.{Order, sort_by}
use proven_loop.Shared.Result.{ok}
use proven_loop.Queue.Data.{
  CaptureQueueItem, CaptureQueueState, pending, claimed, acknowledged, retry, dead_letter,
}
use proven_loop.Queue.Disk.{Disk}
use proven_loop.Queue.Act.{Act, ◌>>=◌, ◌>>◌, return, gets}
use proven_loop.Queue.State.{QueueAct, assert_initialized, on_disk}
use proven_loop.Queue.Identity.{CaptureQueueIdentity}
use proven_loop.Queue.Delete.{read_all, unique_identities}

pub record CaptureQueueIssue : Type 0 where
  pub queue_item_id : String
  pub error : String

-- A state by the name that the schemas give it.
abbrev pub state_name : CaptureQueueState → String
state_name pending = "pending"
state_name (claimed at expires owner) = "claimed"
state_name (acknowledged at) = "acknowledged"
state_name (retry error at) = "retry"
state_name (dead_letter error) = "dead-letter"

abbrev pub in_state : Option String → List CaptureQueueItem → List CaptureQueueItem
in_state none items = items
in_state (some state) items = keep (λ (x : CaptureQueueItem). state_name x.state == state) items

abbrev pub present : Option String → List String
present none = []
present (some name) = name ∷ []

-- All names that an item bears or refers to.
abbrev pub names_in : CaptureQueueItem → List String
names_in x =
    x.queue_item_id
      ∷ x.envelope.deduplication_key
      ∷ x.envelope.event_id
      ∷ present x.envelope.session_id
    ++ present x.envelope.parent_event_id

abbrev pub names_in_all : List CaptureQueueItem → List String
names_in_all [] = []
names_in_all (x ∷ items) = names_in x ++ names_in_all items

abbrev pub names_in_sources : List (String × String) → List String
names_in_sources [] = []
names_in_sources ((key, id) ∷ sources) = key ∷ id ∷ names_in_sources sources

abbrev pub is_present : CaptureQueueItem → CaptureQueueIdentity → Bool
is_present x i =
    if i.identity_type == "deduplication"
    then x.envelope.deduplication_key == i.identifier
    else if i.identity_type == "event"
    then x.envelope.event_id == i.identifier || x.envelope.parent_event_id == some i.identifier
    else if i.identity_type == "session"
    then x.envelope.session_id == some i.identifier
    else false

abbrev pub is_source : List (String × String) → CaptureQueueIdentity → Bool
is_source sources i =
    i.identity_type == "deduplication"
    && any (λ (source : String × String). source.0 == i.identifier) sources

abbrev pub issue_of : String → CaptureQueueIssue
issue_of id = record {
  queue_item_id = id;
  error = "Malformed queue item was isolated; healthy items remain available.";
}

-- Without the guard on the queue's initialization, as in the code.
unfoldable pub quarantine_issues : (String → String → Order) → QueueAct (List CaptureQueueIssue)
quarantine_issues units q = (ok (map issue_of (sort_by units q.disk.quarantined)), q)

module _ (item_bytes : CaptureQueueItem → ℕ) (locale units : String → String → Order) where
  unfoldable pub list : Option String → QueueAct (List CaptureQueueItem)
  unfolding read_all
  list state = do
    assert_initialized
    items ← on_disk (read_all item_bytes locale units)
    return (in_state state items)

  abbrev pub find_identifiers : List String → Act Disk (List String)
  find_identifiers identifiers = do
    items ← read_all item_bytes locale units
    sources ← gets (λ (d : Disk). d.sources)
    return (
        sort_by units (
          unique (
            keep (λ name. contains name identifiers)
              (names_in_all items ++ names_in_sources sources))))

  unfoldable pub remaining_identifiers : List String → QueueAct (List String)
  unfolding read_all
  remaining_identifiers identifiers = do assert_initialized; on_disk (find_identifiers identifiers)

  abbrev pub find_identities : List CaptureQueueIdentity → Act Disk (List CaptureQueueIdentity)
  find_identities identities = do
    items ← read_all item_bytes locale units
    sources ← gets (λ (d : Disk). d.sources)
    return (
        unique_identities item_bytes locale units
          (keep (λ i. any (λ x. is_present x i) items || is_source sources i) identities))

  unfoldable pub remaining_identities :
      List CaptureQueueIdentity → QueueAct (List CaptureQueueIdentity)
  unfolding read_all
  remaining_identities identities = do assert_initialized; on_disk (find_identities identities)
