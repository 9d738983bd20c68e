-- ===== src/Knowledge/Evidence/Fate.antt =====
-- The map of the pending evidence against an account of one piece of evidence alone.
use mathlib.Core.List.{List, [], ◌∷◌}
use text.Mathlib.TextEquality.{eq_iff}
use mathlib.Core.Bool.{◌&&◌, ◌||◌}
use Prim.Native.Nat.{ℕ}
use mathlib.Core.Logic.{inl, inr}
use mathlib.Core.Option.{Option, none, some}
use mathlib.Core.Path.{◌≡◌, refl, sym, ap, ◌∙◌}
use native.Mathlib.Omega.{arith}
use proven_loop.Shared.{
  Bool, true, false, String, String_eq, Pair_eq, ℕ_eq, List_eq, Option_eq, ◌==◌, contains,
  if◌then◌else◌, any, Bool-cases, map,
}
use proven_loop.Shared.Assoc.{lookup, delete, lookup-insert, lookup-delete}
use proven_loop.Knowledge.Data.{FeedbackEvent}
use proven_loop.Knowledge.Evidence.{
  Counter, TimelineItem, counter_item, feedback_item, Pending, PendingMap, is_against, is_archiving,
  is_confirm, is_resolved_by, resolve, take_item, take_items, timeline, knowledge_evidence_state,
}
use proven_loop.Shared.Sorting.{Order, sort_by, any-sort_by}

-- What becomes of one piece of evidence at an item: it is put forward by the item of its own id, and
-- a later confirmation by the user that names it resolves it.
abbrev pub next_fate : String → TimelineItem → Option Pending → Option Pending
next_fate id (counter_item c) o = if c.counter_id == id then some (false, c.counter_at) else o
next_fate id (feedback_item f) o =
    if is_against f.kind
    then if f.feedback_id == id then some (is_archiving f.kind, f.timestamp) else o
    else if is_confirm f.kind
        && (f.source_user && (contains id f.resolves_evidence_ids && is_resolved_by f.timestamp o))
    then none
    else o

abbrev pub fate : String → List TimelineItem → Option Pending → Option Pending
fate id [] o = o
fate id (item ∷ items) o = fate id items (next_fate id item o)

abbrev pub is_pending : Option Pending → Bool
is_pending none = false
is_pending (some _) = true

lookup-resolve :
    (ids : List String) (at : ℕ) (pending : PendingMap) (id : String)
    → lookup id (resolve ids at pending) ≡ (
        if contains id ids && is_resolved_by at (lookup id pending)
        then none
        else lookup id pending)
unfolding resolve
lookup-resolve [] at pending id = refl
lookup-resolve (first ∷ ids) at pending id =
    elim (Bool-cases (is_resolved_by at (lookup first pending))) [
      | inl gone ↦ ground (
        arith,
        gone,
        lookup-resolve ids at (delete first pending) id,
        lookup-delete first id pending,
        eq_iff first id,
      )
      | inr left ↦ ground (arith, left, lookup-resolve ids at pending id, eq_iff first id)
    ]

lookup-take_item :
    (item : TimelineItem) (pending : PendingMap) (id : String)
    → lookup id (take_item item pending) ≡ next_fate id item (lookup id pending)
unfolding take_item
lookup-take_item (counter_item c) pending id =
    lookup-insert c.counter_id id (false, c.counter_at) pending
lookup-take_item (feedback_item f) pending id = ground (
  arith,
  lookup-insert f.feedback_id id (is_archiving f.kind, f.timestamp) pending,
  lookup-resolve f.resolves_evidence_ids f.timestamp pending id,
)

lookup-take_items :
    (items : List TimelineItem) (pending : PendingMap) (id : String)
    → lookup id (take_items items pending) ≡ fate id items (lookup id pending)
unfolding take_items
lookup-take_items [] pending id = refl
lookup-take_items (item ∷ items) pending id =
    lookup-take_items items (take_item item pending) id
    ∙ ap (fate id items) (lookup-take_item item pending id)

contains-any :
    (id : String) (list : List String) → contains id list ≡ any (λ other. other == id) list
contains-any id [] = refl
contains-any id (first ∷ others) = ap (λ b. (first == id) || b) (contains-any id others)

contains-keys :
    (id : String) (pending : PendingMap)
    → contains id (map (λ entry. entry.0) pending) ≡ is_pending (lookup id pending)
unfolding lookup
contains-keys id [] = refl
contains-keys id ((name, value) ∷ pending) = ground (arith, contains-keys id pending)

pub contains-sort_by :
    (order : String → String → Order) (id : String) (list : List String)
    → contains id (sort_by order list) ≡ contains id list
contains-sort_by order id list =
    contains-any id (sort_by order list)
    ∙ (any-sort_by order (λ other. other == id) list ∙ sym (contains-any id list))

-- For any counterevidence and feedback, in whatever order they come, an id is among the unresolved
-- evidence exactly where, followed alone through the timeline, it is put forward by a counter event
-- or by feedback against the knowledge and not resolved after that: only a confirmation by the user
-- which names it, with a later time than its own, resolves it.
pub knowledge_evidence_state-fate :
    (locale units : String → String → Order) (counters : List Counter) (created : ℕ)
    (feedback : List FeedbackEvent) (knowledge id : String)
    → contains id
        (knowledge_evidence_state locale units counters created feedback
          knowledge).unresolved_evidence_ids
      ≡ is_pending (fate id (timeline locale units counters feedback knowledge created) none)
unfolding knowledge_evidence_state lookup
knowledge_evidence_state-fate locale units counters created feedback knowledge id =
    let items = timeline locale units counters feedback knowledge created in
    contains-sort_by units id (map (λ entry. entry.0) (take_items items []))
    ∙ (contains-keys id (take_items items []) ∙ ap is_pending (lookup-take_items items [] id))
