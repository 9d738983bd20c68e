-- ===== src/Knowledge/Evidence.antt =====
-- knowledgeEvidenceState of packages/domain/src/knowledge-evidence.ts: the evidence against a piece
-- of knowledge that no later confirmation by the user resolves. `locale` is localeCompare and `units`
-- the order of Array.prototype.sort.
pub mod Fate
use mathlib.Core.List.{List, [], ◌∷◌}
use text.Mathlib.Text.{◌==◌ as same_text}
use text.Mathlib.TextEquality.{eq_iff}
use mathlib.Core.Bool.{◌&&◌, ◌||◌}
use Prim.Native.Nat.{ℕ, zero, suc, ◌+◌, ◌-◌, ◌*◌, ◌≤◌, ◌<◌}
use mathlib.Core.Logic.{◌≢◌, ◌↔◌, ◌⊎◌, inl, inr, ⊎_elim, ∥∥₁_elim}
use mathlib.Core.Option.{Option, none, some}
use mathlib.Core.Path.{◌≡◌, refl, sym, ap, subst, ◌∙◌}
use native.Mathlib.Omega.{arith}
use proven_loop.Shared.{
  Bool, true, false, not, String, String_eq, Pair_eq, ℕ_eq, List_eq, Option_eq, Eq, ◌==◌, contains,
  without, if◌then◌else◌, length, total, take, keep, any, all, bit, All, List-cases, ltb, leb,
  same_number, if_cases, Bool-cases, Option-cases, same_refl, ◌++◌, map, get_last?, unique,
  same_number_iff, length-append, total-append, append-nil, append_assoc,
}
use proven_loop.Shared.Assoc.{
  lookup, insert, delete, touch, unlink, lookup-insert, lookup-delete, contains-touch,
  contains-unlink, length-insert-le,
}
use proven_loop.Shared.Result.{Result, ok, err}
use proven_loop.Knowledge.Data.{
  FeedbackEvent, FeedbackKind, confirm, correct, conflict, weaken, stale, revoke, concerns,
}
use proven_loop.Shared.Sorting.{Order, or_else, number_order, sort_by}

-- A captured event against the knowledge, by its id and time.
pub record Counter : Type 0 where
  pub counter_id : String
  pub counter_at : ℕ

pub data TimelineItem : Type 0 where
  counter_item : Counter → TimelineItem
  feedback_item : FeedbackEvent → TimelineItem

abbrev pub item_id : TimelineItem → String
item_id (counter_item c) = c.counter_id
item_id (feedback_item f) = f.feedback_id

abbrev pub item_time : TimelineItem → ℕ
item_time (counter_item c) = c.counter_at
item_time (feedback_item f) = f.timestamp

-- An entry of the map `pending`: whether the evidence archives, and its time.
abbrev pub Pending : Type 0
Pending = Bool × ℕ

abbrev pub PendingMap : Type 0
PendingMap = List (String × Pending)

abbrev pub is_against : FeedbackKind → Bool
is_against correct = true
is_against conflict = true
is_against weaken = true
is_against stale = true
is_against revoke = true
is_against _ = false

abbrev pub is_archiving : FeedbackKind → Bool
is_archiving stale = true
is_archiving revoke = true
is_archiving _ = false

abbrev pub is_confirm : FeedbackKind → Bool
is_confirm confirm = true
is_confirm _ = false

abbrev pub is_resolved_by : ℕ → Option Pending → Bool
is_resolved_by at none = false
is_resolved_by at (some unresolved) = ltb unresolved.1 at

-- The loop over `resolvesEvidenceIds`.
unfoldable pub resolve : List String → ℕ → PendingMap → PendingMap
resolve [] at pending = pending
resolve (id ∷ ids) at pending =
    resolve ids at (if is_resolved_by at (lookup id pending) then delete id pending else pending)

-- One item of the timeline.
unfoldable pub take_item : TimelineItem → PendingMap → PendingMap
unfolding resolve
take_item (counter_item c) pending = insert c.counter_id (false, c.counter_at) pending
take_item (feedback_item f) pending =
    if is_against f.kind
    then insert f.feedback_id (is_archiving f.kind, f.timestamp) pending
    else if is_confirm f.kind && f.source_user
    then resolve f.resolves_evidence_ids f.timestamp pending
    else pending

unfoldable pub take_items : List TimelineItem → PendingMap → PendingMap
unfolding take_item
take_items [] pending = pending
take_items (item ∷ items) pending = take_items items (take_item item pending)

pub record KnowledgeEvidenceState : Type 0 where
  pub archived_state : Bool
  pub unresolved_evidence_ids : List String

module _ (locale units : String → String → Order) where
  abbrev pub compare_items : TimelineItem → TimelineItem → Order
  compare_items a b =
      or_else (number_order (item_time a) (item_time b)) (locale (item_id a) (item_id b))

  unfoldable pub timeline : List Counter → List FeedbackEvent → String → ℕ → List TimelineItem
  timeline counters feedback id created =
      sort_by compare_items
        (map counter_item counters ++ map feedback_item (keep (concerns id created) feedback))

  unfoldable pub knowledge_evidence_state :
      List Counter → ℕ → List FeedbackEvent → String → KnowledgeEvidenceState
  unfolding timeline take_items
  knowledge_evidence_state counters created feedback id =
      let pending = take_items (timeline counters feedback id created) [] in
      record {
        archived_state = any (λ entry. entry.1.0) pending;
        unresolved_evidence_ids = sort_by units (map (λ entry. entry.0) pending);
      }
