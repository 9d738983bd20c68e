-- ===== src/Queue/Related.antt =====
-- The items that deleteByIdentifiers deletes: those that an identifier names, and those that come
-- from what is deleted, found by passes over all items until one changes nothing.
pub mod Closed
pub mod Implicated
use mathlib.Core.List.{List, [], ◌∷◌}
use text.Mathlib.Text.{◌==◌ as same_text}
use text.Mathlib.TextEquality.{eq_iff}
use mathlib.Core.Bool.{◌&&◌, ◌||◌}
use Prim.Native.Nat.{ℕ, zero, suc, ◌+◌, ◌-◌, ◌*◌, ◌≤◌, ◌<◌}
use mathlib.Core.Logic.{◌≢◌, ◌↔◌, ◌⊎◌, inl, inr, ⊎_elim, ∥∥₁_elim}
use mathlib.Core.Option.{Option, none, some}
use mathlib.Core.Path.{◌≡◌, refl, sym, ap, subst, ◌∙◌}
use native.Mathlib.Omega.{arith}
use proven_loop.Shared.{
  Bool, true, false, not, String, String_eq, Pair_eq, ℕ_eq, List_eq, Option_eq, Eq, ◌==◌, contains,
  without, if◌then◌else◌, length, total, take, keep, any, all, bit, All, List-cases, ltb, leb,
  same_number, if_cases, Bool-cases, Option-cases, same_refl, ◌++◌, map, get_last?, unique,
  same_number_iff, length-append, total-append, append-nil, append_assoc,
}
use proven_loop.Shared.Assoc.{
  lookup, insert, delete, touch, unlink, lookup-insert, lookup-delete, contains-touch,
  contains-unlink, length-insert-le,
}
use proven_loop.Shared.Result.{Result, ok, err}
use proven_loop.Queue.Data.{CaptureQueueItem}

pub record DeleteCaptureQueueOptions : Type 0 where
  pub queue_item_ids : List String
  pub session_ids : List String

-- The locals `matched`, in its order, and `normalized`, with `changed`.
pub record Matching : Type 0 where
  pub matched : List CaptureQueueItem
  pub normalized : List String
  pub changed : Bool

abbrev pub item_ids : List CaptureQueueItem → List String
item_ids = map (λ (x : CaptureQueueItem). x.queue_item_id)

abbrev pub is_among : Option String → List String → Bool
is_among none names = false
is_among (some name) names = contains name names

module _ (options : DeleteCaptureQueueOptions) where
  abbrev pub is_direct : List String → CaptureQueueItem → Bool
  is_direct names x =
      contains x.envelope.deduplication_key names
      || (contains x.envelope.event_id names
          || (contains x.queue_item_id options.queue_item_ids
              || is_among x.envelope.session_id options.session_ids))

  abbrev pub is_related : List String → CaptureQueueItem → Bool
  is_related names x = is_direct names x || is_among x.envelope.parent_event_id names

  abbrev add_match : CaptureQueueItem → Matching → Matching
  add_match x m = record {
    matched = m.matched ++ x ∷ [];
    normalized =
        x.envelope.event_id ∷ x.envelope.deduplication_key ∷ x.queue_item_id ∷ m.normalized;
    changed = true;
  }

  unfoldable pub match_item : CaptureQueueItem → Matching → Matching
  match_item x m =
      if contains x.queue_item_id (item_ids m.matched)
      then m
      else if is_related m.normalized x
      then add_match x m
      else m

  unfoldable pub match_pass : List CaptureQueueItem → Matching → Matching
  unfolding match_item
  match_pass [] m = m
  match_pass (x ∷ items) m = match_pass items (match_item x m)

  -- The `do` loop; none where the fuel runs out.
  unfoldable pub match_items : ℕ → List CaptureQueueItem → Matching → Option Matching
  unfolding match_pass
  match_items zero items m = none
  match_items (suc fuel) items m =
      let next = match_pass items (record m { changed = false }) in
      let rest = match_items fuel items next in if next.changed then rest else some next
