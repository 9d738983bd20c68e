-- ===== src/Queue/Related/Implicated.antt =====
-- Every item that the passes match is linked to a given name, item or session.
use mathlib.Core.List.{List, [], ◌∷◌}
use mathlib.Core.Bool.{◌||◌}
use Prim.Native.Nat.{ℕ, zero, suc}
use mathlib.Core.Logic.{◌⊎◌, inl, inr}
use mathlib.Core.Option.{Option, none, some}
use mathlib.Core.Path.{◌≡◌, refl, subst}
use native.Mathlib.Omega.{arith}
use text.Mathlib.TextEquality.{eq_iff}
use proven_loop.Shared.{
  Bool, true, false, String, String_eq, Pair_eq, ℕ_eq, List_eq, Option_eq, contains, All, if_cases,
  Bool-cases, ◌++◌,
}
use proven_loop.Queue.Data.{CaptureQueueItem}
use proven_loop.Queue.Related.{
  DeleteCaptureQueueOptions, Matching, item_ids, is_among, is_related, match_item, match_pass,
  match_items,
}
use proven_loop.Queue.Related.Closed.{contains-snoc, item_ids-snoc}

abbrev pub own_names : CaptureQueueItem → List String
own_names x = x.envelope.event_id ∷ x.envelope.deduplication_key ∷ x.queue_item_id ∷ []

-- An item that bears a given name, or is named by its id or session, or refers to such an item, or
-- to one that refers to such an item, and so on.
pub data Implicated (IsItem : CaptureQueueItem → Type 0) (options : DeleteCaptureQueueOptions)
    (names : List String) : CaptureQueueItem → Type 0 where
  given :
      (x : CaptureQueueItem)
      → IsItem x
      → is_related options names x ≡ true
      → Implicated IsItem options names x
  through :
      (x y : CaptureQueueItem)
      → Implicated IsItem options names y
      → IsItem x
      → is_related options (own_names y) x ≡ true
      → Implicated IsItem options names x

contains-own :
    (y : CaptureQueueItem) (names : List String) (name : String)
    → contains name (own_names y ++ names) ≡ (contains name (own_names y) || contains name names)
contains-own y names name = ground arith

among-own :
    (y : CaptureQueueItem) (names : List String) (name : Option String)
    → is_among name (own_names y ++ names) ≡ (is_among name (own_names y) || is_among name names)
among-own y names none = refl
among-own y names (some name) = contains-own y names name

-- All names of an item are among these.
abbrev pub HasNames : List String → CaptureQueueItem → Type 0
HasNames names z = (name : String) → contains name (own_names z) ≡ true → contains name names ≡ true

module _ (IsItem : CaptureQueueItem → Type 0) (options : DeleteCaptureQueueOptions)
    (given_names : List String) where
  abbrev Linked : CaptureQueueItem → Type 0
  Linked = Implicated IsItem options given_names

  related-own :
      (x y : CaptureQueueItem) (names : List String)
      → is_related options (own_names y ++ names) x ≡ true
      → (is_related options (own_names y) x ≡ true) ⊎ (is_related options names x ≡ true)
  related-own x y names h = elim (Bool-cases (is_related options names x)) [
    | inl t ↦ inr t
    | inr f ↦ inl (
        ground (
          arith,
          h,
          f,
          contains-own y names x.envelope.deduplication_key,
          contains-own y names x.envelope.event_id,
          among-own y names x.envelope.parent_event_id,
        ))
  ]

  -- What is related to what was matched is linked, and so is what was matched, whose names are all
  -- among those that are matched by.
  abbrev Explained : Matching → Type 0
  Explained m =
      ((x : CaptureQueueItem) → IsItem x → is_related options m.normalized x ≡ true → Linked x)
      × ((id : String)
          → contains id (item_ids m.matched) ≡ true
          → (z : CaptureQueueItem) × (z.queue_item_id ≡ id)
            × IsItem z
            × Linked z
            × HasNames m.normalized z)

  Explained-add :
      (x : CaptureQueueItem) (m : Matching)
      → IsItem x
      → Linked x
      → Explained m
      → (changed : Bool)
      → Explained (record {
        matched = m.matched ++ x ∷ [];
        normalized = own_names x ++ m.normalized;
        changed = changed;
      })
  Explained-add x m item_x linked (names, items) changed = (
    (λ y item related. elim (related-own y x m.normalized related) [
      | inl own ↦ through y x linked item own
      | inr old ↦ names y item old
    ]),
    (λ id there. elim (Bool-cases (contains id (item_ids m.matched))) [
      | inl old ↦
          let (z, same, item, reached, named) = items id old in
          (
            z,
            same,
            item,
            reached,
            λ name own. ground (arith, contains-own x m.normalized name, named name own),
          )
      | inr new ↦ (
        x,
        (eq_iff x.queue_item_id id).0 (
            ground (
              arith,
              there,
              new,
              item_ids-snoc m.matched x,
              contains-snoc id (item_ids m.matched) x.queue_item_id,
            )),
        item_x,
        linked,
        λ name own. ground (arith, contains-own x m.normalized name, own),
      )
    ]),
  )

  Explained-match :
      (x : CaptureQueueItem) (m : Matching)
      → IsItem x
      → Explained m
      → Explained (match_item options x m)
  unfolding match_item
  Explained-match x m item e =
      if_cases (λ (n : Matching). Explained n) (contains x.queue_item_id (item_ids m.matched))
        (λ _. e)
        (λ _.
          if_cases (λ (n : Matching). Explained n) (is_related options m.normalized x)
            (λ related. Explained-add x m item (e.0 x item related) e true) (λ _. e))

  Explained-pass :
      (items : List CaptureQueueItem) (m : Matching)
      → All IsItem items
      → Explained m
      → Explained (match_pass options items m)
  unfolding match_pass
  Explained-pass [] m all_items e = e
  Explained-pass (x ∷ items) m all_items e =
      Explained-pass items (match_item options x m) all_items.1 (Explained-match x m all_items.0 e)

  Explained-passes :
      (fuel : ℕ) (items : List CaptureQueueItem) (m found : Matching)
      → All IsItem items
      → match_items options fuel items m ≡ some found
      → Explained m
      → Explained found
  unfolding match_items
  Explained-passes zero items m found all_items h e = absurd (cc)
  Explained-passes (suc fuel) items m found all_items h e =
      let next = match_pass options items (record m { changed = false }) in
      let explained : Explained next =
        Explained-pass items (record m { changed = false }) all_items e in
      elim (Bool-cases next.changed) [
        | inl more ↦
            Explained-passes fuel items next found all_items (ground (arith, more, h)) explained
        | inr over ↦
            let same : next ≡ found = ground (arith, over, h) in subst Explained same explained
      ]

  -- An item that the passes match is linked to what was given, and has its names among those that
  -- were matched by.
  pub match_items-Implicated :
      (fuel : ℕ) (items : List CaptureQueueItem) (found : Matching)
      → All IsItem items
      → match_items options fuel items
          (record { matched = []; normalized = given_names; changed = false })
        ≡ some found
      → (id : String) → contains id (item_ids found.matched) ≡ true
      → (z : CaptureQueueItem) × (z.queue_item_id ≡ id)
        × IsItem z
        × Linked z
        × HasNames found.normalized z
  match_items-Implicated fuel items found all_items h =
      (Explained-passes fuel items
        (record { matched = []; normalized = given_names; changed = false }) found all_items h
        ((λ x item related. given x item related), (λ id there. absurd (cc)))).1
