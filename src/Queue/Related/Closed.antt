-- ===== src/Queue/Related/Closed.antt =====
-- The passes end, and then no item that is left is related to what was matched.
use mathlib.Core.List.{List, [], ◌∷◌}
use mathlib.Core.Bool.{◌||◌}
use Prim.Native.Nat.{ℕ, zero, suc, ◌≤◌, ◌<◌}
use mathlib.Core.Logic.{◌⊎◌, inl, inr}
use mathlib.Core.Option.{some}
use mathlib.Core.Path.{◌≡◌, refl, sym, ap, subst, ◌∙◌}
use native.Mathlib.Omega.{arith}
use proven_loop.Shared.{
  Bool, true, false, not, String, String_eq, Pair_eq, ℕ_eq, List_eq, Option_eq, contains, length,
  total, all, bit, Bool-cases, same_refl, ◌++◌,
}
use proven_loop.Queue.Data.{CaptureQueueItem}
use proven_loop.Queue.Related.{
  DeleteCaptureQueueOptions, Matching, item_ids, is_related, match_item, match_pass, match_items,
}

pub contains-snoc :
    (name : String) (names : List String) (x : String)
    → contains name (names ++ x ∷ []) ≡ (contains name names || String_eq.is_same x name)
contains-snoc name [] x = ground arith
contains-snoc name (first ∷ names) x = ground (arith, contains-snoc name names x)

pub item_ids-snoc :
    (items : List CaptureQueueItem) (x : CaptureQueueItem)
    → item_ids (items ++ x ∷ []) ≡ item_ids items ++ x.queue_item_id ∷ []
item_ids-snoc [] x = refl
item_ids-snoc (y ∷ items) x = ap (λ ids. y.queue_item_id ∷ ids) (item_ids-snoc items x)

module _ (options : DeleteCaptureQueueOptions) where
  abbrev is_left : Matching → CaptureQueueItem → Bool
  is_left m x = not (contains x.queue_item_id (item_ids m.matched))

  -- The items that are not matched.
  abbrev left : Matching → List CaptureQueueItem → ℕ
  left m = total (λ x. bit (is_left m x))

  contains-match :
      (x : CaptureQueueItem) (m : Matching) (id : String)
      → contains id (item_ids m.matched) ≡ true
      → contains id (item_ids (match_item options x m).matched) ≡ true
  unfolding match_item
  contains-match x m id h =
      ground
        (arith, h, item_ids-snoc m.matched x, contains-snoc id (item_ids m.matched) x.queue_item_id)

  left-match :
      (x : CaptureQueueItem) (m : Matching) (items : List CaptureQueueItem)
      → left (match_item options x m) items ≤ left m items
  left-match x m [] = omega arith
  left-match x m (y ∷ items) =
      ground (arith, left-match x m items, contains-match x m y.queue_item_id)

  contains-pass :
      (items : List CaptureQueueItem) (m : Matching) (id : String)
      → contains id (item_ids m.matched) ≡ true
      → contains id (item_ids (match_pass options items m).matched) ≡ true
  unfolding match_pass
  contains-pass [] m id h = h
  contains-pass (x ∷ items) m id h =
      contains-pass items (match_item options x m) id (contains-match x m id h)

  left-pass :
      (items : List CaptureQueueItem) (m : Matching) (all_items : List CaptureQueueItem)
      → left (match_pass options items m) all_items ≤ left m all_items
  unfolding match_pass
  left-pass [] m all_items = omega arith
  left-pass (x ∷ items) m all_items =
      omega (arith, left-pass items (match_item options x m) all_items, left-match x m all_items)

  match_item-cases :
      (x : CaptureQueueItem) (m : Matching)
      → ((match_item options x m ≡ m)
          × ((contains x.queue_item_id (item_ids m.matched)
                || not (is_related options m.normalized x))
              ≡ true))
        ⊎ (((match_item options x m).changed ≡ true)
            × (is_left m x ≡ true)
            × (contains x.queue_item_id (item_ids (match_item options x m).matched) ≡ true))
  unfolding match_item
  match_item-cases x m = elim (Bool-cases (contains x.queue_item_id (item_ids m.matched))) [
    | inl known ↦ inl (ground arith, ground arith)
    | inr new ↦ elim (Bool-cases (is_related options m.normalized x)) [
      | inl related ↦ inr (
        ground arith,
        ground arith,
        ground (
          arith,
          item_ids-snoc m.matched x,
          contains-snoc x.queue_item_id (item_ids m.matched) x.queue_item_id,
          same_refl x.queue_item_id,
        ),
      )
      | inr apart ↦ inl (ground arith, ground arith)
    ]
  ]

  -- A change is not taken back in a pass.
  changed-match :
      (x : CaptureQueueItem) (m : Matching)
      → m.changed ≡ true
      → (match_item options x m).changed ≡ true
  changed-match x m h = elim (match_item-cases x m) [
    | inl (same, _) ↦ ap (λ (n : Matching). n.changed) same ∙ h
    | inr (set, new, taken) ↦ set
  ]

  changed-pass :
      (items : List CaptureQueueItem) (m : Matching)
      → m.changed ≡ true
      → (match_pass options items m).changed ≡ true
  unfolding match_pass
  changed-pass [] m h = h
  changed-pass (x ∷ items) m h = changed-pass items (match_item options x m) (changed-match x m h)

  left-pass-lt :
      (items : List CaptureQueueItem) (m : Matching)
      → m.changed ≡ false
      → (match_pass options items m).changed ≡ true
      → left (match_pass options items m) items < left m items
  unfolding match_pass
  left-pass-lt [] m h k = absurd (ground arith)
  left-pass-lt (x ∷ items) m h k = elim (match_item-cases x m) [
    | inl (same, _) ↦
        let later =
          left-pass-lt items (match_item options x m) (ap (λ (n : Matching). n.changed) same ∙ h)
            k in
        let kept = contains-pass items (match_item options x m) x.queue_item_id in
        ground (
          arith,
          later,
          kept,
          ap (λ (n : Matching). left n items) same,
          ap (λ (n : Matching). contains x.queue_item_id (item_ids n.matched)) same,
        )
    | inr (set, new, taken) ↦ ground (
      arith,
      new,
      contains-pass items (match_item options x m) x.queue_item_id taken,
      left-pass items (match_item options x m) items,
      left-match x m items,
    )
  ]

  -- Every item is matched or related to nothing that is named.
  abbrev pub IsClosed : List CaptureQueueItem → Matching → Type 0
  IsClosed items m =
      all
        (λ x.
          contains x.queue_item_id (item_ids m.matched) || not (is_related options m.normalized x))
        items
      ≡ true

  IsClosed-pass :
      (items : List CaptureQueueItem) (m : Matching)
      → (match_pass options items m).changed ≡ false
      → (match_pass options items m ≡ m) × IsClosed items m
  unfolding match_pass
  IsClosed-pass [] m h = (refl, refl)
  IsClosed-pass (x ∷ items) m h = elim (match_item-cases x m) [
    | inl (same, fine) ↦
        let (still, closed) = IsClosed-pass items (match_item options x m) h in
        (still ∙ same, ground (arith, fine, subst (IsClosed items) same closed))
    | inr (set, new, taken) ↦
        absurd (ground (arith, changed-pass items (match_item options x m) set))
  ]

  names-match :
      (x : CaptureQueueItem) (m : Matching) (name : String)
      → contains name m.normalized ≡ true
      → contains name (match_item options x m).normalized ≡ true
  unfolding match_item
  names-match x m name h = ground arith

  names-pass :
      (items : List CaptureQueueItem) (m : Matching) (name : String)
      → contains name m.normalized ≡ true
      → contains name (match_pass options items m).normalized ≡ true
  unfolding match_pass
  names-pass [] m name h = h
  names-pass (x ∷ items) m name h =
      names-pass items (match_item options x m) name (names-match x m name h)

  -- What the passes find: a closed set that names all that was named before.
  abbrev pub Finds : List CaptureQueueItem → Matching → Matching → Type 0
  Finds items m found =
      IsClosed items found
      × ((name : String)
          → contains name m.normalized ≡ true
          → contains name found.normalized ≡ true)

  left-le : (m : Matching) (items : List CaptureQueueItem) → left m items ≤ length items
  left-le m [] = omega arith
  left-le m (x ∷ items) = ground (arith, left-le m items)

  -- With more rounds than items that are left the passes end.
  match_items-Finds :
      (fuel : ℕ) (items : List CaptureQueueItem) (m : Matching)
      → left m items < fuel
      → (found : Matching) × (match_items options fuel items m ≡ some found) × Finds items m found
  unfolding match_items
  match_items-Finds zero items m h = absurd (omega arith)
  match_items-Finds (suc fuel) items m h =
      let start = record m { changed = false } in
      let next = match_pass options items start in
      elim (Bool-cases next.changed) [
        | inl more ↦
            let (found, ends, (closed, names)) =
              match_items-Finds fuel items next
                (omega (arith, left-pass-lt items start refl more)) in
            (
              found,
              ground (arith, more, ends),
              (closed, λ name k. names name (names-pass items start name k)),
            )
        | inr over ↦
            let (still, closed) = IsClosed-pass items start over in
            (
              next,
              ground (arith, over),
              (subst (IsClosed items) (sym still) closed, λ name k. names-pass items start name k),
            )
      ]

  pub first_match_items-Finds :
      (items : List CaptureQueueItem) (m : Matching)
      → (found : Matching) × (match_items options (suc (length items)) items m ≡ some found)
        × Finds items m found
  first_match_items-Finds items m =
      match_items-Finds (suc (length items)) items m (omega (arith, left-le m items))
