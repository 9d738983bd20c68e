-- ===== src/Queue/Covered.antt =====
-- An index under construction: what holds of it while `initialize` visits the item files.
use proven_loop.Queue.Indexing.{read-id}
use proven_loop.Queue.Data.{pending}
use proven_loop.Queue.Data.{dead_letter}
use proven_loop.Queue.Data.{retry}
use proven_loop.Queue.Data.{claimed}
use proven_loop.Queue.Data.{acknowledged}
use proven_loop.Shared.{◌++◌}
use proven_loop.Shared.{subst}
use proven_loop.Shared.{same_refl}
use proven_loop.Shared.Assoc.{unlink}
use proven_loop.Shared.Assoc.{touch}
use proven_loop.Queue.Data.{CaptureQueueState}
use proven_loop.Queue.Disk.{apply_all}
use proven_loop.Shared.{◌≢◌}
use proven_loop.Shared.{◌||◌}
use proven_loop.Queue.Disk.{quarantine}
use proven_loop.Shared.{arith}
use proven_loop.Shared.{ℕ}
use proven_loop.Shared.{
  ℕ, ◌≡◌, refl, ap, ◌∙◌, true, List, [], ◌∷◌, String, String_eq, Pair_eq, ℕ_eq,
}
use proven_loop.Shared.Result.{ok, err}
use proven_loop.Queue.Data.{CaptureQueueItem, terminal_queue_state, QueueError}
use proven_loop.Queue.Disk.{Disk, update_state_index, read}
use proven_loop.Shared.{ℕ, true, false, String, String_eq, Pair_eq, ℕ_eq, ◌==◌}
use proven_loop.Queue.Data.{CaptureQueueItem, QueueError}
use proven_loop.Queue.Disk.{Disk, apply, read}
use proven_loop.Shared.{
  ℕ, ◌≡◌, ap, ◌∙◌, inl, inr, true, false, String, String_eq, Pair_eq, ℕ_eq, Bool-cases, contains,
  ◌==◌, arith,
}
use proven_loop.Shared.Result.{ok}
use proven_loop.Shared.Assoc.{lookup-delete, contains-touch, contains-unlink}
use proven_loop.Queue.Data.{CaptureQueueItem, terminal_queue_state}
use proven_loop.Queue.Disk.{
  IndexName, Disk, DiskStep, touch_active, drop_active, touch_acknowledged, apply, active_name,
  read,
}
use proven_loop.Queue.Leases.{update_state_index-files}
use proven_loop.Queue.Disk.{touch_acknowledged_of}

module _ (item_bytes : CaptureQueueItem → ℕ) where
  -- Every readable unfinished item has its name in the index or is still to be visited.
  unfoldable pub Covered : List String → Disk → Type 0
  Covered ids d =
      (x : CaptureQueueItem)
      → read item_bytes x.queue_item_id d ≡ ok x
      → terminal_queue_state x.state ≡ false
      → (contains (active_name x) d.active || contains x.queue_item_id ids) ≡ true

  pub same-Covered :
      (ids : List String) (d d' : Disk)
      → d'.files ≡ d.files
      → d'.active ≡ d.active
      → Covered ids d
      → Covered ids d'
  unfolding Covered read
  same-Covered ids d d' f a h x r l = ground (arith, f, a, h x, r, l)

  pub quarantine-Covered :
      (ids : List String) (id : String) (d : Disk) → Covered ids d → Covered ids (quarantine id d)
  unfolding Covered read quarantine apply_all apply
  quarantine-Covered ids id d h x r l =
      ground (arith, h x, r, l, lookup-delete id x.queue_item_id d.files)

  -- A visited item that could not be read is no item to cover.
  pub unread-Covered :
      (ids : List String) (id : String) (d : Disk) (e : QueueError)
      → read item_bytes id d ≡ err e
      → Covered (id ∷ ids) d
      → Covered ids d
  unfolding Covered
  unread-Covered ids id d e u h x r l = elim (Bool-cases (id == x.queue_item_id)) [
    | inl s ↦
        absurd
          (no_both id x.queue_item_id d e x ((String_eq.is_same_iff id x.queue_item_id).0 s) u r)
    | inr s ↦ ground (arith, h x r l, s)
  ]
    where
      no_both :
          (i j : String) (d : Disk) (e : QueueError) (x : CaptureQueueItem)
          → i ≡ j
          → read item_bytes i d ≡ err e
          → read item_bytes j d ≢ ok x
      no_both i j d e x s u r = absurd (cc)

  acknowledged-active :
      (state : CaptureQueueState) (id : String) (s : DiskStep) (d : Disk) (names : List IndexName)
      → ((d' : Disk) → d'.active ≡ d.active → (apply s d').active ≡ names)
      → (apply_all (touch_acknowledged_of state id ++ s ∷ []) d).active ≡ names
  unfolding apply_all apply
  acknowledged-active (acknowledged at) id s d names h =
      h (apply (touch_acknowledged (at, id)) d) refl
  acknowledged-active pending id s d names h = h d refl
  acknowledged-active (claimed at expires owner) id s d names h = h d refl
  acknowledged-active (retry error at) id s d names h = h d refl
  acknowledged-active (dead_letter error) id s d names h = h d refl

  dropped-active :
      (x : CaptureQueueItem) (d : Disk)
      → terminal_queue_state x.state ≡ true
      → (apply_all (update_state_index x) d).active ≡ unlink (active_name x) d.active
  unfolding update_state_index apply
  dropped-active x d t =
      subst
        (λ ss.
          (apply_all (touch_acknowledged_of x.state x.queue_item_id ++ ss) d).active
          ≡ unlink (active_name x) d.active)
        (ground (arith, t))
        (acknowledged-active x.state x.queue_item_id (drop_active (active_name x)) d _
          (λ d' e. ap (unlink (active_name x)) e))

  touched-active :
      (x : CaptureQueueItem) (d : Disk)
      → terminal_queue_state x.state ≡ false
      → (apply_all (update_state_index x) d).active ≡ touch (active_name x) d.active
  unfolding update_state_index apply
  touched-active x d t =
      subst
        (λ ss.
          (apply_all (touch_acknowledged_of x.state x.queue_item_id ++ ss) d).active
          ≡ touch (active_name x) d.active)
        (ground (arith, t))
        (acknowledged-active x.state x.queue_item_id (touch_active (active_name x)) d _
          (λ d' e. ap (touch (active_name x)) e))

  read-unchanged :
      (x y : CaptureQueueItem) (d : Disk)
      → read item_bytes y.queue_item_id (apply_all (update_state_index x) d) ≡ ok y
      → read item_bytes y.queue_item_id d ≡ ok y
  unfolding read
  read-unchanged x y d r = ground (arith, r, update_state_index-files item_bytes x d)

  same_read :
      (i j : String) (d : Disk) (x y : CaptureQueueItem)
      → i ≡ j
      → read item_bytes i d ≡ ok x
      → read item_bytes j d ≡ ok y
      → x ≡ y
  same_read i j d x y e r s = cc

  -- Another item's name is not touched.
  other-active :
      (x y : CaptureQueueItem) (d : Disk)
      → (x.queue_item_id == y.queue_item_id) ≡ false
      → contains (active_name y) d.active ≡ true
      → contains (active_name y) (apply_all (update_state_index x) d).active ≡ true
  other-active x y d ne c = elim (Bool-cases (terminal_queue_state x.state)) [
    | inl t ↦ ground (
      arith,
      dropped-active x d t,
      contains-unlink (active_name x) (active_name y) d.active,
      ne,
      c,
    )
    | inr t ↦
        ground
          (arith, touched-active x d t, contains-touch (active_name x) (active_name y) d.active, c)
  ]

  own-active :
      (x : CaptureQueueItem) (d : Disk)
      → terminal_queue_state x.state ≡ false
      → contains (active_name x) (apply_all (update_state_index x) d).active ≡ true
  own-active x d l = ground (
    arith,
    touched-active x d l,
    contains-touch (active_name x) (active_name x) d.active,
    same_refl (active_name x),
  )

  pub indexed-Covered :
      (ids : List String) (id : String) (x : CaptureQueueItem) (d : Disk)
      → read item_bytes id d ≡ ok x
      → Covered (id ∷ ids) d
      → Covered ids (apply_all (update_state_index x) d)
  unfolding Covered
  indexed-Covered ids id x d rx h y ry l = elim (Bool-cases (id == y.queue_item_id)) [
    | inl s ↦
        let e =
          same_read id y.queue_item_id d x y ((String_eq.is_same_iff id y.queue_item_id).0 s) rx
            (read-unchanged x y d ry) in
        let own = own-active x d (ap (λ z. terminal_queue_state z.state) e ∙ l) in
        let c =
          subst (λ z. contains (active_name z) (apply_all (update_state_index x) d).active ≡ true) e
            own in
        ground (arith, c)
    | inr s ↦
        let known = h y (read-unchanged x y d ry) l in
        let ne = ap (λ i. i == y.queue_item_id) (read-id item_bytes id d x rx) ∙ s in
        elim (Bool-cases (contains (active_name y) d.active)) [
          | inl c ↦ ground (arith, other-active x y d ne c)
          | inr c ↦ ground (arith, known, s, c)
        ]
  ]
