-- ===== src/Queue/Index.antt =====
-- The active index against the item files: what `#touchIndex`, `#updateStateIndex` and the order of
-- the changes in `#write` are for.
use proven_loop.Shared.{
  ℕ, ◌≡◌, ap, ◌∙◌, ◌⊎◌, inl, inr, true, false, String, String_eq, Pair_eq, ℕ_eq, Bool-cases,
  contains, ◌==◌, arith,
}
use proven_loop.Shared.Result.{ok}
use proven_loop.Shared.Assoc.{lookup-insert, lookup-delete, contains-touch, contains-unlink}
use proven_loop.Queue.Data.{CaptureQueueItem, terminal_queue_state}
use proven_loop.Queue.Disk.{
  FileContent, stored, malformed, IndexName, Disk, DiskStep, touch_active, drop_active,
  touch_acknowledged, drop_acknowledged, put_file, drop_file, put_source, drop_source,
  add_quarantined, apply, active_name, read, parse_file,
}

module _ (item_bytes : CaptureQueueItem → ℕ) where
  -- Every item that can be read and is not finished stands in the active index.
  unfoldable pub Indexed : Disk → Type 0
  Indexed d =
      (x : CaptureQueueItem)
      → read item_bytes x.queue_item_id d ≡ ok x
      → terminal_queue_state x.state ≡ false
      → contains (active_name x) d.active ≡ true

  -- The condition under which one change keeps `Indexed`.
  abbrev pub Safe : DiskStep → Disk → Type 0
  Safe (drop_active n) d =
      (x : CaptureQueueItem) → read item_bytes n.1 d ≡ ok x → terminal_queue_state x.state ≡ true
  Safe (put_file id (stored x)) d =
      (terminal_queue_state x.state ≡ true) ⊎ (contains (active_name x) d.active ≡ true)
  Safe _ d = Unit

  read-subst :
      (n : IndexName) (x : CaptureQueueItem) (d : Disk)
      → n ≡ active_name x
      → read item_bytes x.queue_item_id d ≡ ok x
      → read item_bytes n.1 d ≡ ok x
  read-subst n x d e r = ap (λ m. read item_bytes m.1 d) e ∙ r

  drop-Indexed :
      (n : IndexName) (d : Disk)
      → Safe (drop_active n) d
      → Indexed d
      → Indexed (apply (drop_active n) d)
  unfolding apply read Indexed
  drop-Indexed n d safe i x r l = elim (Bool-cases (n == active_name x)) [
    | inl e ↦
        let t = safe x (read-subst n x d ((Pair_eq.is_same_iff n (active_name x)).0 e) r) in
        ground (arith, t, l)
    | inr e ↦ ground (arith, contains-unlink n (active_name x) d.active, i x r l, e)
  ]

  put-Indexed :
      (id : String) (c : FileContent) (d : Disk)
      → Safe (put_file id c) d
      → Indexed d
      → Indexed (apply (put_file id c) d)
  unfolding apply read Indexed parse_file
  put-Indexed id malformed d safe i x r l =
      ground (arith, lookup-insert id x.queue_item_id malformed d.files, i x, r, l)
  put-Indexed id (stored y) d safe i x r l =
      ground (arith, lookup-insert id x.queue_item_id (stored y) d.files, i x, r, l, safe)

  pub step-Indexed : (s : DiskStep) (d : Disk) → Safe s d → Indexed d → Indexed (apply s d)
  unfolding apply read Indexed
  step-Indexed (touch_active n) d safe i =
      λ x r l. ground (arith, contains-touch n (active_name x) d.active, i x r l)
  step-Indexed (drop_active n) d safe i = drop-Indexed n d safe i
  step-Indexed (touch_acknowledged n) d safe i = i
  step-Indexed (drop_acknowledged n) d safe i = i
  step-Indexed (put_file id c) d safe i = put-Indexed id c d safe i
  step-Indexed (drop_file id) d safe i =
      λ x r l. ground (arith, lookup-delete id x.queue_item_id d.files, i x, r, l)
  step-Indexed (put_source k id) d safe i = i
  step-Indexed (drop_source k) d safe i = i
  step-Indexed (add_quarantined id) d safe i = i
