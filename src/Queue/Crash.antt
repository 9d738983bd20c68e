-- ===== src/Queue/Crash.antt =====
-- The changes that one operation makes, as a sequence that may be cut anywhere: `#write`,
-- `#updateStateIndex`, `#quarantine`, `#readIndexed`.
use proven_loop.Shared.{
  ℕ, ◌≡◌, sym, ap, ◌∙◌, inl, inr, true, List, [], ◌∷◌, ◌++◌, String, String_eq, Pair_eq, ℕ_eq,
  same_refl, if_cases, contains, arith,
}
use proven_loop.Shared.Result.{ok}
use proven_loop.Shared.Assoc.{lookup-insert, contains-touch}
use proven_loop.Queue.Data.{
  CaptureQueueState, acknowledged, pending, claimed, retry, dead_letter, CaptureQueueItem,
  terminal_queue_state,
}
use proven_loop.Queue.Disk.{
  stored, IndexName, Disk, DiskStep, touch_active, put_file, touch_acknowledged_of, apply,
  apply_all, active_name, update_state_index, write_steps, read, parse_file,
}
use proven_loop.Shared.{zero, suc, take}
use proven_loop.Queue.Index.{Indexed, Safe, step-Indexed}

module _ (item_bytes : CaptureQueueItem → ℕ) where
  abbrev pub SafeAll : List DiskStep → Disk → Type 0
  SafeAll [] d = Unit
  SafeAll (s ∷ ss) d = Safe item_bytes s d × SafeAll ss (apply s d)

  pub prefix-Indexed :
      (k : ℕ) (ss : List DiskStep) (d : Disk)
      → SafeAll ss d
      → Indexed item_bytes d
      → Indexed item_bytes (apply_all (take k ss) d)
  unfolding apply_all
  prefix-Indexed zero ss d safe i = i
  prefix-Indexed (suc k) [] d safe i = i
  prefix-Indexed (suc k) (s ∷ ss) d (safe, safes) i =
      prefix-Indexed k ss (apply s d) safes (step-Indexed item_bytes s d safe i)

  pub all-Indexed :
      (ss : List DiskStep) (d : Disk)
      → SafeAll ss d
      → Indexed item_bytes d
      → Indexed item_bytes (apply_all ss d)
  unfolding apply_all
  all-Indexed [] d safe i = i
  all-Indexed (s ∷ ss) d (safe, safes) i =
      all-Indexed ss (apply s d) safes (step-Indexed item_bytes s d safe i)

  acknowledged-SafeAll :
      (state : CaptureQueueState) (id : String) (ss : List DiskStep) (d : Disk)
      → ((names : List IndexName) → SafeAll ss (record d { acknowledged_names = names }))
      → SafeAll (touch_acknowledged_of state id ++ ss) d
  unfolding apply
  acknowledged-SafeAll (acknowledged at) id ss d h = (tt, h _)
  acknowledged-SafeAll pending id ss d h = h d.acknowledged_names
  acknowledged-SafeAll (claimed at expires owner) id ss d h = h d.acknowledged_names
  acknowledged-SafeAll (retry error at) id ss d h = h d.acknowledged_names
  acknowledged-SafeAll (dead_letter error) id ss d h = h d.acknowledged_names

  -- The index of an item is brought in line with what its file says.
  pub update_state_index-SafeAll :
      (x : CaptureQueueItem) (d : Disk)
      → (terminal_queue_state x.state ≡ true
          → (y : CaptureQueueItem) → read item_bytes x.queue_item_id d ≡ ok y
          → terminal_queue_state y.state ≡ true)
      → SafeAll (update_state_index x) d
  unfolding update_state_index read
  update_state_index-SafeAll x d h = acknowledged-SafeAll x.state x.queue_item_id _ d λ names.
      if_cases (λ ss. SafeAll ss (record d { acknowledged_names = names }))
        (terminal_queue_state x.state) (λ t. (h t, tt)) (λ f. (tt, tt))

  read-written :
      (x y : CaptureQueueItem) (d : Disk)
      → read item_bytes x.queue_item_id (apply (put_file x.queue_item_id (stored x)) d) ≡ ok y
      → x ≡ y
  unfolding read apply parse_file
  read-written x y d r = ground (
    arith,
    r,
    lookup-insert x.queue_item_id x.queue_item_id (stored x) d.files,
    same_refl x.queue_item_id,
  )

  touched :
      (x : CaptureQueueItem) (d : Disk)
      → contains (active_name x) (apply (touch_active (active_name x)) d).active ≡ true
  unfolding apply
  touched x d =
      ground
        (arith, contains-touch (active_name x) (active_name x) d.active, same_refl (active_name x))

  pub write_steps-SafeAll : (x : CaptureQueueItem) (d : Disk) → SafeAll (write_steps x) d
  unfolding write_steps
  write_steps-SafeAll x d =
      if_cases (λ ss. SafeAll ss d) (terminal_queue_state x.state)
        (λ t. (
          inl t,
          update_state_index-SafeAll x _
              λ t' y r. ap (λ z. terminal_queue_state z.state) (sym (read-written x y d r)) ∙ t,
        ))
        (λ f. (tt, (inr (touched x d), tt)))

  -- Where the process dies while an item is written: after any number of the changes that
  -- publish the item, every item that can be read and is not finished still stands in the active
  -- index, if that was so before.
  pub write-crash-Indexed :
      (k : ℕ) (x : CaptureQueueItem) (d : Disk)
      → Indexed item_bytes d
      → Indexed item_bytes (apply_all (take k (write_steps x)) d)
  write-crash-Indexed k x d i = prefix-Indexed k (write_steps x) d (write_steps-SafeAll x d) i
