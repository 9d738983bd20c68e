-- ===== src/Queue/Vouched.antt =====
-- Every acknowledged item that the queue can read back is vouched for: a condition on its envelope,
-- such as that the store has its event, which all ends of a claim but `acknowledge` keep.
use Prim.Native.Nat.{ℕ}
use mathlib.Core.Logic.{◌⊎◌, inl, inr}
use mathlib.Core.Option.{Option}
use mathlib.Core.Path.{◌≡◌, sym, subst}
use native.Mathlib.Omega.{arith}
use proven_loop.Shared.{
  Bool, true, false, String, String_eq, Pair_eq, ℕ_eq, List_eq, Option_eq, ◌==◌, if_cases,
  Bool-cases,
}
use proven_loop.Shared.Assoc.{lookup-insert, lookup-delete}
use proven_loop.Shared.{take}
use proven_loop.Queue.Written.Files.{take_write-files}
use proven_loop.Shared.Result.{Result, ok, err}
use proven_loop.Queue.Data.{
  CaptureEnvelope, CaptureQueueItem, terminal_queue_state, QueueError, corrupt_item,
}
use proven_loop.Queue.Disk.{
  IndexName, Disk, stored, drop_active, live_or_settled, apply, apply_all, update_state_index,
  write_steps, quarantine, settle_unread, read, read_active, parse_file,
}
use proven_loop.Queue.Passing.{Passing, is_acknowledged}
use proven_loop.Queue.Leases.{update_state_index-files, write_steps-files}

pub refutes : {b : Bool} → b ≡ false → b ≡ true → ⊥
refutes f t = cc

module _ (item_bytes : CaptureQueueItem → ℕ) where
  -- Whatever can be read now could be read before, and is the same.
  abbrev pub Fewer : Disk → Disk → Type 0
  Fewer d d' =
      (id : String) (x : CaptureQueueItem)
      → read item_bytes id d' ≡ ok x
      → read item_bytes id d ≡ ok x

  pub same_files-Fewer : (d d' : Disk) → d'.files ≡ d.files → Fewer d d'
  unfolding read
  same_files-Fewer d d' e id x r = ground (arith, e, r)

  pub quarantine-Fewer : (id : String) (d : Disk) → Fewer d (quarantine id d)
  unfolding quarantine read apply_all apply
  quarantine-Fewer id d j x r = ground (arith, r, lookup-delete id j d.files)

  settle_unread-Fewer : (e : QueueError) (id : String) (d : Disk) → Fewer d (settle_unread e id d)
  unfolding settle_unread
  settle_unread-Fewer corrupt_item id d = quarantine-Fewer id d
  settle_unread-Fewer _ id d = λ j x r. r

  drop_active-Fewer :
      (n : IndexName) (d d' : Disk) → Fewer d d' → Fewer d (apply (drop_active n) d')
  unfolding apply read
  drop_active-Fewer n d d' h = h

  live-Fewer :
      (n : IndexName) (r : Result QueueError CaptureQueueItem) (d : Disk)
      → Fewer d (live_or_settled item_bytes n r d).1
  live-Fewer n (ok x) d =
      if_cases (λ (p : Option CaptureQueueItem × Disk). Fewer d p.1) (terminal_queue_state x.state)
        (λ t.
          same_files-Fewer d (apply_all (update_state_index x) d)
            (update_state_index-files item_bytes x d))
        (λ f id z s. s)
  live-Fewer n (err e) d =
      drop_active-Fewer n d (settle_unread e n.1 d) (settle_unread-Fewer e n.1 d)

  pub read_active-Fewer : (n : IndexName) (d : Disk) → Fewer d (read_active item_bytes n d).1
  unfolding read_active
  read_active-Fewer n d = live-Fewer n (read item_bytes n.1 d) d

  -- A file that was just written, or a file as it was.
  read-written :
      (y : CaptureQueueItem) (d : Disk) (id : String) (x : CaptureQueueItem)
      → read item_bytes id (apply_all (write_steps y) d) ≡ ok x
      → (x ≡ y) ⊎ (read item_bytes id d ≡ ok x)
  unfolding read parse_file
  read-written y d id x r = elim (Bool-cases (y.queue_item_id == id)) [
    | inl same ↦ inl (
        ground (
          arith,
          r,
          same,
          write_steps-files item_bytes y d,
          lookup-insert y.queue_item_id id (stored y) d.files,
        ))
    | inr other ↦ inr (
        ground (
          arith,
          r,
          other,
          write_steps-files item_bytes y d,
          lookup-insert y.queue_item_id id (stored y) d.files,
        ))
  ]

  pub read-part :
      (done : ℕ) (y : CaptureQueueItem) (d : Disk) (id : String) (x : CaptureQueueItem)
      → read item_bytes id (apply_all (take done (write_steps y)) d) ≡ ok x
      → (x ≡ y) ⊎ (read item_bytes id d ≡ ok x)
  unfolding read parse_file
  read-part done y d id x r = elim (take_write-files done y d) [
    | inl same ↦ inr (ground (arith, r, same))
    | inr put ↦ elim (Bool-cases (y.queue_item_id == id)) [
      | inl here ↦
          inl (ground (arith, r, here, put, lookup-insert y.queue_item_id id (stored y) d.files))
      | inr other ↦
          inr (ground (arith, r, other, put, lookup-insert y.queue_item_id id (stored y) d.files))
    ]
  ]

  module _ (IsIn : CaptureEnvelope → Type 0) where
    abbrev pub Vouched : Disk → Type 0
    Vouched d =
        (id : String) (x : CaptureQueueItem)
        → read item_bytes id d ≡ ok x
        → is_acknowledged x.state ≡ true
        → IsIn x.envelope

    pub write-Vouched :
        (y : CaptureQueueItem) (d : Disk)
        → (is_acknowledged y.state ≡ true → IsIn y.envelope)
        → Vouched d
        → Vouched (apply_all (write_steps y) d)
    write-Vouched y d allowed v id x r a = elim (read-written y d id x r) [
      | inl same ↦
          subst (λ z. IsIn z.envelope) (sym same)
            (allowed (subst (λ z. is_acknowledged z.state ≡ true) same a))
      | inr old ↦ v id x old a
    ]

    pub fault-Vouched :
        (done : ℕ) (y : CaptureQueueItem) (d : Disk)
        → (is_acknowledged y.state ≡ true → IsIn y.envelope)
        → Vouched d
        → Vouched (apply_all (take done (write_steps y)) d)
    fault-Vouched done y d allowed v id x r a = elim (read-part done y d id x r) [
      | inl same ↦
          subst (λ z. IsIn z.envelope) (sym same)
            (allowed (subst (λ z. is_acknowledged z.state ≡ true) same a))
      | inr old ↦ v id x old a
    ]

    abbrev pub vouched_passing : Passing item_bytes
    vouched_passing = record {
      Holds = Vouched;
      Allowed = λ x. is_acknowledged x.state ≡ true → IsIn x.envelope;
      open_allowed = λ x f t. absurd (refutes f t);
      read_keeps = λ n d v id x r. v id x (read_active-Fewer n d id x r);
      write_keeps = λ y d. write-Vouched y d;
      fault_keeps = fault-Vouched;
    }
