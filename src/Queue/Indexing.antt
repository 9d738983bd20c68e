-- ===== src/Queue/Indexing.antt =====
-- Every operation of the queue keeps the active index complete.
use proven_loop.Shared.{◌≢◌}
use proven_loop.Shared.{
  ℕ, ◌≡◌, refl, sym, ap, ◌∙◌, [], ◌∷◌, Option, none, some, String, String_eq, Pair_eq, ℕ_eq,
  same_refl, if_cases, arith,
}
use proven_loop.Shared.Result.{Result, ok, err}
use proven_loop.Shared.Assoc.{lookup, lookup-delete}
use proven_loop.Queue.Data.{CaptureQueueItem, terminal_queue_state, QueueError, corrupt_item}
use proven_loop.Queue.Disk.{
  FileContent, IndexName, Disk, drop_active, drop_file, add_quarantined, live_or_settled, apply,
  apply_all, update_state_index, write_steps, quarantine, settle_unread, read, read_active,
  parse_file,
}
use proven_loop.Queue.Index.{Indexed, step-Indexed}
use proven_loop.Queue.Crash.{all-Indexed, update_state_index-SafeAll, write_steps-SafeAll}
use proven_loop.Shared.Action.Keeps.{Keeps}
use proven_loop.Queue.Crash.{write-crash-Indexed}
use proven_loop.Queue.Written.{write-Keeps}
use proven_loop.Queue.State.{WindowsCaptureQueue, write}

module _ (item_bytes : CaptureQueueItem → ℕ) where
  abbrev pub Good : WindowsCaptureQueue → Type 0
  Good q = Indexed item_bytes q.disk

  quarantine_cases :
      (id : String) (d : Disk) (o : Option FileContent)
      → Indexed item_bytes d
      → Indexed item_bytes
          (elim o [ none ↦ d | some c ↦ apply_all (add_quarantined id ∷ drop_file id ∷ []) d ])
  quarantine_cases id d none i = i
  quarantine_cases id d (some c) i = all-Indexed item_bytes _ d (tt, (tt, tt)) i

  pub quarantine-Indexed :
      (id : String) (d : Disk) → Indexed item_bytes d → Indexed item_bytes (quarantine id d)
  unfolding quarantine
  quarantine-Indexed id d i = quarantine_cases id d (lookup id d.files) i

  pub settle_unread-Indexed :
      (e : QueueError) (id : String) (d : Disk)
      → Indexed item_bytes d
      → Indexed item_bytes (settle_unread e id d)
  unfolding settle_unread
  settle_unread-Indexed corrupt_item id d i = quarantine-Indexed id d i
  settle_unread-Indexed _ id d i = i

  read-quarantine :
      (id : String) (d : Disk) (y : CaptureQueueItem) → read item_bytes id (quarantine id d) ≢ ok y
  unfolding read quarantine apply_all apply
  read-quarantine id d y r = ground (arith, r, lookup-delete id id d.files, same_refl id)

  settle-read :
      (e : QueueError) (id : String) (d : Disk) (y : CaptureQueueItem)
      → read item_bytes id d ≡ err e
      → read item_bytes id (settle_unread e id d) ≢ ok y
  unfolding settle_unread
  settle-read corrupt_item id d y h r = read-quarantine id d y r
  settle-read _ id d y h r = cc

  pub read-id :
      (id : String) (d : Disk) (x : CaptureQueueItem)
      → read item_bytes id d ≡ ok x
      → x.queue_item_id ≡ id
  unfolding read parse_file
  read-id id d x r = ground (arith, r, String_eq.is_same_iff x.queue_item_id id)

  pub same_item :
      (id : String) (d : Disk) (x y : CaptureQueueItem)
      → read item_bytes id d ≡ ok x
      → read item_bytes x.queue_item_id d ≡ ok y
      → x ≡ y
  same_item id d x y r s = cc (read-id id d x r)

  read_active_cases :
      (n : IndexName) (d : Disk) (r : Result QueueError CaptureQueueItem)
      → read item_bytes n.1 d ≡ r
      → Indexed item_bytes d
      → Indexed item_bytes (live_or_settled item_bytes n r d).1
  read_active_cases n d (ok x) h i =
      if_cases (λ (p : Option CaptureQueueItem × Disk). Indexed item_bytes p.1)
        (terminal_queue_state x.state)
        (λ t.
          all-Indexed item_bytes (update_state_index x) d
            (update_state_index-SafeAll item_bytes x d
              λ _ y s. ap (λ z. terminal_queue_state z.state) (sym (same_item n.1 d x y h s)) ∙ t)
            i)
        (λ f. i)
  read_active_cases n d (err e) h i =
      step-Indexed item_bytes (drop_active n) _ (λ y s. absurd (settle-read e n.1 d y h s))
        (settle_unread-Indexed e n.1 d i)

  pub read_active-Indexed :
      (n : IndexName) (d : Disk)
      → Indexed item_bytes d
      → Indexed item_bytes (read_active item_bytes n d).1
  unfolding read_active
  read_active-Indexed n d i = read_active_cases n d (read item_bytes n.1 d) refl i

  pub write-Indexed : (x : CaptureQueueItem) → Keeps Good (write item_bytes x)
  write-Indexed x =
      write-Keeps item_bytes Good x
        (λ q i.
          all-Indexed item_bytes (write_steps x) q.disk (write_steps-SafeAll item_bytes x q.disk) i)
        (λ done q i. write-crash-Indexed item_bytes done x q.disk i)
