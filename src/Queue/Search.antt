-- ===== src/Queue/Search.antt =====
-- What `claimNext` hands out: the search over the candidates, and the item that it writes.
use proven_loop.Shared.{
  ℕ, ◌≡◌, ◌≢◌, refl, subst, inl, inr, true, List, [], ◌∷◌, Option, none, some, String, String_eq,
  Pair_eq, ℕ_eq, if_cases, Bool-cases, arith,
}
use proven_loop.Shared.Result.{Result, ok, err}
use proven_loop.Shared.Assoc.{lookup}
use proven_loop.Queue.Data.{CaptureQueueItem, terminal_queue_state, QueueError}
use proven_loop.Queue.Disk.{Disk, apply, apply_all, read}
use proven_loop.Queue.State.{WindowsCaptureQueue}
use proven_loop.Queue.Indexing.{read-id}
use proven_loop.Queue.Leases.{update_state_index-files}
use proven_loop.Shared.Assoc.{lookup-delete}
use proven_loop.Queue.Disk.{
  IndexName, drop_active, settle_unread, quarantine, live_or_settled, read_active,
}
use proven_loop.Queue.Data.{corrupt_item}
use proven_loop.Queue.Claims.{is_due, scan_step, scan}

module _ (item_bytes : CaptureQueueItem → ℕ) where
  -- Whatever could be read can still be read, and is the same.
  abbrev pub Kept : Disk → Disk → Type 0
  Kept d d' =
      (id : String) (z : CaptureQueueItem)
      → read item_bytes id d ≡ ok z
      → read item_bytes id d' ≡ ok z

  pub same_files-Kept : (d d' : Disk) → d'.files ≡ d.files → Kept d d'
  unfolding read
  same_files-Kept d d' e id z r = ground (arith, e, r)

  read-missing :
      (id : String) (d : Disk)
      → lookup id d.files ≡ none
      → (z : CaptureQueueItem) → read item_bytes id d ≢ ok z
  unfolding read
  read-missing id d e z r = ground (arith, e, r)

  pub quarantine-Kept :
      (id : String) (d : Disk) (e : QueueError)
      → read item_bytes id d ≡ err e
      → Kept d (quarantine id d)
  unfolding quarantine read apply_all apply
  quarantine-Kept id d e r j z s =
      ground (arith, r, s, lookup-delete id j d.files, String_eq.is_same_iff id j)

  settle-Kept :
      (e : QueueError) (n : IndexName) (d : Disk)
      → read item_bytes n.1 d ≡ err e
      → Kept d (apply (drop_active n) (settle_unread e n.1 d))
  unfolding settle_unread apply read
  settle-Kept corrupt_item n d r = quarantine-Kept n.1 d corrupt_item r
  settle-Kept _ n d r = λ id z s. s

  live-Kept :
      (n : IndexName) (r : Result QueueError CaptureQueueItem) (d : Disk)
      → read item_bytes n.1 d ≡ r
      → Kept d (live_or_settled item_bytes n r d).1
  live-Kept n (ok x) d h =
      if_cases (λ (p : Option CaptureQueueItem × Disk). Kept d p.1) (terminal_queue_state x.state)
        (λ t. same_files-Kept d _ (update_state_index-files item_bytes x d)) (λ f id z s. s)
  live-Kept n (err e) d h = settle-Kept e n d h

  pub read_active-Kept : (n : IndexName) (d : Disk) → Kept d (read_active item_bytes n d).1
  unfolding read_active
  read_active-Kept n d = live-Kept n (read item_bytes n.1 d) d refl

  live-found :
      (n : IndexName) (r : Result QueueError CaptureQueueItem) (d : Disk) (x : CaptureQueueItem)
      → (live_or_settled item_bytes n r d).0 ≡ some x
      → r ≡ ok x
  live-found n (ok y) d x h = ground arith
  live-found n (err e) d x h = absurd (cc)

  read_active-found :
      (n : IndexName) (d : Disk) (x : CaptureQueueItem)
      → (read_active item_bytes n d).0 ≡ some x
      → read item_bytes n.1 d ≡ ok x
  unfolding read_active
  read_active-found n d x h = live-found n (read item_bytes n.1 d) d x h

  -- What a search that found an item left, and what it found.
  abbrev pub Found : ℕ → WindowsCaptureQueue → CaptureQueueItem → WindowsCaptureQueue → Type 0
  Found now q x q' =
      Kept q.disk q'.disk
      × (read item_bytes x.queue_item_id q'.disk ≡ ok x)
      × (is_due now x.state ≡ true)
      × (q'.options ≡ q.options)
      × (q'.initialized ≡ q.initialized)

  read_active-back :
      (n : IndexName) (d : Disk) (y : CaptureQueueItem)
      → (read_active item_bytes n d).0 ≡ some y
      → read item_bytes y.queue_item_id (read_active item_bytes n d).1 ≡ ok y
  read_active-back n d y e =
      let r = read_active-found n d y e in
      let i = read-id item_bytes n.1 d y r in read_active-Kept n d y.queue_item_id y (cc)

  abbrev found_one :
      CaptureQueueItem → WindowsCaptureQueue → Option CaptureQueueItem × WindowsCaptureQueue
  found_one y q = (some y, q)

  same_result :
      (y x : CaptureQueueItem) (q1 q' : WindowsCaptureQueue)
      → found_one y q1 ≡ (some x, q')
      → (y ≡ x) × (q1 ≡ q')
  same_result y x q1 q' h = (cc, cc)

  extend :
      (now : ℕ) (q q1 q' : WindowsCaptureQueue) (x : CaptureQueueItem)
      → Kept q.disk q1.disk
      → q1.options ≡ q.options
      → q1.initialized ≡ q.initialized
      → Found now q1 x q'
      → Found now q x q'
  extend now q q1 q' x k o i (k', r, due, o', i') = (λ id z s. k' id z (k id z s), r, due, cc, cc)

  step-Found :
      (now : ℕ) (n : IndexName) (ns : List IndexName) (q : WindowsCaptureQueue)
      (found : Option CaptureQueueItem) (d : Disk) (x : CaptureQueueItem) (q' : WindowsCaptureQueue)
      → Kept q.disk d
      → ((y : CaptureQueueItem) → found ≡ some y → read item_bytes y.queue_item_id d ≡ ok y)
      → (scan item_bytes now ns (record q { candidates = ns; disk = d }) ≡ (some x, q')
          → Found now (record q { candidates = ns; disk = d }) x q')
      → scan_step item_bytes now ns q found d
          (scan item_bytes now ns (record q { candidates = ns; disk = d }))
        ≡ (some x, q')
      → Found now q x q'
  step-Found now n ns q none d x q' k f rest h =
      extend now q (record q { candidates = ns; disk = d }) q' x k refl refl (rest h)
  step-Found now n ns q (some y) d x q' k f rest h = elim (Bool-cases (is_due now y.state)) [
    | inl due ↦
        let (e, e') =
          same_result y x (record q { candidates = ns; disk = d }) q' (ground (arith, h, due)) in
        subst (λ q''. Found now q x q'') e' (k, cc (f y refl), cc, refl, refl)
    | inr later ↦
        extend now q (record q { candidates = ns; disk = d }) q' x k refl refl
          (rest (ground (arith, h, later)))
  ]

  pub scan-Found :
      (now : ℕ) (ns : List IndexName) (q : WindowsCaptureQueue) (x : CaptureQueueItem)
      (q' : WindowsCaptureQueue)
      → scan item_bytes now ns q ≡ (some x, q')
      → Found now q x q'
  unfolding scan
  scan-Found now [] q x q' h = absurd (cc)
  scan-Found now (n ∷ ns) q x q' h =
      step-Found now n ns q _ _ x q' (read_active-Kept n q.disk)
        (λ y e. read_active-back n q.disk y e) (scan-Found now ns _ x q') h
