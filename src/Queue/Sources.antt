-- ===== src/Queue/Sources.antt =====
-- A source is entered once: `enqueueIfSourceAbsent` and its source index.
use proven_loop.Shared.{
  ℕ, ◌≡◌, refl, sym, ap, ◌∙◌, subst, Bool, true, false, List, ◌++◌, Option, none, some, String,
  String_eq, Pair_eq, ℕ_eq, same_refl, if_cases, arith, ltb,
}
use proven_loop.Shared.Result.{Result, ok, err}
use proven_loop.Shared.Assoc.{lookup, lookup-insert}
use proven_loop.Queue.Data.{
  CaptureQueueState, claimed, pending, retry, acknowledged, dead_letter, CaptureQueueItem,
  terminal_queue_state, QueueError, is_queue_item_id,
}
use proven_loop.Queue.Disk.{
  Disk, DiskStep, apply, apply_all, touch_acknowledged_of, update_state_index, write_steps,
  size_limit, read,
}
use proven_loop.Queue.Act.{◌>>=◌, ◌>>◌, return}
use proven_loop.Shared.Action.Outcomes.{bind-ok}
use proven_loop.Queue.Written.{write-ok}
use proven_loop.Queue.State.{WindowsCaptureQueue, write}
use proven_loop.Queue.Data.{is_queue_item_id}
use proven_loop.Shared.{
  ℕ, ◌≡◌, refl, sym, ap, ◌∙◌, Bool, true, false, List, ◌++◌, Option, none, some, String, String_eq,
  Pair_eq, ℕ_eq, same_refl, if_cases, arith, ltb,
}
use proven_loop.Shared.Assoc.{lookup, lookup-insert}
use proven_loop.Queue.Data.{
  CaptureQueueState, pending, claimed, dead_letter, CaptureQueueItem, terminal_queue_state,
  QueueError,
}
use proven_loop.Queue.Disk.{
  Disk, DiskStep, touch_acknowledged_of, apply, apply_all, update_state_index, write_steps,
  size_limit, read,
}
use proven_loop.Shared.Action.Keeps.{runs}
use proven_loop.Queue.Act.{◌>>=◌, ◌>>◌, return, gets}
use proven_loop.Queue.State.{WindowsCaptureQueue, on_disk, change_disk, write}
use proven_loop.Queue.Data.{CaptureEnvelope}
use proven_loop.Queue.Identity.{identities_blocked}
use proven_loop.Queue.Enqueue.{
  identities_of, predates_records_reset, pending_item, reserve_source, settle_write, accept_new,
  validated_of, validated_source_index, write_or_release, enqueue_absent, enqueue_unblocked,
  enqueue_after_reset, enqueue_if_source_absent,
}
use proven_loop.Queue.Blocking.{identities_blocked-Keeps}
use proven_loop.Queue.Enqueue.{EnqueueCaptureIfAbsentResult, duplicate, enqueued}
use proven_loop.Queue.Leases.{read-write_steps}
use proven_loop.Shared.Action.Keeps.{runs}

module _ (item_bytes : CaptureQueueItem → ℕ) where
  -- The source's index names an item that can be read and comes from that source.
  Registered : String → String → CaptureQueueItem → Disk → Type 0
  Registered key id x d =
      (lookup key d.sources ≡ some id)
      × (is_queue_item_id id ≡ true)
      × (read item_bytes id d ≡ ok x)
      × (x.envelope.deduplication_key ≡ key)

  acknowledged-sources :
      (state : CaptureQueueState) (id : String) (ss : List DiskStep) (d : Disk)
      → ((d' : Disk) → (apply_all ss d').sources ≡ d'.sources)
      → (apply_all (touch_acknowledged_of state id ++ ss) d).sources ≡ d.sources
  unfolding apply_all apply
  acknowledged-sources (acknowledged at) id ss d h = h _
  acknowledged-sources pending id ss d h = h d
  acknowledged-sources (claimed at expires owner) id ss d h = h d
  acknowledged-sources (retry error at) id ss d h = h d
  acknowledged-sources (dead_letter error) id ss d h = h d

  write_steps-sources :
      (x : CaptureQueueItem) (d : Disk) → (apply_all (write_steps x) d).sources ≡ d.sources
  unfolding write_steps update_state_index apply_all apply
  write_steps-sources x d =
      if_cases (λ ss. (apply_all ss d).sources ≡ d.sources) (terminal_queue_state x.state)
        (λ t. acknowledged-sources x.state x.queue_item_id _ _ λ d'.
          if_cases (λ ss. (apply_all ss d').sources ≡ d'.sources) (terminal_queue_state x.state)
            (λ t. refl) (λ f. refl))
        (λ f. refl)

  settle_write-ok :
      (existing : Option String) (x y : CaptureQueueItem)
      (r : Result QueueError (Unit {0}) × WindowsCaptureQueue) (q' : WindowsCaptureQueue)
      → settle_write existing x r ≡ (ok y, q')
      → (y ≡ x) × (r ≡ (ok tt, q'))
  unfolding settle_write
  settle_write-ok existing x y (ok done, q) q' h = (cc, cc)
  settle_write-ok existing x y (err e, q) q' h = absurd (cc)

  write_or_release-ok :
      (existing : Option String) (x y : CaptureQueueItem) (q q' : WindowsCaptureQueue)
      → write_or_release item_bytes existing x q ≡ (ok y, q')
      → (y ≡ x)
        × (ltb size_limit (item_bytes x) ≡ false)
        × (q' ≡ record q { disk = apply_all (write_steps x) q.disk })
  unfolding write_or_release
  write_or_release-ok existing x y q q' h =
      let (e, w) = settle_write-ok existing x y (write item_bytes x q) q' h in
      let (small, same) = write-ok item_bytes x q q' tt w in (e, small, same)

  module _ (digest : String → String → String → String) where
    reserved-Registered :
        (e : CaptureEnvelope) (id : String) (now : ℕ) (d : Disk)
        → is_queue_item_id id ≡ true
        → ltb size_limit (item_bytes (pending_item e id now)) ≡ false
        → Registered e.deduplication_key id (pending_item e id now) (
            apply_all
              (write_steps (pending_item e id now))
              (reserve_source none e.deduplication_key id d))
    unfolding Registered reserve_source apply pending_item
    reserved-Registered e id now d v small = (
      ground (
        arith,
        write_steps-sources (pending_item e id now) (reserve_source none e.deduplication_key id d),
        lookup-insert e.deduplication_key e.deduplication_key id d.sources,
        same_refl e.deduplication_key,
      ),
      v,
      read-write_steps item_bytes (pending_item e id now) _ v small,
      refl,
    )

    enqueue_absent-Registered :
        (e : CaptureEnvelope) (id : String) (now : ℕ) (owner : Option String)
        (q q' : WindowsCaptureQueue) (x : CaptureQueueItem)
        → is_queue_item_id id ≡ true
        → enqueue_absent item_bytes digest e id now owner q ≡ (ok (enqueued x), q')
        → Registered e.deduplication_key id x q'.disk
    unfolding enqueue_absent ◌>>◌
    enqueue_absent-Registered e id now (some owner) q q' x v h = absurd (cc)
    enqueue_absent-Registered e id now none q q' x v h =
        let (u, q1, a, b) =
          bind-ok (change_disk (reserve_source none e.deduplication_key id))
            (λ _.
              write_or_release item_bytes none (pending_item e id now) >>= λ y. return (enqueued y))
            q (enqueued x) q' h in
        let (y, q2, w, r) =
          bind-ok (write_or_release item_bytes none (pending_item e id now))
            (λ y. return (enqueued y)) q1 (enqueued x) q' b in
        let (ey, small, eq) = write_or_release-ok none (pending_item e id now) y q1 q2 w in
        let there = reserved-Registered e id now q.disk v small in
        let ex : x ≡ pending_item e id now = cc in
        let ed : q'.disk
            ≡ apply_all (write_steps (pending_item e id now))
                (reserve_source none e.deduplication_key id q.disk) =
          ap (λ p. p.1.disk) (sym r)
          ∙ ap (λ s. s.disk) eq
          ∙ ap (λ p. apply_all (write_steps (pending_item e id now)) p.1.disk) (sym a) in
        subst (λ z. Registered e.deduplication_key id z q'.disk) (sym ex)
          (subst (λ d. Registered e.deduplication_key id (pending_item e id now) d) (sym ed) there)

    accept_new-ok :
        (id : String) (q q1 : WindowsCaptureQueue) (u : Unit {0})
        → accept_new id q ≡ (ok u, q1)
        → (q1 ≡ q) × (is_queue_item_id id ≡ true)
    unfolding accept_new ◌>>◌ ◌>>=◌
    accept_new-ok id q q1 u h = ground arith

    validated-Registered :
        (key id : String) (x : CaptureQueueItem) (d : Disk)
        → Registered key id x d
        → validated_source_index item_bytes key d ≡ (ok (some id), d)
    unfolding validated_source_index validated_of Registered
    validated-Registered key id x d (l, v, r, k) = ground (arith, l, v, r, k, same_refl key)

    blind-Registered :
        (key id : String) (x : CaptureQueueItem) (d : Disk) (k v : Option String)
        (t : List (String × String))
        → Registered key id x d
        → Registered key id x (record d { identity_key = k; identity_verifier = v; tombstones = t })
    unfolding Registered read
    blind-Registered key id x d k v t r = r

    unblocked-duplicate :
        (e : CaptureEnvelope) (id id' : String) (now : ℕ) (blocked : Bool) (x : CaptureQueueItem)
        (q q' : WindowsCaptureQueue) (r : EnqueueCaptureIfAbsentResult)
        → Registered e.deduplication_key id x q.disk
        → enqueue_unblocked item_bytes digest e id' now blocked q ≡ (ok r, q')
        → r ≡ duplicate
    unfolding enqueue_unblocked enqueue_absent ◌>>=◌
    unblocked-duplicate e id id' now true x q q' r g h = cc
    unblocked-duplicate e id id' now false x q q' r g h =
        ground (arith, h, validated-Registered e.deduplication_key id x q.disk g)

    after_reset-duplicate :
        (e : CaptureEnvelope) (id id' : String) (now : ℕ) (old : Bool) (x : CaptureQueueItem)
        (q q' : WindowsCaptureQueue) (r : EnqueueCaptureIfAbsentResult)
        → Registered e.deduplication_key id x q.disk
        → enqueue_after_reset item_bytes digest e id' now old q ≡ (ok r, q')
        → r ≡ duplicate
    unfolding enqueue_after_reset
    after_reset-duplicate e id id' now true x q q' r g h = cc
    after_reset-duplicate e id id' now false x q q' r g h =
        let (blocked, q1, a, b) =
          bind-ok (on_disk (identities_blocked digest (identities_of e))) _ q r q' h in
        unblocked-duplicate e id id' now blocked x q1 q' r
          (subst (λ p. Registered e.deduplication_key id x p.1.disk) a
            (runs (Registered e.deduplication_key id x) _
              (identities_blocked-Keeps _ (blind-Registered _ id x) digest _) q.disk g))
          b

    unblocked-Registered :
        (e : CaptureEnvelope) (id : String) (now : ℕ) (blocked : Bool) (q q' : WindowsCaptureQueue)
        (x : CaptureQueueItem)
        → is_queue_item_id id ≡ true
        → enqueue_unblocked item_bytes digest e id now blocked q ≡ (ok (enqueued x), q')
        → Registered e.deduplication_key id x q'.disk
    unfolding enqueue_unblocked
    unblocked-Registered e id now true q q' x v h = absurd (cc)
    unblocked-Registered e id now false q q' x v h =
        let (owner, q1, a, b) =
          bind-ok (on_disk (validated_source_index item_bytes e.deduplication_key)) _ q (enqueued x)
            q' h in
        enqueue_absent-Registered e id now owner q1 q' x v b

    after_reset-Registered :
        (e : CaptureEnvelope) (id : String) (now : ℕ) (old : Bool) (q q' : WindowsCaptureQueue)
        (x : CaptureQueueItem)
        → is_queue_item_id id ≡ true
        → enqueue_after_reset item_bytes digest e id now old q ≡ (ok (enqueued x), q')
        → Registered e.deduplication_key id x q'.disk
    unfolding enqueue_after_reset
    after_reset-Registered e id now true q q' x v h = absurd (cc)
    after_reset-Registered e id now false q q' x v h =
        let (blocked, q1, a, b) =
          bind-ok (on_disk (identities_blocked digest (identities_of e))) _ q (enqueued x) q' h in
        unblocked-Registered e id now blocked q1 q' x v b

    enqueued-Registered :
        (e : CaptureEnvelope) (id : String) (now : ℕ) (q q' : WindowsCaptureQueue)
        (x : CaptureQueueItem)
        → enqueue_if_source_absent item_bytes digest e id now q ≡ (ok (enqueued x), q')
        → Registered e.deduplication_key id x q'.disk
    unfolding enqueue_if_source_absent ◌>>◌
    enqueued-Registered e id now q q' x h =
        let (u, q1, a, b) = bind-ok (accept_new id) _ q (enqueued x) q' h in
        let (same, v) = accept_new-ok id q q1 u a in
        let (old, q2, c, w) =
          bind-ok (gets (λ s. predates_records_reset e.timestamp s.disk))
            (enqueue_after_reset item_bytes digest e id now) q1 (enqueued x) q' b in
        after_reset-Registered e id now old q2 q' x v w

    -- A source that was entered is not entered again: whoever offers an event of the same source to
    -- the queue that the first entry left, whatever its id and time, is told that it is a duplicate,
    -- unless the attempt is refused.
    pub enqueue_if_source_absent-once :
        (e e' : CaptureEnvelope) (id id' : String) (now now' : ℕ) (x : CaptureQueueItem)
        (q q' q'' : WindowsCaptureQueue) (r : EnqueueCaptureIfAbsentResult)
        → enqueue_if_source_absent item_bytes digest e id now q ≡ (ok (enqueued x), q')
        → e'.deduplication_key ≡ e.deduplication_key
        → enqueue_if_source_absent item_bytes digest e' id' now' q' ≡ (ok r, q'')
        → r ≡ duplicate
    unfolding enqueue_if_source_absent ◌>>◌
    enqueue_if_source_absent-once e e' id id' now now' x q q' q'' r h same h' =
        let there = enqueued-Registered e id now q q' x h in
        let (u, q1, a, b) = bind-ok (accept_new id') _ q' r q'' h' in
        let (still, v) = accept_new-ok id' q' q1 u a in
        let (old, q2, c, w) =
          bind-ok (gets (λ s. predates_records_reset e'.timestamp s.disk))
            (enqueue_after_reset item_bytes digest e' id' now') q1 r q'' b in
        let here : q2 ≡ q' = cc in
        after_reset-duplicate e' id id' now' old x q2 q'' r
          (subst (λ s. Registered e'.deduplication_key id x s.disk) (sym here)
            (subst (λ key. Registered key id x q'.disk) (sym same) there))
          w
