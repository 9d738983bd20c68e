-- ===== src/Worker/Site/Stored.antt =====
-- Nothing is acknowledged that the store did not settle: the worker, the queue and the store of
-- runCaptureWorkerOnce together.
use Prim.Native.Nat.{ℕ}
use mathlib.Core.Logic.{inl, inr}
use mathlib.Core.Option.{none, some}
use mathlib.Core.Path.{◌≡◌, refl, sym, subst}
use proven_loop.Shared.{true, String, String_eq, Pair_eq, ℕ_eq, List_eq, Option_eq}
use proven_loop.Shared.Result.{Result, ok, err}
use proven_loop.Shared.Action.{Action}
use proven_loop.Shared.Action.Keeps.{Keeps, runs}
use proven_loop.Queue.Data.{CaptureEnvelope, CaptureQueueItem, CaptureQueueClaim, QueueError}
use proven_loop.Queue.Disk.{read}
use proven_loop.Queue.State.{WindowsCaptureQueue, QueueAct}
use proven_loop.Queue.Claims
use proven_loop.Queue.Passing.{
  Keeping, claim_next-Keeping, retry_claim-Keeping, retry_after_commit-Keeping,
  dead_letter_claim-Keeping, recover_expired_claims-Keeping,
}
use proven_loop.Queue.Vouched.{Vouched, vouched_passing, write-Vouched, fault-Vouched}
use proven_loop.Queue.Leases.{acknowledge-inv}
use proven_loop.Queue.Endings.{failed_end-keeps}
use proven_loop.Queue.Claimed.{claim_next-durable}
use proven_loop.Worker.{
  WorkerError, CanonicalIngestResult, CaptureWorker, run_once, claim_from_item,
}
use proven_loop.Worker.Safe.{SafeLaws, is_committed, run_once-Safe}
use proven_loop.Worker.Site.{
  Site, Process, queue_result, store_result, on_queue, observe, mark_projection_dirty, ingest_at,
  site_host, run_capture_worker_once,
}

module _ (item_bytes : CaptureQueueItem → ℕ) (Settles : CaptureEnvelope → Type 0) where
  acknowledged-Vouched :
      (x : CaptureQueueItem) (c : CaptureQueueClaim) (checked now : ℕ) (q : WindowsCaptureQueue)
      (r : Result QueueError CaptureQueueItem × WindowsCaptureQueue)
      → Claims.acknowledge item_bytes c checked now q ≡ r
      → read item_bytes c.queue_item_id q.disk ≡ ok x
      → Settles x.envelope
      → Vouched item_bytes Settles q.disk
      → Vouched item_bytes Settles r.1.disk
  acknowledged-Vouched x c checked now q (ok y, q') h back has v =
      let (z, (init, found, active), ey, small, eq) =
        acknowledge-inv item_bytes c checked now q q' y h in
      let same : z ≡ x = cc in
      subst (λ (p : WindowsCaptureQueue). Vouched item_bytes Settles p.disk) (sym eq)
        (write-Vouched item_bytes Settles y q.disk (λ _. subst Settles (cc) has) v)
  acknowledged-Vouched x c checked now q (err e, q') h back has v =
      elim (failed_end-keeps item_bytes c "" none checked now q q' e (inl h)) [
        | inl same ↦
            subst (λ (p : WindowsCaptureQueue). Vouched item_bytes Settles p.disk) (sym same) v
        | inr (z, y, done, found, id, envelope, failed, part) ↦
            let same : z ≡ x = cc in
            subst (λ (p : WindowsCaptureQueue). Vouched item_bytes Settles p.disk) (sym part)
              (fault-Vouched item_bytes Settles done y q.disk (λ _. subst Settles (cc) has) v)
      ]

-- The store settles every acknowledged item that the queue can read back: `Settles t e` says it of
-- the store t and the event e, such as that t has e.
abbrev pub EachStored : {T : Type 0} → Process T → (T → CaptureEnvelope → Type 0) → Site T → Type 0
EachStored p Settles s = Vouched p.item_bytes (Settles s.store) s.queue.disk

-- The store settles every item that its ingestion reports as stored or as a duplicate, and an
-- ingestion unsettles none.
pub record StoreLaws {T : Type 0} (p : Process T) (Settles : T → CaptureEnvelope → Type 0)
    : Type 0 where
  pub committed :
      (x : CaptureQueueItem) (t t' : T) (r : CanonicalIngestResult)
      → p.ingest x t ≡ (ok r, t')
      → is_committed r ≡ true
      → Settles t' x.envelope
  pub kept :
      (x : CaptureQueueItem) (t : T) (e : CaptureEnvelope)
      → Settles t e
      → Settles (p.ingest x t).1 e

module _ {T : Type 0} (p : Process T) (Settles : T → CaptureEnvelope → Type 0)
    (laws : StoreLaws p Settles) where
  abbrev IsStored : Site T → Type 0
  IsStored s = EachStored p Settles s

  queue_result-IsStored :
      {A : Type 0} (s : Site T) (r : Result QueueError A × WindowsCaptureQueue)
      → Vouched p.item_bytes (Settles s.store) r.1.disk
      → IsStored (queue_result s r).1
  queue_result-IsStored s (ok a, q) v = v
  queue_result-IsStored s (err e, q) v = v

  on_queue-IsStored :
      {A : Type 0} (m : ℕ → QueueAct A)
      → ((t : T) (i : ℕ) → Keeping p.item_bytes (vouched_passing p.item_bytes (Settles t)) (m i))
      → Keeps IsStored (on_queue m)
  unfolding on_queue Keeps
  on_queue-IsStored m k s v =
      queue_result-IsStored s (m s.readings s.queue) (k s.store s.readings s.queue v)

  observe-IsStored : {A : Type 0} (f : Site T → A) → Keeps IsStored (observe f)
  unfolding observe Keeps
  observe-IsStored f s v = v

  still :
      {A : Type 0} (m : Action WorkerError (Site T) A)
      → ((s : Site T) → (m s).1 ≡ s)
      → Keeps IsStored m
  unfolding Keeps
  still m e s v = subst IsStored (sym (e s)) v

  -- The item that was handed out is the one that the queue holds; and then the store has it.
  IsHeld : CaptureQueueItem → Site T → Type 0
  IsHeld x s = read p.item_bytes x.queue_item_id s.queue.disk ≡ ok x

  queue_result-inv :
      {A : Type 0} (s s' : Site T) (r : Result QueueError A × WindowsCaptureQueue) (a : A)
      → queue_result s r ≡ (ok a, s')
      → (q' : WindowsCaptureQueue) × (r ≡ (ok a, q')) × (s'.queue ≡ q')
  queue_result-inv s s' (ok b, q) a h = (q, cc, cc)
  queue_result-inv s s' (err e, q) a h = absurd (cc)

  claim_next-IsHeld :
      (owner : String) (s s' : Site T) (x : CaptureQueueItem)
      → IsStored s
      → (site_host p).claim_next owner s ≡ (ok (some x), s')
      → IsHeld x s'
  unfolding site_host on_queue IsHeld
  claim_next-IsHeld owner s s' x v h =
      let (q', claim, at) =
        queue_result-inv s s' (Claims.claim_next p.item_bytes owner (p.clock s.readings) s.queue)
          (some x) h in
      let (back, _) =
        claim_next-durable p.item_bytes owner (p.clock s.readings) s.queue q' x claim in
      cc

  store_result-IsStored :
      (s : Site T) (r : Result String CanonicalIngestResult × T)
      → ((e : CaptureEnvelope) → Settles s.store e → Settles r.1 e)
      → IsStored s
      → IsStored (store_result s r).1
  store_result-IsStored s (ok result, t) k v = λ id x back done. k x.envelope (v id x back done)
  store_result-IsStored s (err e, t) k v = λ id x back done. k x.envelope (v id x back done)

  store_result-inv :
      (s s' : Site T) (r : Result String CanonicalIngestResult × T) (result : CanonicalIngestResult)
      → store_result s r ≡ (ok result, s')
      → (r ≡ (ok result, s'.store)) × (s'.queue ≡ s.queue)
  store_result-inv s s' (ok other, t) result h = (cc, cc)
  store_result-inv s s' (err e, t) result h = absurd (cc)

  -- The item that the store reported as committed.
  Settlesgested : CaptureQueueItem → Site T → Type 0
  Settlesgested x s =
      (read p.item_bytes x.queue_item_id s.queue.disk ≡ ok x) × Settles s.store x.envelope

  pending_IsHeld :
      (x : CaptureQueueItem) (s : Site T)
      → IsStored s
      → IsHeld x s
      → IsStored ((site_host p).on_canonical_mutation_pending s).1
        × IsHeld x ((site_host p).on_canonical_mutation_pending s).1
  unfolding site_host mark_projection_dirty IsHeld
  pending_IsHeld x s v held = (v, held)

  ingest-IsStored :
      (x : CaptureQueueItem) (s : Site T)
      → IsStored s
      → IsHeld x s
      → IsStored ((site_host p).ingest_queue_item x s).1
  unfolding site_host ingest_at
  ingest-IsStored x s v held = store_result-IsStored s (p.ingest x s.store) (laws.kept x s.store) v

  ingest-Settlesgested :
      (x : CaptureQueueItem) (s s' : Site T) (r : CanonicalIngestResult)
      → IsStored s
      → IsHeld x s
      → (site_host p).ingest_queue_item x s ≡ (ok r, s')
      → is_committed r ≡ true
      → Settlesgested x s'
  unfolding site_host ingest_at IsHeld Settlesgested
  ingest-Settlesgested x s s' r v held h done =
      let (result, at) = store_result-inv s s' (p.ingest x s.store) r h in
      (cc, laws.committed x s.store s'.store r result done)

  acknowledge-IsStored :
      (x : CaptureQueueItem) (owner : String) (s : Site T)
      → IsStored s
      → Settlesgested x s
      → IsStored ((site_host p).acknowledge (claim_from_item x owner) s).1
  unfolding site_host on_queue Settlesgested
  acknowledge-IsStored x owner s v (back, has) = queue_result-IsStored s _ (
      acknowledged-Vouched p.item_bytes (Settles s.store) x (claim_from_item x owner)
        (p.clock s.readings) (p.second_clock s.readings) s.queue _ refl back has v)

  site_laws : SafeLaws (site_host p)
  unfolding site_host
  site_laws = record {
    Safe = IsStored;
    Taken = IsHeld;
    Ingested = Settlesgested;
    enabled_safe = observe-IsStored _;
    admission_safe = observe-IsStored _;
    try_acquire_safe = still _ (λ s. refl);
    release_safe = still _ (λ s. refl);
    recover_safe = on_queue-IsStored _ (λ t i.
        recover_expired_claims-Keeping p.item_bytes (vouched_passing p.item_bytes (Settles t))
          (p.clock i) (p.item_clock i));
    claim_next_safe = λ owner. on_queue-IsStored _ (λ t i.
        claim_next-Keeping p.item_bytes (vouched_passing p.item_bytes (Settles t)) owner
          (p.clock i));
    claim_next_taken = claim_next-IsHeld;
    pending_safe = pending_IsHeld;
    ingest_safe = ingest-IsStored;
    ingest_committed = ingest-Settlesgested;
    acknowledge_safe = acknowledge-IsStored;
    retry_safe = λ c e. on_queue-IsStored _ (λ t i.
        retry_claim-Keeping p.item_bytes (vouched_passing p.item_bytes (Settles t)) c (p.message e)
          none (p.clock i) (p.second_clock i));
    retry_after_commit_safe = λ c e. on_queue-IsStored _ (λ t i.
        retry_after_commit-Keeping p.item_bytes (vouched_passing p.item_bytes (Settles t)) c
          (p.message e) (p.clock i) (p.second_clock i));
    dead_letter_safe = λ c reason. on_queue-IsStored _ (λ t i.
        dead_letter_claim-Keeping p.item_bytes (vouched_passing p.item_bytes (Settles t)) c reason
          (p.clock i) (p.second_clock i));
    yield_safe = still _ (λ s. refl);
  }

-- Where the store settles the event of every acknowledged item that the queue can read back, it does
-- so after a run of the worker over the queue and the store too, whatever the outcome: no error,
-- stale claim, expired lease or rejected item acknowledges an event that the store did not settle.
-- To settle an event is any condition that holds where the ingestion reports the item as stored or
-- as a duplicate and that a later ingestion does not undo: that the store has the event, or that a
-- reset of the records excludes it.
pub run_capture_worker_once-IsStored :
    {T : Type 0} (p : Process T) (Settles : T → CaptureEnvelope → Type 0)
    (laws : StoreLaws p Settles) (w : CaptureWorker) (s : Site T)
    → EachStored p Settles s
    → EachStored p Settles (run_capture_worker_once p w s).1
unfolding run_capture_worker_once site_laws run_once
run_capture_worker_once-IsStored p Settles laws w s v =
    runs (EachStored p Settles) _ (run_once-Safe (site_host p) (site_laws p Settles laws) w) s v
