-- ===== src/Queue/Claimed.antt =====
-- A claim from `claimNext` to its end.
use proven_loop.Shared.{
  ℕ, suc, ◌+◌, ◌≡◌, ◌≢◌, refl, sym, ap, ◌∙◌, true, false, Option, none, some, String, String_eq,
  Pair_eq, ℕ_eq, same_refl, if◌then◌else◌, arith, ltb,
}
use proven_loop.Shared.Result.{ok, err}
use proven_loop.Queue.Data.{claimed, acknowledged, CaptureQueueItem, CaptureQueueClaim, stale_claim}
use proven_loop.Queue.Disk.{Disk, apply_all, write_steps, size_limit, read}
use proven_loop.Queue.Act.{continue, ◌>>=◌, ◌>>◌}
use proven_loop.Shared.Action.Outcomes.{bind-ok}
use proven_loop.Queue.Written.{write-ok}
use proven_loop.Queue.State.{WindowsCaptureQueue, assert_active_claim, write}
use proven_loop.Queue.Claims.{acknowledge}
use proven_loop.Queue.Leases.{read_claimed-refused}
use proven_loop.Queue.Claims.{
  is_due, claimed_item, scan, refill, found_or_none, claim_found, claim_next_open, claim_next,
}
use proven_loop.Queue.Search.{Found, scan-Found}
use proven_loop.Queue.Endings.{AllRefused, refused, written-read, acknowledge-of}
use proven_loop.Shared.{◌<◌, ◌≤◌}

module _ (item_bytes : CaptureQueueItem → ℕ) where
  -- What a claim that was handed out says of the queue before and after.
  abbrev Claimed :
      String
      → ℕ
      → WindowsCaptureQueue
      → CaptureQueueItem
      → WindowsCaptureQueue
      → CaptureQueueItem
      → WindowsCaptureQueue
      → Type 0
  Claimed owner now q x q1 y q' =
      Found item_bytes now q x q1
      × (y ≡ claimed_item q1 x owner now)
      × (ltb size_limit (item_bytes y) ≡ false)
      × (q' ≡ record q1 { disk = apply_all (write_steps y) q1.disk })

  claim_found-inv :
      (owner : String) (now : ℕ) (found : Option CaptureQueueItem) (q q' : WindowsCaptureQueue)
      (y : CaptureQueueItem)
      → claim_found item_bytes owner now found q ≡ (ok (some y), q')
      → (x : CaptureQueueItem) × (found ≡ some x)
        × (y ≡ claimed_item q x owner now)
        × (ltb size_limit (item_bytes y) ≡ false)
        × (q' ≡ record q { disk = apply_all (write_steps y) q.disk })
  unfolding claim_found
  claim_found-inv owner now none q q' y h = absurd (cc)
  claim_found-inv owner now (some x) q q' y h =
      let (u, q1, w, r) =
        bind-ok (write item_bytes (claimed_item q x owner now)) _ q (some y) q' h in
      let (small, e) = write-ok item_bytes (claimed_item q x owner now) q q1 u w in
      (x, refl, cc, cc, cc)

  same_read :
      (id : String) (d : Disk) (z x : CaptureQueueItem)
      → read item_bytes id d ≡ ok z
      → read item_bytes id d ≡ ok x
      → z ≡ x
  same_read id d z x r s = cc

  not_due : (now at expires : ℕ) (owner : String) → is_due now (claimed at expires owner) ≢ true
  not_due now at expires owner h = absurd (cc)

  claim_next-open :
      (owner : String) (now : ℕ) (q q' : WindowsCaptureQueue) (y : CaptureQueueItem)
      → claim_next item_bytes owner now q ≡ (ok (some y), q')
      → continue
          (claim_found item_bytes owner now)
          (found_or_none (scan item_bytes now (refill q) q))
        ≡ (ok (some y), q')
  unfolding claim_next claim_next_open ◌>>◌ ◌>>=◌
  claim_next-open owner now q q' y h = ground arith

  found_or_none-inv :
      (owner : String) (now : ℕ) (r : Option CaptureQueueItem × WindowsCaptureQueue)
      (q' : WindowsCaptureQueue) (y : CaptureQueueItem)
      → continue (claim_found item_bytes owner now) (found_or_none r) ≡ (ok (some y), q')
      → (x : CaptureQueueItem) × (q1 : WindowsCaptureQueue) × (r ≡ (some x, q1))
        × (y ≡ claimed_item q1 x owner now)
        × (ltb size_limit (item_bytes y) ≡ false)
        × (q' ≡ record q1 { disk = apply_all (write_steps y) q1.disk })
  found_or_none-inv owner now (found, q1) q' y h =
      let (x, e, ey, small, eq) = claim_found-inv owner now found q1 q' y h in
      (x, q1, cc, ey, small, eq)

  claim_next-inv :
      (owner : String) (now : ℕ) (q q' : WindowsCaptureQueue) (y : CaptureQueueItem)
      → claim_next item_bytes owner now q ≡ (ok (some y), q')
      → (x : CaptureQueueItem) × (q1 : WindowsCaptureQueue) × Claimed owner now q x q1 y q'
  claim_next-inv owner now q q' y h =
      let (x, q1, s, ey, small, eq) =
        found_or_none-inv owner now _ q' y (claim_next-open owner now q q' y h) in
      (x, q1, (scan-Found item_bytes now (refill q) q x q1 s, ey, small, eq))

  -- A claim that is handed out is durable: the item can be read back as the claimed item, held by
  -- this owner until the lease that the options give is over.
  pub claim_next-durable :
      (owner : String) (now : ℕ) (q q' : WindowsCaptureQueue) (y : CaptureQueueItem)
      → claim_next item_bytes owner now q ≡ (ok (some y), q')
      → (read item_bytes y.queue_item_id q'.disk ≡ ok y)
        × (y.state ≡ claimed now (now + q.claim_lease_ms) owner)
  claim_next-durable owner now q q' y h =
      let (x, q1, ((k, r, due, o, i), ey, small, eq)) = claim_next-inv owner now q q' y h in
      let back = written-read item_bytes y.queue_item_id x y q1.disk (cc) refl small in (cc, cc)

  -- An item that could be read before was due then, and a claim is one attempt more.
  pub claim_next-due :
      (owner : String) (now : ℕ) (q q' : WindowsCaptureQueue) (y z : CaptureQueueItem)
      → claim_next item_bytes owner now q ≡ (ok (some y), q')
      → read item_bytes y.queue_item_id q.disk ≡ ok z
      → (is_due now z.state ≡ true)
        × (y ≡ record z {
          attempt_count = suc z.attempt_count;
          state = claimed now (now + q.claim_lease_ms) owner;
          updated_at = now;
        })
  claim_next-due owner now q q' y z h r =
      let (x, q1, ((k, r', due, o, i), ey, small, eq)) = claim_next-inv owner now q q' y h in
      let r1 = k y.queue_item_id z r in
      let e = same_read y.queue_item_id q1.disk z x r1 (cc) in (cc, cc)

  -- An item that was handed out is not handed out again by the next call, whoever makes it and
  -- however late: an expired claim must be recovered first.
  pub claim_next-exclusive :
      (owner owner' : String) (now now' : ℕ) (q q' q'' : WindowsCaptureQueue)
      (y z : CaptureQueueItem)
      → claim_next item_bytes owner now q ≡ (ok (some y), q')
      → claim_next item_bytes owner' now' q' ≡ (ok (some z), q'')
      → z.queue_item_id ≢ y.queue_item_id
  claim_next-exclusive owner owner' now now' q q' q'' y z h h' e =
      let (back, state) = claim_next-durable owner now q q' y h in
      let (due, _) = claim_next-due owner' now' q' q'' z y h' (cc) in
      not_due now' now (now + q.claim_lease_ms) owner (sym (ap (is_due now') state) ∙ due)

  -- The claim that a worker makes of the item that it was given.
  abbrev pub claim_of : String → CaptureQueueItem → CaptureQueueClaim
  claim_of owner y = record {
    attempt_count = y.attempt_count;
    claim_owner_id = owner;
    queue_item_id = y.queue_item_id;
  }

  initialized-of :
      (owner : String) (now : ℕ) (q q' : WindowsCaptureQueue) (y : CaptureQueueItem)
      → claim_next item_bytes owner now q ≡ (ok (some y), q')
      → q.initialized ≡ true
  unfolding claim_next ◌>>◌ ◌>>=◌
  initialized-of owner now q q' y h = ground arith

  claim_next-initialized :
      (owner : String) (now : ℕ) (q q' : WindowsCaptureQueue) (y : CaptureQueueItem)
      → claim_next item_bytes owner now q ≡ (ok (some y), q')
      → q'.initialized ≡ true
  claim_next-initialized owner now q q' y h =
      let (x, q1, ((k, r, due, o, i), ey, small, eq)) = claim_next-inv owner now q q' y h in
      cc (initialized-of owner now q q' y h)

  assert-claimed :
      (y : CaptureQueueItem) (owner : String) (at expires checked : ℕ)
      → y.state ≡ claimed at expires owner
      → assert_active_claim y (claim_of owner y) checked
        ≡ (if ltb checked expires then ok tt else err stale_claim)
  unfolding assert_active_claim
  assert-claimed y owner at expires checked s = ground (arith, s, same_refl owner)

  -- The worker that was given an item can acknowledge it until the lease is over, if the
  -- acknowledged item fits the size limit and no file operation of its write fails.
  pub claim_next-acknowledge :
      (owner : String) (now checked finished : ℕ) (q q' : WindowsCaptureQueue)
      (y : CaptureQueueItem)
      → claim_next item_bytes owner now q ≡ (ok (some y), q')
      → checked < now + q.claim_lease_ms
      → ltb size_limit
          (item_bytes (record y { state = acknowledged finished; updated_at = finished }))
        ≡ false
      → q'.write_faults (record y { state = acknowledged finished; updated_at = finished }) q'.disk
        ≡ none
      → (acknowledge item_bytes (claim_of owner y) checked finished q').0
        ≡ ok (record y { state = acknowledged finished; updated_at = finished })
  claim_next-acknowledge owner now checked finished q q' y h lease small sound =
      let (back, state) = claim_next-durable owner now q q' y h in
      acknowledge-of item_bytes (claim_of owner y) checked finished q' y
        (
          claim_next-initialized owner now q q' y h,
          back,
          ground (arith, assert-claimed y owner now (now + q.claim_lease_ms) checked state, lease),
        )
        small sound

  -- From the end of its lease on, no way of ending the claim is open to the worker, and an attempt
  -- changes nothing.
  pub claim_next-expired :
      (owner error : String) (at : Option ℕ) (now checked finished : ℕ) (q q' : WindowsCaptureQueue)
      (y : CaptureQueueItem)
      → claim_next item_bytes owner now q ≡ (ok (some y), q')
      → now + q.claim_lease_ms ≤ checked
      → AllRefused item_bytes (claim_of owner y) error at checked finished stale_claim q'
  claim_next-expired owner error at now checked finished q q' y h over =
      let (back, state) = claim_next-durable owner now q q' y h in
      refused item_bytes (claim_of owner y) error at checked finished stale_claim q' (
        read_claimed-refused item_bytes (claim_of owner y) checked q' y stale_claim
          (claim_next-initialized owner now q q' y h) back
          (ground (arith, assert-claimed y owner now (now + q.claim_lease_ms) checked state, over)))
