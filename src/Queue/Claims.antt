-- ===== src/Queue/Claims.antt =====
-- Claiming an item, and the ways in which a claim ends. Each reading of the clock is an argument:
-- `checked` for the test of a claim, `now` for what is written.
use proven_loop.Shared.{
  ℕ, suc, ◌+◌, Bool, true, false, ◌&&◌, List, [], ◌∷◌, Option, none, some, String, String_eq, leb,
  ◌==◌, if◌then◌else◌,
}
use proven_loop.Shared.Result.{Result, ok}
use proven_loop.Queue.Data.{
  CaptureQueueState, pending, claimed, acknowledged, retry, dead_letter, CaptureQueueItem,
  QueueError, invalid_item_id, CaptureQueueClaim,
}
use proven_loop.Queue.Disk.{IndexName, Disk, sort_names, read_active}
use proven_loop.Queue.Act.{◌>>=◌, ◌>>◌, return, gets, reads, refuse_if}
use proven_loop.Queue.State.{
  WindowsCaptureQueue, QueueAct, assert_initialized, deletion_barrier_active, retry_delay,
  assert_active_claim, read_item, write,
}

-- Whether `claimNext` takes an item.
abbrev pub is_due : ℕ → CaptureQueueState → Bool
is_due now pending = true
is_due now (retry error at) = leb at now
is_due now _ = false

abbrev pub is_expired : ℕ → CaptureQueueState → Bool
is_expired now (claimed at expires owner) = leb expires now
is_expired now _ = false

-- The item that `claimNext` writes.
abbrev pub claimed_item : WindowsCaptureQueue → CaptureQueueItem → String → ℕ → CaptureQueueItem
claimed_item q x owner now = record x {
  attempt_count = suc x.attempt_count;
  state = claimed now (now + q.claim_lease_ms) owner;
  updated_at = now;
}

abbrev pub dead_letter_item : CaptureQueueItem → String → ℕ → ℕ → CaptureQueueItem
dead_letter_item x error failures now = record x {
  failure_count = failures;
  state = dead_letter error;
  updated_at = now;
}

abbrev pub next_attempt : WindowsCaptureQueue → Option ℕ → ℕ → ℕ → ℕ
next_attempt q none failures now = now + retry_delay q.options failures
next_attempt q (some at) failures now = at

-- The item that `#retryClaimed` writes.
unfoldable pub retried_item :
    WindowsCaptureQueue → CaptureQueueItem → String → Option ℕ → Bool → ℕ → CaptureQueueItem
retried_item q x error at enforce now =
    let failures = if enforce then suc x.failure_count else x.failure_count in
    if enforce && leb q.max_attempts failures
    then dead_letter_item x error failures now
    else record x {
      failure_count = failures;
      state = retry error (next_attempt q at failures now);
      updated_at = now;
    }

unfoldable pub refill : WindowsCaptureQueue → List IndexName
refill q = elim q.candidates [ [] ↦ sort_names q.disk.active | n ∷ ns ↦ n ∷ ns ]

abbrev pub found_or_none :
    Option CaptureQueueItem × WindowsCaptureQueue
    → Result QueueError (Option CaptureQueueItem) × WindowsCaptureQueue
found_or_none (x, q) = (ok x, q)

module _ (item_bytes : CaptureQueueItem → ℕ) where
  -- One turn of the loop of `claimNext`: it stops at an item that is due.
  abbrev pub scan_step :
      ℕ
      → List IndexName
      → WindowsCaptureQueue
      → Option CaptureQueueItem
      → Disk
      → Option CaptureQueueItem × WindowsCaptureQueue
      → Option CaptureQueueItem × WindowsCaptureQueue
  scan_step now ns q none d rest = rest
  scan_step now ns q (some x) d rest =
      if is_due now x.state then (some x, record q { candidates = ns; disk = d }) else rest

  -- The loop of `claimNext` over the candidates that are left.
  unfoldable pub scan :
      ℕ → List IndexName → WindowsCaptureQueue → Option CaptureQueueItem × WindowsCaptureQueue
  scan now [] q = (none, record q { candidates = [] })
  scan now (n ∷ ns) q =
      let (found, d) = read_active item_bytes n q.disk in
      let rest = scan now ns (record q { candidates = ns; disk = d }) in
      scan_step now ns q found d rest

  unfoldable pub claim_found :
      String → ℕ → Option CaptureQueueItem → QueueAct (Option CaptureQueueItem)
  claim_found owner now none q = (ok none, q)
  claim_found owner now (some x) q =
      (write item_bytes (claimed_item q x owner now) >>= λ _.
      return (some (claimed_item q x owner now)))
        q

  unfoldable pub claim_next_open : String → ℕ → QueueAct (Option CaptureQueueItem)
  claim_next_open owner now =
      refuse_if (owner == "") invalid_item_id
      >> ((λ q. found_or_none (scan now (refill q) q)) >>= claim_found owner now)

  unfoldable pub claim_next : String → ℕ → QueueAct (Option CaptureQueueItem)
  claim_next owner now = do
    assert_initialized
    barrier ← gets deletion_barrier_active
    if barrier then return none else claim_next_open owner now

  -- `#read` and `#assertActiveClaim` at the head of the four ends of a claim.
  unfoldable pub read_claimed : CaptureQueueClaim → ℕ → QueueAct CaptureQueueItem
  read_claimed c checked = do
    assert_initialized
    x ← read_item item_bytes c.queue_item_id
    reads (λ _. assert_active_claim x c checked)
    return x

  unfoldable pub write_and_return : CaptureQueueItem → QueueAct CaptureQueueItem
  write_and_return x = do write item_bytes x; return x

  unfoldable pub acknowledge : CaptureQueueClaim → ℕ → ℕ → QueueAct CaptureQueueItem
  acknowledge c checked now = do
    x ← read_claimed c checked
    write_and_return (record x { state = acknowledged now; updated_at = now })

  -- `#retryClaimed`
  unfoldable pub retry_claimed :
      CaptureQueueItem → String → Option ℕ → Bool → ℕ → QueueAct CaptureQueueItem
  retry_claimed x error at enforce now q =
      write_and_return (retried_item q x error at enforce now) q

  unfoldable pub retry_claim :
      CaptureQueueClaim → String → Option ℕ → ℕ → ℕ → QueueAct CaptureQueueItem
  retry_claim c error at checked now = do
    x ← read_claimed c checked
    retry_claimed x error at true now

  unfoldable pub retry_after_commit : CaptureQueueClaim → String → ℕ → ℕ → QueueAct CaptureQueueItem
  retry_after_commit c error checked now = do
    x ← read_claimed c checked
    retry_claimed x error none false now

  unfoldable pub dead_letter_claim : CaptureQueueClaim → String → ℕ → ℕ → QueueAct CaptureQueueItem
  dead_letter_claim c error checked now = do
    x ← read_claimed c checked
    write_and_return (dead_letter_item x error x.failure_count now)

  -- `#readActive`
  unfoldable pub read_all_active : List IndexName → Disk → List CaptureQueueItem × Disk
  read_all_active [] d = ([], d)
  read_all_active (n ∷ ns) d =
      let (found, d') = read_active item_bytes n d in
      let (xs, d'') = read_all_active ns d' in (elim found [ none ↦ xs | some x ↦ x ∷ xs ], d'')

  -- `later` is the clock's reading when an item is written.
  unfoldable pub retry_expired :
      ℕ → (CaptureQueueItem → ℕ) → List CaptureQueueItem → QueueAct (List CaptureQueueItem)
  retry_expired now later [] = return []
  retry_expired now later (x ∷ xs) =
      let rest = retry_expired now later xs in
      if is_expired now x.state
      then (retry_claimed x "Claim lease expired before acknowledgement." none false (later x)
          >>= λ y. rest >>= λ ys. return (y ∷ ys))
      else rest

  unfoldable pub recover_open : ℕ → (CaptureQueueItem → ℕ) → QueueAct (List CaptureQueueItem)
  recover_open now later q =
      let (xs, d) = read_all_active (sort_names q.disk.active) q.disk in
      retry_expired now later xs (record q { disk = d })

  unfoldable pub recover_expired_claims :
      ℕ → (CaptureQueueItem → ℕ) → QueueAct (List CaptureQueueItem)
  recover_expired_claims now later = do
    assert_initialized
    barrier ← gets deletion_barrier_active
    if barrier then return [] else recover_open now later
