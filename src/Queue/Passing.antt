-- ===== src/Queue/Passing.antt =====
-- A condition on the directory that the reading of an index name and the writing of items keep is
-- kept by claiming, by ending a claim and by recovering.
use proven_loop.Shared.{
  ℕ, Bool, true, false, not, List, [], ◌∷◌, Option, none, some, String, String_eq, Pair_eq, ℕ_eq,
  if_cases,
}
use proven_loop.Queue.Data.{CaptureQueueItem, CaptureQueueState, acknowledged}
use proven_loop.Shared.{◌≡◌, refl, leb, suc, if◌then◌else◌, ◌&&◌}
use proven_loop.Queue.Disk.{IndexName, Disk}
use proven_loop.Shared.Action.Keeps.{
  Keeps, bind-Keeps, then-Keeps, refuse_if-Keeps, choice-Keeps, reads-Keeps, keeps, runs,
}
use proven_loop.Shared.{take}
use proven_loop.Queue.Written.{write-Keeps}
use proven_loop.Queue.State.{WindowsCaptureQueue, QueueAct, assert_initialized}
use proven_loop.Queue.Data.{CaptureQueueClaim}
use proven_loop.Queue.Claims.{
  is_due, is_expired, claimed_item, retried_item, scan_step, scan, found_or_none, refill,
  claim_found, claim_next_open, claim_next, read_claimed, write_and_return, acknowledge,
  retry_claimed, retry_claim, retry_after_commit, dead_letter_claim, read_all_active, retry_expired,
  recover_open, recover_expired_claims,
}
use proven_loop.Queue.State.{write}
use proven_loop.Queue.Disk.{apply_all, write_steps, read_active}

abbrev pub is_acknowledged : CaptureQueueState → Bool
is_acknowledged (acknowledged at) = true
is_acknowledged _ = false

-- A condition with what keeps it: an item may be written where it is allowed, and it is so whenever
-- it is not an acknowledged one.
pub record Passing (item_bytes : CaptureQueueItem → ℕ) : Type 1 where
  pub Holds : Disk → Type 0
  pub Allowed : CaptureQueueItem → Type 0
  pub open_allowed : (x : CaptureQueueItem) → is_acknowledged x.state ≡ false → Allowed x
  pub read_keeps : (n : IndexName) (d : Disk) → Holds d → Holds (read_active item_bytes n d).1
  pub write_keeps :
      (x : CaptureQueueItem) (d : Disk) → Allowed x → Holds d → Holds (apply_all (write_steps x) d)
  pub fault_keeps :
      (done : ℕ) (x : CaptureQueueItem) (d : Disk)
      → Allowed x
      → Holds d
      → Holds (apply_all (take done (write_steps x)) d)

retried_item-open :
    (q : WindowsCaptureQueue) (x : CaptureQueueItem) (error : String) (at : Option ℕ)
    (enforce : Bool) (now : ℕ)
    → is_acknowledged (retried_item q x error at enforce now).state ≡ false
unfolding retried_item
retried_item-open q x error at enforce now =
    if_cases (λ (y : CaptureQueueItem). is_acknowledged y.state ≡ false)
      (enforce && leb q.max_attempts (if enforce then suc x.failure_count else x.failure_count))
      (λ t. refl) (λ f. refl)

module _ (item_bytes : CaptureQueueItem → ℕ) (passing : Passing item_bytes) where
  abbrev InOrder : WindowsCaptureQueue → Type 0
  InOrder q = passing.Holds q.disk

  abbrev pub Keeping : {A : Type 0} → QueueAct A → Type 0
  Keeping m = Keeps InOrder m

  write-Keeping : (x : CaptureQueueItem) → passing.Allowed x → Keeping (write item_bytes x)
  write-Keeping x allowed =
      write-Keeps item_bytes InOrder x (λ q i. passing.write_keeps x q.disk allowed i)
        (λ done q i. passing.fault_keeps done x q.disk allowed i)

  scan_cases :
      (now : ℕ) (ns : List IndexName) (q : WindowsCaptureQueue) (found : Option CaptureQueueItem)
      (d : Disk)
      → passing.Holds d
      → ((q' : WindowsCaptureQueue) → InOrder q' → InOrder (scan item_bytes now ns q').1)
      → InOrder
          (scan_step item_bytes now ns q found d
            (scan item_bytes now ns (record q { candidates = ns; disk = d }))).1
  scan_cases now ns q none d i h = h _ i
  scan_cases now ns q (some x) d i h =
      if_cases (λ (p : Option CaptureQueueItem × WindowsCaptureQueue). InOrder p.1)
        (is_due now x.state) (λ t. i) (λ f. h _ i)

  scan-Keeping :
      (now : ℕ) (ns : List IndexName) (q : WindowsCaptureQueue)
      → InOrder q
      → InOrder (scan item_bytes now ns q).1
  unfolding scan
  scan-Keeping now [] q i = i
  scan-Keeping now (n ∷ ns) q i =
      scan_cases now ns q _ _ (passing.read_keeps n q.disk i) (scan-Keeping now ns)

  claim_found-Keeping :
      (owner : String) (now : ℕ) (x : Option CaptureQueueItem)
      → Keeping (claim_found item_bytes owner now x)
  unfolding claim_found
  claim_found-Keeping owner now none = reads-Keeps InOrder _
  claim_found-Keeping owner now (some x) = keeps InOrder _ λ q i.
      runs InOrder _
        (bind-Keeps InOrder _ _
          (write-Keeping (claimed_item q x owner now) (passing.open_allowed _ refl))
          λ _. reads-Keeps InOrder _)
        q i

  assert-Keeping : Keeping assert_initialized
  assert-Keeping =
      keeps InOrder _ λ q i. runs InOrder _ (refuse_if-Keeps InOrder (not q.initialized) _) q i

  scan_all-Keeping : (now : ℕ) → Keeping (λ q. found_or_none (scan item_bytes now (refill q) q))
  unfolding refill
  scan_all-Keeping now = keeps InOrder _ λ q i. scan-Keeping now (refill q) q i

  claim_next_open-Keeping :
      (owner : String) (now : ℕ) → Keeping (claim_next_open item_bytes owner now)
  unfolding claim_next_open
  claim_next_open-Keeping owner now =
      then-Keeps InOrder _ _ (refuse_if-Keeps InOrder _ _)
        (bind-Keeps InOrder _ _ (scan_all-Keeping now) (claim_found-Keeping owner now))

  pub claim_next-Keeping : (owner : String) (now : ℕ) → Keeping (claim_next item_bytes owner now)
  unfolding claim_next
  claim_next-Keeping owner now = then-Keeps InOrder _ _ assert-Keeping (
      bind-Keeps InOrder _ _ (reads-Keeps InOrder _) λ barrier.
        choice-Keeps InOrder barrier _ _ (reads-Keeps InOrder _)
          (claim_next_open-Keeping owner now))

  read_claimed-Keeping :
      (c : CaptureQueueClaim) (checked : ℕ) → Keeping (read_claimed item_bytes c checked)
  unfolding read_claimed
  read_claimed-Keeping c checked = then-Keeps InOrder _ _ assert-Keeping (
      bind-Keeps InOrder _ _ (reads-Keeps InOrder _)
        λ x. then-Keeps InOrder _ _ (reads-Keeps InOrder _) (reads-Keeps InOrder _))

  write_and_return-Keeping :
      (x : CaptureQueueItem) → passing.Allowed x → Keeping (write_and_return item_bytes x)
  unfolding write_and_return
  write_and_return-Keeping x allowed =
      then-Keeps InOrder _ _ (write-Keeping x allowed) (reads-Keeps InOrder _)

  pub acknowledge-Keeping :
      (c : CaptureQueueClaim) (checked now : ℕ)
      → ((x : CaptureQueueItem)
          → passing.Allowed (record x { state = acknowledged now; updated_at = now }))
      → Keeping (acknowledge item_bytes c checked now)
  unfolding acknowledge
  acknowledge-Keeping c checked now allowed =
      bind-Keeps InOrder _ _ (read_claimed-Keeping c checked)
        (λ x. write_and_return-Keeping _ (allowed x))

  retry_claimed-Keeping :
      (x : CaptureQueueItem) (error : String) (at : Option ℕ) (enforce : Bool) (now : ℕ)
      → Keeping (retry_claimed item_bytes x error at enforce now)
  unfolding retry_claimed
  retry_claimed-Keeping x error at enforce now = keeps InOrder _ λ q.
      runs InOrder _
        (write_and_return-Keeping (retried_item q x error at enforce now)
          (passing.open_allowed _ (retried_item-open q x error at enforce now)))
        q

  pub retry_claim-Keeping :
      (c : CaptureQueueClaim) (error : String) (at : Option ℕ) (checked now : ℕ)
      → Keeping (retry_claim item_bytes c error at checked now)
  unfolding retry_claim
  retry_claim-Keeping c error at checked now =
      bind-Keeps InOrder _ _ (read_claimed-Keeping c checked)
        (λ x. retry_claimed-Keeping x error at true now)

  pub retry_after_commit-Keeping :
      (c : CaptureQueueClaim) (error : String) (checked now : ℕ)
      → Keeping (retry_after_commit item_bytes c error checked now)
  unfolding retry_after_commit
  retry_after_commit-Keeping c error checked now =
      bind-Keeps InOrder _ _ (read_claimed-Keeping c checked)
        (λ x. retry_claimed-Keeping x error none false now)

  pub dead_letter_claim-Keeping :
      (c : CaptureQueueClaim) (error : String) (checked now : ℕ)
      → Keeping (dead_letter_claim item_bytes c error checked now)
  unfolding dead_letter_claim
  dead_letter_claim-Keeping c error checked now =
      bind-Keeps InOrder _ _ (read_claimed-Keeping c checked)
        (λ x. write_and_return-Keeping _ (passing.open_allowed _ refl))

  read_all_active-Keeping :
      (ns : List IndexName) (d : Disk)
      → passing.Holds d
      → passing.Holds (read_all_active item_bytes ns d).1
  unfolding read_all_active
  read_all_active-Keeping [] d i = i
  read_all_active-Keeping (n ∷ ns) d i = read_all_active-Keeping ns _ (passing.read_keeps n d i)

  retry_expired-Keeping :
      (now : ℕ) (later : CaptureQueueItem → ℕ) (xs : List CaptureQueueItem)
      → Keeping (retry_expired item_bytes now later xs)
  unfolding retry_expired
  retry_expired-Keeping now later [] = reads-Keeps InOrder _
  retry_expired-Keeping now later (x ∷ xs) =
      choice-Keeps InOrder (is_expired now x.state) _ _
        (bind-Keeps InOrder _ _ (retry_claimed-Keeping x _ none false (later x)) λ y.
          bind-Keeps InOrder _ _ (retry_expired-Keeping now later xs) (λ ys. reads-Keeps InOrder _))
        (retry_expired-Keeping now later xs)

  recover_open-Keeping :
      (now : ℕ) (later : CaptureQueueItem → ℕ) → Keeping (recover_open item_bytes now later)
  unfolding recover_open
  recover_open-Keeping now later = keeps InOrder _ λ q i.
      runs InOrder _ (retry_expired-Keeping now later _) _ (read_all_active-Keeping _ q.disk i)

  pub recover_expired_claims-Keeping :
      (now : ℕ) (later : CaptureQueueItem → ℕ)
      → Keeping (recover_expired_claims item_bytes now later)
  unfolding recover_expired_claims
  recover_expired_claims-Keeping now later = then-Keeps InOrder _ _ assert-Keeping (
      bind-Keeps InOrder _ _ (reads-Keeps InOrder _) λ barrier.
        choice-Keeps InOrder barrier _ _ (reads-Keeps InOrder _) (recover_open-Keeping now later))
