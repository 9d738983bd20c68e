-- ===== src/Queue/Retries.antt =====
-- The retry of a claim: how long it waits, and when it gives up.
use native.Mathlib.Numerals.{unary_clauses}
use proven_loop.Shared.{
  ℕ, zero, suc, ◌+◌, ◌≡◌, refl, sym, ap, ◌∙◌, subst, Bool, true, false, Option, none, String,
  String_eq, Pair_eq, ℕ_eq, if◌then◌else◌, if_cases, arith, ltb, leb,
}
use proven_loop.Shared.Result.{Result, ok}
use proven_loop.Queue.Data.{retry, dead_letter, CaptureQueueItem, QueueError, CaptureQueueClaim}
use proven_loop.Queue.Disk.{size_limit, read}
use proven_loop.Shared.Action.Outcomes.{bind-ok}
use proven_loop.Queue.State.{WindowsCaptureQueue, retry_delay}
use proven_loop.Queue.Claims.{
  retried_item, next_attempt, retry_claimed, retry_claim, retry_after_commit,
}
use proven_loop.Queue.Indexing.{read-id}
use proven_loop.Queue.Leases.{write_and_return-inv, read_claimed-inv}
use proven_loop.Queue.Endings.{written-read}
use proven_loop.Shared.{◌≤◌, ◌↔◌, min, ◌*◌, ◌^◌, ◌-◌}
use proven_loop.Queue.Data.{WindowsCaptureQueueOptions}

double_le : (b p m : ℕ) → min (b * p) m ≤ min (b * (p * 2)) m
double_le b p m = grind arith

less_one : (n : ℕ) → suc n - 1 ≡ n
less_one n = omega arith

pow_suc : (n : ℕ) → 2 ^ suc n ≡ 2 ^ n * 2
pow_suc n = simp unary_clauses refl

delay_doubles : (n : ℕ) → 2 ^ (suc (suc n) - 1) ≡ 2 ^ (suc n - 1) * 2
delay_doubles n =
    ap (λ k. 2 ^ k) (less_one (suc n)) ∙ pow_suc n ∙ sym (ap (λ k. 2 ^ k * 2) (less_one n))

delay_grows :
    (o : WindowsCaptureQueueOptions) (count : ℕ) → retry_delay o count ≤ retry_delay o (suc count)
unfolding retry_delay
delay_grows o zero = ground arith
delay_grows o (suc n) =
    subst
      (λ p.
        min (o.retry_base_delay_ms * 2 ^ (suc n - 1)) o.retry_max_delay_ms
        ≤ min (o.retry_base_delay_ms * p) o.retry_max_delay_ms)
      (sym (delay_doubles n))
      (double_le o.retry_base_delay_ms (2 ^ (suc n - 1)) o.retry_max_delay_ms)

-- The delay never exceeds the configured maximum, never falls as the failures grow, and is the base
-- delay at the first failure unless the maximum is smaller.
pub retry_delay-bounds :
    (o : WindowsCaptureQueueOptions) (count : ℕ)
    → (retry_delay o count ≤ o.retry_max_delay_ms)
      × (retry_delay o count ≤ retry_delay o (suc count))
      × (retry_delay o 1 ≡ min o.retry_base_delay_ms o.retry_max_delay_ms)
unfolding retry_delay
retry_delay-bounds o count = (ground arith, delay_grows o count, ground arith)

retried-id :
    (q : WindowsCaptureQueue) (x : CaptureQueueItem) (error : String) (at : Option ℕ)
    (enforce : Bool) (now : ℕ)
    → (retried_item q x error at enforce now).queue_item_id ≡ x.queue_item_id
unfolding retried_item
retried-id q x error at true now =
    if_cases (λ (z : CaptureQueueItem). z.queue_item_id ≡ x.queue_item_id)
      (leb q.max_attempts (suc x.failure_count)) (λ t. refl) (λ f. refl)
retried-id q x error at false now = refl

retried-counted :
    (q : WindowsCaptureQueue) (x : CaptureQueueItem) (error : String) (at : Option ℕ) (now : ℕ)
    → ((retried_item q x error at true now).failure_count ≡ suc x.failure_count)
      × ((retried_item q x error at true now).state ≡ (
          if leb q.max_attempts (suc x.failure_count)
          then dead_letter error
          else retry error (next_attempt q at (suc x.failure_count) now)))
unfolding retried_item
retried-counted q x error at now = ground arith

abbrev found : CaptureQueueItem → Result QueueError CaptureQueueItem
found x = ok x

same_ok : (x y : CaptureQueueItem) → found x ≡ ok y → x ≡ y
same_ok x y h = cc

module _ (item_bytes : CaptureQueueItem → ℕ) where
  -- A retry that ended a claim wrote the item that `#retryClaimed` computes.
  retry_claim-inv :
      (c : CaptureQueueClaim) (error : String) (at : Option ℕ) (checked now : ℕ)
      (q q' : WindowsCaptureQueue) (x y : CaptureQueueItem)
      → retry_claim item_bytes c error at checked now q ≡ (ok y, q')
      → read item_bytes c.queue_item_id q.disk ≡ ok x
      → (y ≡ retried_item q x error at true now) × (read item_bytes c.queue_item_id q'.disk ≡ ok y)
  unfolding retry_claim retry_claimed
  retry_claim-inv c error at checked now q q' x y h r =
      let (x1, q1, r1, w) = bind-ok _ _ q y q' h in
      let (e, (init, r', a)) = read_claimed-inv item_bytes c checked q q1 x1 r1 in
      let (ey, small, eq) =
        write_and_return-inv item_bytes (retried_item q1 x1 error at true now) y q1 q' w in
      let id =
        ap (λ z. z.queue_item_id) ey
        ∙ retried-id q1 x1 error at true now
        ∙ read-id item_bytes c.queue_item_id q.disk x1 r' in
      let back =
        written-read item_bytes c.queue_item_id x1 y q1.disk (cc) id
          (ap (λ z. ltb size_limit (item_bytes z)) ey ∙ small) in
      (cc, cc)

  -- A retry that succeeds counts one failure more. The item is given up, and stays readable as a
  -- dead letter, exactly when its failures have then reached the limit of attempts; else it waits.
  pub retry_claim-outcome :
      (c : CaptureQueueClaim) (error : String) (at : Option ℕ) (checked now : ℕ)
      (q q' : WindowsCaptureQueue) (x y : CaptureQueueItem)
      → retry_claim item_bytes c error at checked now q ≡ (ok y, q')
      → read item_bytes c.queue_item_id q.disk ≡ ok x
      → (read item_bytes c.queue_item_id q'.disk ≡ ok y)
        × (y.failure_count ≡ suc x.failure_count)
        × ((y.state ≡ dead_letter error) ↔ (q.max_attempts ≤ suc x.failure_count))
  retry_claim-outcome c error at checked now q q' x y h r =
      let (e, back) = retry_claim-inv c error at checked now q q' x y h r in
      let (f, s) = retried-counted q x error at now in (back, cc, ground (arith, e, s))

  -- After a commit the retry is not counted as a failure and never gives the item up: it is put off
  -- by the delay of its failures so far.
  pub retry_after_commit-outcome :
      (c : CaptureQueueClaim) (error : String) (checked now : ℕ) (q q' : WindowsCaptureQueue)
      (x y : CaptureQueueItem)
      → retry_after_commit item_bytes c error checked now q ≡ (ok y, q')
      → read item_bytes c.queue_item_id q.disk ≡ ok x
      → (read item_bytes c.queue_item_id q'.disk ≡ ok y)
        × (y.failure_count ≡ x.failure_count)
        × (y.state ≡ retry error (now + retry_delay q.options x.failure_count))
  unfolding retry_after_commit retry_claimed retried_item
  retry_after_commit-outcome c error checked now q q' x y h r =
      let (x1, q1, r1, w) = bind-ok _ _ q y q' h in
      let (e, (init, r', a)) = read_claimed-inv item_bytes c checked q q1 x1 r1 in
      let (ey, small, eq) =
        write_and_return-inv item_bytes (retried_item q1 x1 error none false now) y q1 q' w in
      let id = ap (λ z. z.queue_item_id) ey ∙ read-id item_bytes c.queue_item_id q.disk x1 r' in
      let back =
        written-read item_bytes c.queue_item_id x1 y q1.disk (cc) id
          (ap (λ z. ltb size_limit (item_bytes z)) ey ∙ small) in
      let same = same_ok x1 x (cc) in
      (cc, ap (λ z. z.failure_count) ey ∙ ap (λ z. z.failure_count) same, cc)
