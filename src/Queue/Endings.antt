-- ===== src/Queue/Endings.antt =====
-- What a worker may rely on when it ends a claim.
use proven_loop.Shared.{none, Bool, if_cases, leb, suc, if◌then◌else◌, ◌&&◌}
use proven_loop.Queue.Data.{write_failed}
use proven_loop.Queue.Act.{return}
use proven_loop.Queue.Written.{partly_written, write-err}
use proven_loop.Shared.{true}
use proven_loop.Queue.Claims.{write_and_return}
use proven_loop.Queue.Claims.{dead_letter_item, retried_item, retry_claimed}
use proven_loop.Queue.Act.{◌>>=◌, ◌>>◌}
use proven_loop.Queue.State.{write}
use proven_loop.Shared.Action.Outcomes.{bind-err}
use proven_loop.Shared.{◌⊎◌, inl, inr, ◌∙◌}
use proven_loop.Queue.Leases.{read_claimed-err, read_claimed-inv}
use proven_loop.Shared.{ℕ, ◌≡◌, refl, ap, ◌∙◌, false, Option, String, String_eq, Pair_eq, ℕ_eq, ltb}
use proven_loop.Shared.Result.{ok, err}
use proven_loop.Queue.Data.{
  acknowledged, CaptureQueueItem, QueueError, is_queue_item_id, CaptureQueueClaim,
  invalid_transition,
}
use proven_loop.Queue.Disk.{Disk, apply_all, write_steps, size_limit, read}
use proven_loop.Shared.Action.Outcomes.{bind-of, bind-refused}
use proven_loop.Queue.State.{WindowsCaptureQueue, assert_active_claim}
use proven_loop.Queue.Claims.{
  read_claimed, acknowledge, retry_claim, retry_after_commit, dead_letter_claim,
}
use proven_loop.Queue.Indexing.{read-id}
use proven_loop.Queue.Leases.{
  Holds, read-valid, read-write_steps, write_and_return-of, acknowledge-inv, read_claimed-of,
  read_claimed-refused,
}

module _ (item_bytes : CaptureQueueItem → ℕ) where
  -- The four ways in which a claim ends, each with its outcome.
  abbrev pub AllRefused :
      CaptureQueueClaim → String → Option ℕ → ℕ → ℕ → QueueError → WindowsCaptureQueue → Type 0
  AllRefused c error at checked now e q =
      (acknowledge item_bytes c checked now q ≡ (err e, q))
      × (retry_claim item_bytes c error at checked now q ≡ (err e, q))
      × (retry_after_commit item_bytes c error checked now q ≡ (err e, q))
      × (dead_letter_claim item_bytes c error checked now q ≡ (err e, q))

  pub refused :
      (c : CaptureQueueClaim) (error : String) (at : Option ℕ) (checked now : ℕ) (e : QueueError)
      (q : WindowsCaptureQueue)
      → read_claimed item_bytes c checked q ≡ (err e, q)
      → AllRefused c error at checked now e q
  unfolding acknowledge retry_claim retry_after_commit dead_letter_claim
  refused c error at checked now e q r = (
    bind-refused _ _ q e q r,
    bind-refused _ _ q e q r,
    bind-refused _ _ q e q r,
    bind-refused _ _ q e q r,
  )

  pub acknowledge-of :
      (c : CaptureQueueClaim) (checked now : ℕ) (q : WindowsCaptureQueue) (x : CaptureQueueItem)
      → Holds item_bytes c checked q x
      → ltb size_limit (item_bytes (record x { state = acknowledged now; updated_at = now }))
        ≡ false
      → q.write_faults (record x { state = acknowledged now; updated_at = now }) q.disk ≡ none
      → (acknowledge item_bytes c checked now q).0
        ≡ ok (record x { state = acknowledged now; updated_at = now })
  unfolding acknowledge
  acknowledge-of c checked now q x holds small sound =
      ap (λ r. r.0)
        (bind-of _ _ q x q (read_claimed-of item_bytes c checked q x holds)
          ∙ write_and_return-of item_bytes (record x { state = acknowledged now; updated_at = now })
              q small sound)

  pub written-read :
      (id : String) (x y : CaptureQueueItem) (d : Disk)
      → read item_bytes id d ≡ ok x
      → y.queue_item_id ≡ id
      → ltb size_limit (item_bytes y) ≡ false
      → read item_bytes id (apply_all (write_steps y) d) ≡ ok y
  written-read id x y d r e small =
      let valid = read-valid item_bytes id d x r in
      let back = read-write_steps item_bytes y d (ap is_queue_item_id e ∙ valid) small in cc

  assert-acknowledged :
      (x : CaptureQueueItem) (c : CaptureQueueClaim) (checked now : ℕ)
      → assert_active_claim (record x { state = acknowledged now; updated_at = now }) c checked
        ≡ err (invalid_transition (acknowledged now))
  unfolding assert_active_claim
  assert-acknowledged x c checked now = refl

  -- An item that was acknowledged stays so: whoever then claims to hold it, every way of ending
  -- the claim is refused as a transition out of the acknowledged state, and changes nothing.
  pub acknowledge-once :
      (c c' : CaptureQueueClaim) (error : String) (at : Option ℕ) (checked now checked' now' : ℕ)
      (q q' : WindowsCaptureQueue) (y : CaptureQueueItem)
      → acknowledge item_bytes c checked now q ≡ (ok y, q')
      → c'.queue_item_id ≡ c.queue_item_id
      → AllRefused c' error at checked' now' (invalid_transition (acknowledged now)) q'
  acknowledge-once c c' error at checked now checked' now' q q' y h same =
      let (x, (init, r, a), ey, small, eq) = acknowledge-inv item_bytes c checked now q q' y h in
      let same_id = read-id item_bytes c.queue_item_id q.disk x r in
      let there = written-read c'.queue_item_id x y q.disk (cc) (cc) small in
      refused c' error at checked' now' _ q' (
        read_claimed-refused item_bytes c' checked' q' y _ (cc) (cc)
          (cc (assert-acknowledged x c' checked' now)))

  -- What a failed attempt leaves: the queue as it was, or a file operation failed, after some of the
  -- changes that were to publish an item with the id and the envelope of the claimed one.
  abbrev pub IsKept : String → QueueError → WindowsCaptureQueue → WindowsCaptureQueue → Type 0
  IsKept id e q q' =
      (q' ≡ q)
      ⊎ ((x : CaptureQueueItem) × (y : CaptureQueueItem) × (done : ℕ) × (read item_bytes id q.disk
            ≡ ok x)
          × (y.queue_item_id ≡ id)
          × (y.envelope ≡ x.envelope)
          × (e ≡ write_failed)
          × (q' ≡ partly_written done y q))

  write_and_return-err :
      (x : CaptureQueueItem) (q q' : WindowsCaptureQueue) (e : QueueError)
      → write_and_return item_bytes x q ≡ (err e, q')
      → (q' ≡ q) ⊎ ((done : ℕ) × (e ≡ write_failed) × (q' ≡ partly_written done x q))
  unfolding write_and_return ◌>>◌
  write_and_return-err x q q' e h = elim (bind-err (write item_bytes x) (λ _. return x) q e q' h) [
    | inl w ↦ write-err item_bytes x q q' e w
    | inr (u, q1, w, r) ↦ absurd (cc)
  ]

  -- A change of an item that keeps its id and its envelope.
  abbrev KeepsOrigin : (CaptureQueueItem → WindowsCaptureQueue → CaptureQueueItem) → Type 0
  KeepsOrigin f =
      (x : CaptureQueueItem) (q : WindowsCaptureQueue)
      → ((f x q).queue_item_id ≡ x.queue_item_id) × ((f x q).envelope ≡ x.envelope)

  end-err :
      (c : CaptureQueueClaim) (checked : ℕ)
      (f : CaptureQueueItem → WindowsCaptureQueue → CaptureQueueItem) (q q' : WindowsCaptureQueue)
      (e : QueueError)
      → KeepsOrigin f
      → (read_claimed item_bytes c checked >>= λ x s. write_and_return item_bytes (f x s) s) q
        ≡ (err e, q')
      → IsKept c.queue_item_id e q q'
  end-err c checked f q q' e origin h = elim (bind-err _ _ q e q' h) [
    | inl r ↦ inl (read_claimed-err item_bytes c checked q q' e r)
    | inr (x, q1, r, w) ↦
        let (same, (init, there, active)) = read_claimed-inv item_bytes c checked q q1 x r in
        let (id, envelope) = origin x q1 in
        elim (write_and_return-err (f x q1) q1 q' e w) [
          | inl kept ↦ inl (kept ∙ same)
          | inr (done, failed, part) ↦ inr (
            x,
            f x q1,
            done,
            there,
            id ∙ read-id item_bytes c.queue_item_id q.disk x there,
            envelope,
            failed,
            part ∙ ap (partly_written done (f x q1)) same,
          )
        ]
  ]

  retried_item-KeepsOrigin :
      (error : String) (at : Option ℕ) (enforce : Bool) (now : ℕ)
      → KeepsOrigin (λ x q. retried_item q x error at enforce now)
  unfolding retried_item
  retried_item-KeepsOrigin error at enforce now x q =
      if_cases
        (λ (y : CaptureQueueItem). (y.queue_item_id ≡ x.queue_item_id) × (y.envelope ≡ x.envelope))
        (enforce && leb q.max_attempts (if enforce then suc x.failure_count else x.failure_count))
        (λ t. (refl, refl)) (λ f. (refl, refl))

  -- An attempt to end a claim that fails, in whichever of the four ways, leaves the queue as it was,
  -- unless a file operation of the write failed: then it made some of the changes that publish
  -- an item with the id and the envelope of the claimed one, in their order, and no other.
  pub failed_end-keeps :
      (c : CaptureQueueClaim) (error : String) (at : Option ℕ) (checked now : ℕ)
      (q q' : WindowsCaptureQueue) (e : QueueError)
      → (acknowledge item_bytes c checked now q ≡ (err e, q'))
        ⊎ (retry_claim item_bytes c error at checked now q ≡ (err e, q'))
        ⊎ (retry_after_commit item_bytes c error checked now q ≡ (err e, q'))
        ⊎ (dead_letter_claim item_bytes c error checked now q ≡ (err e, q'))
      → IsKept c.queue_item_id e q q'
  unfolding acknowledge retry_claim retry_after_commit dead_letter_claim retry_claimed
  failed_end-keeps c error at checked now q q' e h = elim h [
    | inl a ↦
        end-err c checked (λ x s. record x { state = acknowledged now; updated_at = now }) q q' e
          (λ x s. (refl, refl)) a
    | inr (inl b) ↦
        end-err c checked (λ x s. retried_item s x error at true now) q q' e
          (retried_item-KeepsOrigin error at true now) b
    | inr (inr (inl b)) ↦
        end-err c checked (λ x s. retried_item s x error none false now) q q' e
          (retried_item-KeepsOrigin error none false now) b
    | inr (inr (inr b)) ↦
        end-err c checked (λ x s. dead_letter_item x error x.failure_count now) q q' e
          (λ x s. (refl, refl)) b
  ]
