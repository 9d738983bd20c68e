-- ===== src/Queue/Written.antt =====
-- The outcomes of `#write`.
pub mod Files
use Prim.Native.Nat.{ℕ}
use mathlib.Core.Logic.{◌⊎◌, inl, inr}
use mathlib.Core.Option.{Option, none, some}
use mathlib.Core.Path.{◌≡◌, refl}
use native.Mathlib.Omega.{arith}
use proven_loop.Shared.{
  Bool, true, false, String, String_eq, Pair_eq, ℕ_eq, List_eq, Option_eq, take, ltb, Bool-cases,
}
use proven_loop.Shared.Result.{Result, ok, err}
use proven_loop.Shared.Action.Keeps.{
  Keeps, bind-Keeps, then-Keeps, refuse_if-Keeps, reads-Keeps, keeps,
}
use proven_loop.Queue.Data.{CaptureQueueItem, QueueError, write_failed, item_too_large}
use proven_loop.Queue.Disk.{Disk, apply_all, write_steps, size_limit}
use proven_loop.Queue.Act.{◌>>=◌, ◌>>◌}
use proven_loop.Queue.State.{WindowsCaptureQueue, publish, write}

abbrev pub written : CaptureQueueItem → WindowsCaptureQueue → WindowsCaptureQueue
written x q = record q { disk = apply_all (write_steps x) q.disk }

-- What a write leaves that fails after this many changes.
abbrev pub partly_written : ℕ → CaptureQueueItem → WindowsCaptureQueue → WindowsCaptureQueue
partly_written done x q = record q { disk = apply_all (take done (write_steps x)) q.disk }

publish-ok :
    (fault : Option ℕ) (x : CaptureQueueItem) (q q' : WindowsCaptureQueue) (u : Unit {0})
    → publish fault x q ≡ (ok u, q')
    → q' ≡ written x q
publish-ok none x q q' u h = cc
publish-ok (some done) x q q' u h = absurd (cc)

publish-err :
    (fault : Option ℕ) (x : CaptureQueueItem) (q q' : WindowsCaptureQueue) (e : QueueError)
    → publish fault x q ≡ (err e, q')
    → (done : ℕ) × (e ≡ write_failed) × (q' ≡ partly_written done x q)
publish-err none x q q' e h = absurd (cc)
publish-err (some done) x q q' e h = (done, cc, cc)

module _ (item_bytes : CaptureQueueItem → ℕ) where
  write-small :
      (x : CaptureQueueItem) (q : WindowsCaptureQueue)
      → ltb size_limit (item_bytes x) ≡ false
      → write item_bytes x q ≡ publish (q.write_faults x q.disk) x q
  unfolding write ◌>>◌ ◌>>=◌
  write-small x q small = ground (arith, small)

  write-large :
      (x : CaptureQueueItem) (q : WindowsCaptureQueue)
      → ltb size_limit (item_bytes x) ≡ true
      → write item_bytes x q ≡ (err item_too_large, q)
  unfolding write ◌>>◌ ◌>>=◌
  write-large x q large = ground (arith, large)

  pub write-ok :
      (x : CaptureQueueItem) (q q' : WindowsCaptureQueue) (u : Unit {0})
      → write item_bytes x q ≡ (ok u, q')
      → (ltb size_limit (item_bytes x) ≡ false) × (q' ≡ written x q)
  write-ok x q q' u h = elim (Bool-cases (ltb size_limit (item_bytes x))) [
    | inl large ↦ absurd (cc (write-large x q large))
    | inr small ↦
        (small, publish-ok (q.write_faults x q.disk) x q q' u (cc (write-small x q small)))
  ]

  -- A write that throws has changed nothing, or made some of the changes before a file operation
  -- failed.
  pub write-err :
      (x : CaptureQueueItem) (q q' : WindowsCaptureQueue) (e : QueueError)
      → write item_bytes x q ≡ (err e, q')
      → (q' ≡ q) ⊎ ((done : ℕ) × (e ≡ write_failed) × (q' ≡ partly_written done x q))
  write-err x q q' e h = elim (Bool-cases (ltb size_limit (item_bytes x))) [
    | inl large ↦ inl (cc (write-large x q large))
    | inr small ↦ inr (publish-err (q.write_faults x q.disk) x q q' e (cc (write-small x q small)))
  ]

  pub write-of :
      (x : CaptureQueueItem) (q : WindowsCaptureQueue)
      → ltb size_limit (item_bytes x) ≡ false
      → q.write_faults x q.disk ≡ none
      → write item_bytes x q ≡ (ok tt, written x q)
  write-of x q small sound = cc (write-small x q small)

  -- A condition that all the changes keep, and those before a failure too.
  module _ (P : WindowsCaptureQueue → Type 0) where
    publish-Keeps :
        (fault : Option ℕ) (x : CaptureQueueItem)
        → ((q : WindowsCaptureQueue) → P q → P (written x q))
        → ((done : ℕ) (q : WindowsCaptureQueue) → P q → P (partly_written done x q))
        → Keeps P (publish fault x)
    publish-Keeps none x whole part = keeps P _ whole
    publish-Keeps (some done) x whole part = keeps P _ (part done)

    pub write-Keeps :
        (x : CaptureQueueItem)
        → ((q : WindowsCaptureQueue) → P q → P (written x q))
        → ((done : ℕ) (q : WindowsCaptureQueue) → P q → P (partly_written done x q))
        → Keeps P (write item_bytes x)
    unfolding write
    write-Keeps x whole part =
        then-Keeps P _ _ (refuse_if-Keeps P _ _)
          (bind-Keeps P _ _ (reads-Keeps P _) λ fault. publish-Keeps fault x whole part)
