-- ===== src/Worker/Balance.antt =====
-- The counters of a run agree with each other and with the batch.
use Prim.Native.Nat.{ℕ, zero, suc, ◌+◌, ◌≤◌}
use mathlib.Core.Option.{Option, none, some}
use mathlib.Core.Path.{◌≡◌, ap, subst}
use native.Mathlib.Omega.{arith}
use proven_loop.Shared.{not, String, String_eq, Pair_eq, ℕ_eq, List_eq, Option_eq, length, if_cases}
use proven_loop.Shared.Result.{Result, ok, err}
use proven_loop.Shared.Action.{Action, ◌>>◌, return}
use proven_loop.Shared.Action.Yields.{
  Yields, return-Yields, any-Yields, choice-Yields, bind-Yields, yields,
}
use proven_loop.Queue.Data.{
  CaptureQueueState, pending, claimed, acknowledged, retry, dead_letter, CaptureQueueItem,
  CaptureQueueClaim,
}
use proven_loop.Breaker.{CaptureWorkerAdmission}
use proven_loop.Worker.{
  WorkerError, CanonicalIngestResult, ingest_stored, ingest_duplicate, ingest_unsupported,
  ingest_rejected, Host, Counters, CaptureWorkerRunResult, disabled, circuit_open,
  lease_unavailable, completed, CaptureWorker, dead_lettered_more, failed_more, retried_more, noted,
  stops, attempt, finally, after_release, end_claim, settle, ingest_failed, process, process_found,
  run_batch, run_with_lease, run_once, is_dead_letter, after_end, after_ingest, after_claim,
  no_counts,
}

-- The counters after a number of items: each was acknowledged, given up or retried.
pub record IsBalanced (handled : ℕ) (n : Counters) : Type 0 where
  pub ended : n.acknowledged_count + n.dead_lettered + n.retried ≡ handled
  pub taken : n.stored_count + n.duplicates + n.unsupported ≤ handled
  pub covered : handled ≤ n.stored_count + n.duplicates + n.unsupported + n.failed
  pub acknowledged_some : n.acknowledged_count ≤ n.stored_count + n.duplicates
  pub none_dropped : n.stored_count + n.duplicates ≤ n.acknowledged_count + n.retried
  pub retried_failed : n.retried ≤ n.failed
  pub failed_ended : n.failed ≤ n.retried + n.dead_lettered

module _ {S : Type 0} (host : Host S) where
  end_claim-Yields :
      (P : Counters → Type 0) (claim : CaptureQueueClaim)
      (end : Action WorkerError S CaptureQueueItem) (ended refused : Counters)
      → P ended
      → P (retried_more refused)
      → Yields P (end_claim host claim end ended refused)
  unfolding end_claim
  end_claim-Yields P claim end ended refused h k =
      bind-Yields (λ _. Unit) P (attempt end) (after_end host claim ended refused) (any-Yields _)
        (λ outcome _. by_outcome outcome)
    where
      by_outcome :
          (r : Result WorkerError CaptureQueueItem)
          → Yields P (after_end host claim ended refused r)
      by_outcome (ok x) = return-Yields WorkerError S P ended h
      by_outcome (err e) =
          bind-Yields (λ _. Unit) P (host.retry_after_commit claim e) _ (any-Yields _)
            (λ _ _. return-Yields WorkerError S P (retried_more refused) k)

  settle-IsBalanced :
      (h : ℕ) (claim : CaptureQueueClaim) (n : Counters) (r : CanonicalIngestResult)
      → IsBalanced h n
      → Yields (IsBalanced (suc h)) (settle host claim n r)
  unfolding settle
  settle-IsBalanced h claim n ingest_stored b =
      end_claim-Yields (IsBalanced (suc h)) claim _ _ _ (omega arith) (omega arith)
  settle-IsBalanced h claim n ingest_duplicate b =
      end_claim-Yields (IsBalanced (suc h)) claim _ _ _ (omega arith) (omega arith)
  settle-IsBalanced h claim n (ingest_unsupported reason) b =
      end_claim-Yields (IsBalanced (suc h)) claim _ _ _ (omega arith) (omega arith)
  settle-IsBalanced h claim n (ingest_rejected reason) b =
      end_claim-Yields (IsBalanced (suc h)) claim _ _ _ (omega arith) (omega arith)

  ingest_failed-IsBalanced :
      (h : ℕ) (claim : CaptureQueueClaim) (n : Counters) (e : WorkerError)
      → IsBalanced h n
      → Yields (IsBalanced (suc h)) (ingest_failed host claim n e)
  unfolding ingest_failed
  ingest_failed-IsBalanced h claim n e b =
      bind-Yields (λ _. Unit) (IsBalanced (suc h)) (host.retry_claim claim e) _ (any-Yields _)
        (λ next _. return-Yields WorkerError S (IsBalanced (suc h)) _ (
          if_cases (IsBalanced (suc h)) (is_dead_letter next.state)
            {x = dead_lettered_more (failed_more n)} {y = retried_more (failed_more n)}
            (λ _. omega arith) (λ _. omega arith)))

  process-IsBalanced :
      (h : ℕ) (x : CaptureQueueItem) (claim : CaptureQueueClaim) (n : Counters)
      → IsBalanced h n
      → Yields (IsBalanced (suc h)) (process host x claim n)
  unfolding process ◌>>◌
  process-IsBalanced h x claim n b =
      bind-Yields (λ _. Unit) (IsBalanced (suc h))
        (attempt (host.on_canonical_mutation_pending >> host.ingest_queue_item x)) _ (any-Yields _)
        λ result _.
          bind-Yields (IsBalanced (suc h)) (IsBalanced (suc h)) (after_ingest host claim n result) _
            (by_result result)
            λ n' b'.
              bind-Yields (λ _. Unit) (IsBalanced (suc h)) host.yield_control _ (any-Yields _)
                λ _ _. return-Yields WorkerError S (IsBalanced (suc h)) n' b'
    where
      by_result :
          (r : Result WorkerError CanonicalIngestResult)
          → Yields (IsBalanced (suc h)) (after_ingest host claim n r)
      by_result (ok result) = settle-IsBalanced h claim n result b
      by_result (err e) = ingest_failed-IsBalanced h claim n e b

  process_found-IsBalanced :
      (h : ℕ) (x : CaptureQueueItem) (state : CaptureQueueState) (n : Counters)
      → IsBalanced h n
      → Yields (IsBalanced (suc h)) (process_found host x state n)
  unfolding process_found Yields
  process_found-IsBalanced h x (claimed at expires owner) n b = process-IsBalanced h x _ n b
  process_found-IsBalanced h x pending n b = λ s a s' e. absurd (cc)
  process_found-IsBalanced h x (acknowledged at) n b = λ s a s' e. absurd (cc)
  process_found-IsBalanced h x (retry error at) n b = λ s a s' e. absurd (cc)
  process_found-IsBalanced h x (dead_letter error) n b = λ s a s' e. absurd (cc)

noted-IsBalanced :
    (h : ℕ) (a : CaptureWorkerAdmission) (n : Counters) → IsBalanced h n → IsBalanced h (noted a n)
unfolding noted
noted-IsBalanced h a n b =
    if_cases (IsBalanced h) a.allowed {x = n} {y = record n { circuit_open_reasons = a.reasons }}
      (λ _. b) (λ _. omega arith)

-- The counters of a run are balanced for some number of items within the batch.
pub record IsWithin (batch : ℕ) (n : Counters) : Type 0 where
  pub handled : ℕ
  pub within : handled ≤ batch
  pub balanced : IsBalanced handled n

module _ {S : Type 0} (host : Host S) (owner : String) where
  stop_here :
      (left h : ℕ) (n : Counters)
      → IsBalanced h n
      → Yields (IsWithin (h + left)) (return {E = WorkerError} {S = S} n)
  stop_here left h n b =
      return-Yields WorkerError S (IsWithin (h + left)) n
        (record { handled = h; within = omega arith; balanced = b })

  after_claim-IsBalanced :
      (left h : ℕ) (rest : Counters → Action WorkerError S Counters) (n : Counters)
      (found : Option CaptureQueueItem)
      → IsBalanced h n
      → ((m : Counters) → IsBalanced (suc h) m → Yields (IsWithin (suc h + left)) (rest m))
      → Yields (IsWithin (h + suc left)) (after_claim host rest n found)
  after_claim-IsBalanced left h rest n none b next = stop_here (suc left) h n b
  after_claim-IsBalanced left h rest n (some x) b next =
      bind-Yields (IsBalanced (suc h)) (IsWithin (h + suc left)) (process_found host x x.state n)
        rest (process_found-IsBalanced host h x x.state n b)
        (λ m b'. subst (λ k. Yields (IsWithin k) (rest m)) (omega arith) (next m b'))

  run_batch-IsBalanced :
      (left h : ℕ) (n : Counters)
      → IsBalanced h n
      → Yields (IsWithin (h + left)) (run_batch host owner left n)
  unfolding run_batch
  run_batch-IsBalanced zero h n b = stop_here 0 h n b
  run_batch-IsBalanced (suc left) h n b =
      let P = IsWithin (h + suc left) in
      bind-Yields (λ _. Unit) P host.enabled _ (any-Yields _)
        λ on _. choice-Yields P (not on) _ _ (stop_here (suc left) h n b) (
          bind-Yields (λ _. Unit) P host.admission _ (any-Yields _)
            λ a _.
              let b' = noted-IsBalanced h a n b in
              choice-Yields P (stops a) _ _ (stop_here (suc left) h (noted a n) b') (
                bind-Yields (λ _. Unit) P (host.claim_next owner) _ (any-Yields _)
                  λ found _.
                    after_claim-IsBalanced left h (run_batch host owner left) (noted a n) found b'
                      (run_batch-IsBalanced left (suc h))))

-- What a run reports: the counters of a completed run are balanced within the batch.
abbrev pub Reports : ℕ → CaptureWorkerRunResult → Type 0
Reports batch disabled = Unit
Reports batch lease_unavailable = Unit
Reports batch (circuit_open reasons) = Unit
Reports batch (completed recovered n) = IsWithin batch n

module _ {S A : Type 0} (P : A → Type 0) where
  after_release-ok :
      (r : Result WorkerError A) (q : Result WorkerError (Unit {0}) × S) (a : A) (s' : S)
      → after_release r q ≡ (ok a, s')
      → r ≡ ok a
  after_release-ok r (ok t, s2) a s' h = cc
  after_release-ok r (err e, s2) a s' h = absurd (cc)

  finally-Yields :
      (m : Action WorkerError S A) (last : Action WorkerError S (Unit {0}))
      → Yields P m
      → Yields P (finally m last)
  unfolding finally Yields
  finally-Yields m last h s a s' e =
      h s a (m s).1 (ap (λ r. (r, (m s).1)) (after_release-ok (m s).0 (last (m s).1) a s' e))

module _ {S : Type 0} (host : Host S) (w : CaptureWorker) where
  run_with_lease-Reports : Yields (Reports w.batch) (run_with_lease host w)
  unfolding run_with_lease
  run_with_lease-Reports =
      let P = Reports w.batch in
      finally-Yields P _ host.release (
        bind-Yields (λ _. Unit) P host.recover_expired_claims _ (any-Yields _)
          λ recovered _.
            bind-Yields (IsWithin w.batch) P (run_batch host w.owner w.batch no_counts) _
              (subst (λ k. Yields (IsWithin k) (run_batch host w.owner w.batch no_counts))
                (omega arith) (run_batch-IsBalanced host w.owner w.batch 0 no_counts none_yet))
              λ n b. return-Yields WorkerError S P (completed (length recovered) n) b)
    where
      none_yet : IsBalanced 0 no_counts
      none_yet = omega arith

  run_once-Reports : Yields (Reports w.batch) (run_once host w)
  unfolding run_once
  run_once-Reports =
      let P = Reports w.batch in
      bind-Yields (λ _. Unit) P host.enabled _ (any-Yields _)
        λ on _. choice-Yields P (not on) _ _ (return-Yields WorkerError S P disabled tt) (
          bind-Yields (λ _. Unit) P host.admission _ (any-Yields _)
            λ a _.
              choice-Yields P (stops a) _ _
                (return-Yields WorkerError S P (circuit_open a.reasons) tt)
                (bind-Yields (λ _. Unit) P host.try_acquire _ (any-Yields _)
                  λ got _.
                    choice-Yields P got _ _ run_with_lease-Reports
                      (return-Yields WorkerError S P lease_unavailable tt)))

-- For every worker, whatever the queue, the store and the callbacks do: when a run completes, some
-- number of items within the batch size was handled, and each was acknowledged, given up or retried.
-- The stored, duplicate and unsupported items are no more than these, and the others failed; no more
-- are acknowledged than were stored or duplicates, and of the stored and duplicates each was
-- acknowledged or retried; every retry counts a failure, and a failed item is retried or given up.
pub run_once-IsWithin :
    {S : Type 0} (host : Host S) (w : CaptureWorker) (s s' : S) (recovered : ℕ) (n : Counters)
    → run_once host w s ≡ (ok (completed recovered n), s')
    → IsWithin w.batch n
run_once-IsWithin host w s s' recovered n h =
    yields (Reports w.batch) (run_once host w) (run_once-Reports host w) s (completed recovered n)
      s' h
