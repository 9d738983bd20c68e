-- ===== src/Worker/Safe.antt =====
-- The worker over a queue and a store with laws: what is safe before a run is safe after it.
use Prim.Native.Nat.{ℕ, zero, suc}
use mathlib.Core.Option.{Option, none, some}
use mathlib.Core.Path.{◌≡◌, refl, ap}
use proven_loop.Shared.{
  Bool, true, false, not, String, String_eq, Pair_eq, ℕ_eq, List_eq, Option_eq,
}
use proven_loop.Shared.Result.{Result, ok, err}
use proven_loop.Shared.Action.{Action, ◌>>=◌, ◌>>◌, return, continue}
use proven_loop.Shared.Action.Keeps.{
  Keeps, bind-Keeps, then-Keeps, choice-Keeps, keeps, runs, bind_after,
}
use proven_loop.Queue.Data.{
  CaptureQueueState, pending, claimed, acknowledged, retry, dead_letter, CaptureQueueItem,
  CaptureQueueClaim,
}
use proven_loop.Worker.{
  WorkerError, CanonicalIngestResult, ingest_stored, ingest_duplicate, ingest_unsupported,
  ingest_rejected, Host, Counters, CaptureWorker, claim_from_item, noted, stops, attempt, finally,
  after_release, after_end, end_claim, settle, ingest_failed, after_ingest, process, process_found,
  after_claim, run_batch, run_with_lease, run_once, no_counts,
}

-- The result says that the store has the event.
abbrev pub is_committed : CanonicalIngestResult → Bool
is_committed ingest_stored = true
is_committed ingest_duplicate = true
is_committed _ = false

-- The laws of the operations. `Taken` holds of an item that claimNext handed out, until the store is
-- asked; `Ingested` of an item that the store then has.
pub record SafeLaws {S : Type 0} (host : Host S) : Type 1 where
  pub Safe : S → Type 0
  pub Taken : CaptureQueueItem → S → Type 0
  pub Ingested : CaptureQueueItem → S → Type 0
  pub enabled_safe : Keeps Safe host.enabled
  pub admission_safe : Keeps Safe host.admission
  pub try_acquire_safe : Keeps Safe host.try_acquire
  pub release_safe : Keeps Safe host.release
  pub recover_safe : Keeps Safe host.recover_expired_claims
  pub claim_next_safe : (owner : String) → Keeps Safe (host.claim_next owner)
  pub claim_next_taken :
      (owner : String) (s s' : S) (x : CaptureQueueItem)
      → Safe s
      → host.claim_next owner s ≡ (ok (some x), s')
      → Taken x s'
  pub pending_safe :
      (x : CaptureQueueItem) (s : S)
      → Safe s
      → Taken x s
      → Safe (host.on_canonical_mutation_pending s).1
        × Taken x (host.on_canonical_mutation_pending s).1
  pub ingest_safe :
      (x : CaptureQueueItem) (s : S) → Safe s → Taken x s → Safe (host.ingest_queue_item x s).1
  pub ingest_committed :
      (x : CaptureQueueItem) (s s' : S) (r : CanonicalIngestResult)
      → Safe s
      → Taken x s
      → host.ingest_queue_item x s ≡ (ok r, s')
      → is_committed r ≡ true
      → Ingested x s'
  pub acknowledge_safe :
      (x : CaptureQueueItem) (owner : String) (s : S)
      → Safe s
      → Ingested x s
      → Safe (host.acknowledge (claim_from_item x owner) s).1
  pub retry_safe : (c : CaptureQueueClaim) (e : WorkerError) → Keeps Safe (host.retry_claim c e)
  pub retry_after_commit_safe :
      (c : CaptureQueueClaim) (e : WorkerError) → Keeps Safe (host.retry_after_commit c e)
  pub dead_letter_safe :
      (c : CaptureQueueClaim) (reason : String) → Keeps Safe (host.dead_letter_claim c reason)
  pub yield_safe : Keeps Safe host.yield_control

module _ {S : Type 0} (host : Host S) (laws : SafeLaws host) where
  open laws use {Safe, Taken, Ingested}

  return-Safe : {A : Type 0} (a : A) → Keeps Safe (return {E = WorkerError} a)
  return-Safe a = keeps Safe _ (λ s p. p)

  after_end-Safe :
      (claim : CaptureQueueClaim) (ended refused : Counters)
      (r : Result WorkerError CaptureQueueItem)
      → Keeps Safe (after_end host claim ended refused r)
  after_end-Safe claim ended refused (ok x) = return-Safe ended
  after_end-Safe claim ended refused (err e) =
      bind-Keeps Safe _ _ (laws.retry_after_commit_safe claim e) (λ item. return-Safe _)

  end_claim-Safe :
      (claim : CaptureQueueClaim) (end : Action WorkerError S CaptureQueueItem)
      (ended refused : Counters) (s : S)
      → Safe (end s).1
      → Safe (end_claim host claim end ended refused s).1
  unfolding end_claim
  end_claim-Safe claim end ended refused s p =
      bind_after Safe (attempt end) _ s p (after_end-Safe claim ended refused)

  settle-Safe :
      (x : CaptureQueueItem) (owner : String) (n : Counters) (r : CanonicalIngestResult) (s : S)
      → Safe s
      → (is_committed r ≡ true → Ingested x s)
      → Safe (settle host (claim_from_item x owner) n r s).1
  unfolding settle
  settle-Safe x owner n ingest_stored s p has =
      end_claim-Safe _ _ _ _ s (laws.acknowledge_safe x owner s p (has refl))
  settle-Safe x owner n ingest_duplicate s p has =
      end_claim-Safe _ _ _ _ s (laws.acknowledge_safe x owner s p (has refl))
  settle-Safe x owner n (ingest_unsupported reason) s p has =
      end_claim-Safe _ _ _ _ s (runs Safe _ (laws.dead_letter_safe _ reason) s p)
  settle-Safe x owner n (ingest_rejected reason) s p has =
      end_claim-Safe _ _ _ _ s (runs Safe _ (laws.dead_letter_safe _ reason) s p)

  ingest_failed-Safe :
      (claim : CaptureQueueClaim) (n : Counters) (e : WorkerError)
      → Keeps Safe (ingest_failed host claim n e)
  unfolding ingest_failed
  ingest_failed-Safe claim n e =
      bind-Keeps Safe _ _ (laws.retry_safe claim e) (λ next. return-Safe _)

  -- What an outcome of the ingestion says of the state that it leaves.
  Outcome : CaptureQueueItem → Result WorkerError CanonicalIngestResult × S → Type 0
  Outcome x r =
      Safe r.1
      × ((result : CanonicalIngestResult)
          → r.0 ≡ ok result
          → is_committed result ≡ true
          → Ingested x r.1)

  after_pending :
      (x : CaptureQueueItem) (r : Result WorkerError (Unit {0}) × S)
      → Safe r.1 × Taken x r.1
      → Outcome x (continue (λ _. host.ingest_queue_item x) r)
  unfolding Outcome
  after_pending x (ok t, s) (p, taken) = (
    laws.ingest_safe x s p taken,
    λ result e c.
        laws.ingest_committed x s _ result p taken (ap (λ o. (o, (host.ingest_queue_item x s).1)) e)
          c,
  )
  after_pending x (err e, s) (p, taken) = (p, λ result e' c. absurd (cc))

  ingest-Outcome :
      (x : CaptureQueueItem) (s : S)
      → Safe s
      → Taken x s
      → Outcome x ((host.on_canonical_mutation_pending >> host.ingest_queue_item x) s)
  unfolding ◌>>◌ ◌>>=◌
  ingest-Outcome x s p taken =
      after_pending x (host.on_canonical_mutation_pending s) (laws.pending_safe x s p taken)

  after_ingest-Safe :
      (x : CaptureQueueItem) (owner : String) (n : Counters)
      (r : Result WorkerError CanonicalIngestResult × S)
      → Outcome x r
      → Safe (after_ingest host (claim_from_item x owner) n r.0 r.1).1
  unfolding Outcome
  after_ingest-Safe x owner n (ok result, s) (p, has) =
      settle-Safe x owner n result s p (has result refl)
  after_ingest-Safe x owner n (err e, s) (p, has) = runs Safe _ (ingest_failed-Safe _ n e) s p

  process-Safe :
      (x : CaptureQueueItem) (owner : String) (n : Counters) (s : S)
      → Safe s
      → Taken x s
      → Safe (process host x (claim_from_item x owner) n s).1
  unfolding process ◌>>=◌
  process-Safe x owner n s p taken =
      bind_after Safe (after_ingest host (claim_from_item x owner) n _) _ _
        (after_ingest-Safe x owner n
          ((host.on_canonical_mutation_pending >> host.ingest_queue_item x) s)
          (ingest-Outcome x s p taken))
        (λ n'. then-Keeps Safe _ _ laws.yield_safe (return-Safe n'))

  process_found-Safe :
      (x : CaptureQueueItem) (state : CaptureQueueState) (n : Counters) (s : S)
      → Safe s
      → Taken x s
      → Safe (process_found host x state n s).1
  unfolding process_found
  process_found-Safe x (claimed at expires owner) n s p taken = process-Safe x owner n s p taken
  process_found-Safe x pending n s p taken = p
  process_found-Safe x (acknowledged at) n s p taken = p
  process_found-Safe x (retry error at) n s p taken = p
  process_found-Safe x (dead_letter error) n s p taken = p

  after_claim-Safe :
      (rest : Counters → Action WorkerError S Counters) (n : Counters)
      (r : Result WorkerError (Option CaptureQueueItem) × S)
      → ((m : Counters) → Keeps Safe (rest m))
      → Safe r.1
      → ((x : CaptureQueueItem) → r.0 ≡ ok (some x) → Taken x r.1)
      → Safe (continue (after_claim host rest n) r).1
  after_claim-Safe rest n (ok none, s) k p taken = p
  after_claim-Safe rest n (ok (some x), s) k p taken =
      bind_after Safe (process_found host x x.state n) rest s
        (process_found-Safe x x.state n s p (taken x refl)) k
  after_claim-Safe rest n (err e, s) k p taken = p

  claim-Safe :
      (owner : String) (rest : Counters → Action WorkerError S Counters) (n : Counters)
      → ((m : Counters) → Keeps Safe (rest m))
      → Keeps Safe (host.claim_next owner >>= after_claim host rest n)
  unfolding ◌>>=◌ Keeps
  claim-Safe owner rest n k s p =
      after_claim-Safe rest n (host.claim_next owner s) k (laws.claim_next_safe owner s p)
        (λ x e. laws.claim_next_taken owner s _ x p (ap (λ r. (r, (host.claim_next owner s).1)) e))

  run_batch-Safe :
      (owner : String) (left : ℕ) (n : Counters) → Keeps Safe (run_batch host owner left n)
  unfolding run_batch
  run_batch-Safe owner zero n = return-Safe n
  run_batch-Safe owner (suc left) n = bind-Keeps Safe host.enabled _ laws.enabled_safe λ on.
      choice-Keeps Safe (not on) _ _ (return-Safe n) (
        bind-Keeps Safe host.admission _ laws.admission_safe λ a.
          choice-Keeps Safe (stops a) _ _ (return-Safe (noted a n))
            (claim-Safe owner (run_batch host owner left) (noted a n) (run_batch-Safe owner left)))

  after_release-Safe :
      {A : Type 0} (r : Result WorkerError A) (q : Result WorkerError (Unit {0}) × S)
      → Safe q.1
      → Safe (after_release r q).1
  after_release-Safe r (ok t, s) h = h
  after_release-Safe r (err e, s) h = h

  finally-Safe :
      {A : Type 0} (m : Action WorkerError S A) → Keeps Safe m → Keeps Safe (finally m host.release)
  unfolding finally Keeps
  finally-Safe m k s p =
      after_release-Safe (m s).0 (host.release (m s).1) (laws.release_safe (m s).1 (k s p))

  run_with_lease-Safe : (w : CaptureWorker) → Keeps Safe (run_with_lease host w)
  unfolding run_with_lease
  run_with_lease-Safe w = finally-Safe _ (
      bind-Keeps Safe host.recover_expired_claims _ laws.recover_safe λ recovered.
        bind-Keeps Safe (run_batch host w.owner w.batch no_counts) _
          (run_batch-Safe w.owner w.batch no_counts) λ n. return-Safe _)

  pub run_once-Safe : (w : CaptureWorker) → Keeps Safe (run_once host w)
  unfolding run_once
  run_once-Safe w = bind-Keeps Safe host.enabled _ laws.enabled_safe λ on.
      choice-Keeps Safe (not on) _ _ (return-Safe _) (
        bind-Keeps Safe host.admission _ laws.admission_safe λ a.
          choice-Keeps Safe (stops a) _ _ (return-Safe _) (
            bind-Keeps Safe host.try_acquire _ laws.try_acquire_safe
              λ got. choice-Keeps Safe got _ _ (run_with_lease-Safe w) (return-Safe _)))
