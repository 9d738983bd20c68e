-- ===== src/Worker/Lease.antt =====
-- The lease between processes is given back however a run ends.
use mathlib.Core.Logic.{◌≢◌}
use proven_loop.Shared.{
  Bool, true, false, not, String_eq, Pair_eq, ℕ_eq, List_eq, Option_eq, if◌then◌else◌,
}
use proven_loop.Shared.Result.{Result, ok, err}
use proven_loop.Shared.Action.{Action, ◌>>=◌, return, continue}
use proven_loop.Worker.{
  WorkerError, Host, CaptureWorkerRunResult, lease_unavailable, CaptureWorker, stops, finally,
  after_release, run_with_lease, run_once,
}
use proven_loop.Shared.Action.Keeps.{Keeps, bind-Keeps, choice-Keeps, keeps, runs}

-- What the worker relies on of its lease: the two tests before it leave it as it is, an attempt that
-- does not get it leaves it free, and it is free after its release, whether or not that throws.
pub record LeaseLaws {S : Type 0} (host : Host S) (IsFree : S → Type 0) : Type 0 where
  pub enabled_free : (s : S) → IsFree s → IsFree (host.enabled s).1
  pub admission_free : (s : S) → IsFree s → IsFree (host.admission s).1
  pub refused_free :
      (s : S) → IsFree s → (host.try_acquire s).0 ≢ ok true → IsFree (host.try_acquire s).1
  pub release_free : (s : S) → IsFree (host.release s).1

module _ {S : Type 0} (IsFree : S → Type 0) where
  after_release-IsFree :
      {A : Type 0} (r : Result WorkerError A) (q : Result WorkerError (Unit {0}) × S)
      → IsFree q.1
      → IsFree (after_release r q).1
  after_release-IsFree r (ok t, s) h = h
  after_release-IsFree r (err e, s) h = h

module _ {S : Type 0} (host : Host S) (IsFree : S → Type 0) (laws : LeaseLaws host IsFree)
    (w : CaptureWorker) where
  run_with_lease-IsFree : (s : S) → IsFree (run_with_lease host w s).1
  unfolding run_with_lease finally
  run_with_lease-IsFree s = after_release-IsFree IsFree _ _ (laws.release_free _)

  acquired : (Bool → Action WorkerError S CaptureWorkerRunResult)
  acquired got = if got then run_with_lease host w else return lease_unavailable

  acquired-IsFree :
      (r : Result WorkerError Bool × S)
      → (r.0 ≢ ok true → IsFree r.1)
      → IsFree (continue acquired r).1
  unfolding acquired
  acquired-IsFree (ok true, s) h = run_with_lease-IsFree s
  acquired-IsFree (ok false, s) h = h (λ e. cc e)
  acquired-IsFree (err e, s) h = h (λ e'. cc e')

  try_acquire-IsFree : Keeps IsFree (host.try_acquire >>= acquired)
  unfolding ◌>>=◌ Keeps
  try_acquire-IsFree s free = acquired-IsFree (host.try_acquire s) (laws.refused_free s free)

  whole : Keeps IsFree (run_once host w)
  unfolding run_once acquired
  whole = bind-Keeps IsFree host.enabled _ (keeps IsFree _ laws.enabled_free) λ on.
      choice-Keeps IsFree (not on) _ _ (keeps IsFree _ (λ s free. free)) (
        bind-Keeps IsFree host.admission _ (keeps IsFree _ laws.admission_free) λ a.
          choice-Keeps IsFree (stops a) _ _ (keeps IsFree _ (λ s free. free)) try_acquire-IsFree)

-- A run that finds the lease free leaves it free, whether it completes, is refused or throws: also
-- where the queue, the store or a callback throws in the middle of a batch. It is relied on that the
-- lease is free after its release and after a failed attempt to get it, and that the two tests
-- before the attempt leave it alone.
pub run_once-IsFree :
    {S : Type 0} (host : Host S) (IsFree : S → Type 0) (laws : LeaseLaws host IsFree)
    (w : CaptureWorker) (s : S)
    → IsFree s
    → IsFree (run_once host w s).1
run_once-IsFree host IsFree laws w s free =
    runs IsFree (run_once host w) (whole host IsFree laws w) s free
