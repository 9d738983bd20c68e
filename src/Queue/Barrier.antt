-- ===== src/Queue/Barrier.antt =====
-- The deletion barrier of the queue, and the blocking of identities.
use proven_loop.Shared.{List, Option, none, some, String, String_eq, Pair_eq, ◌==◌, if◌then◌else◌}
use proven_loop.Shared.Result.{ok, err}
use proven_loop.Queue.Data.{invalid_item_id, conflicting_deletion}
use proven_loop.Queue.Disk.{Disk}
use proven_loop.Queue.Act.{Act, ◌>>◌, gets, refuse_if}
use proven_loop.Queue.Identity.{CaptureQueueIdentity, block_identities_exclusive}
use proven_loop.Queue.State.{QueueAct, on_disk, assert_initialized}

unfoldable pub place_barrier : String → Option String → Act Disk (Unit {0})
place_barrier id none d = (ok tt, record d { barrier = some id })
place_barrier id (some active) d =
    if active == id then (ok tt, d) else (err conflicting_deletion, d)

unfoldable pub begin_deletion_barrier : String → QueueAct (Unit {0})
begin_deletion_barrier id = do
  assert_initialized
  refuse_if (id == "") invalid_item_id
  on_disk (λ d. place_barrier id d.barrier d)

abbrev non_empty : Option String → Option String
non_empty none = none
non_empty (some id) = if id == "" then none else some id

unfoldable pub active_deletion_barrier : QueueAct (Option String)
active_deletion_barrier = do assert_initialized; gets (λ q. non_empty q.disk.barrier)

unfoldable pub lift_barrier : String → Option String → Act Disk (Unit {0})
lift_barrier id none d = (ok tt, d)
lift_barrier id (some active) d =
    if active == id then (ok tt, record d { barrier = none }) else (err conflicting_deletion, d)

unfoldable pub end_deletion_barrier : String → QueueAct (Unit {0})
end_deletion_barrier id = do assert_initialized; on_disk (λ d. lift_barrier id d.barrier d)

module _ (digest : String → String → String → String) where
  unfoldable pub block_identities : String → List CaptureQueueIdentity → QueueAct (Unit {0})
  block_identities generated is = do
    assert_initialized
    on_disk (block_identities_exclusive digest generated is)
