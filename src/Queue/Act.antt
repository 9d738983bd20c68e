-- ===== src/Queue/Act.antt =====
-- The queue's operations: actions that throw the errors of the queue.
use proven_loop.Queue.Data.{QueueError}
use proven_loop.Shared.Action.{Action}
unfoldable pub use proven_loop.Shared.Action.{
  continue, ◌>>=◌, ◌>>◌, return, throw, modify, gets, reads, refuse_if,
}

abbrev pub Act : Type 0 → Type 0 → Type 0
Act S A = Action QueueError S A
