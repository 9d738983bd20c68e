-- ===== src/Queue/Claiming.antt =====
-- Claiming, ending a claim and recovering keep the active index complete: the condition that passes.
use proven_loop.Shared.{ℕ}
use proven_loop.Queue.Data.{CaptureQueueItem}
use proven_loop.Queue.Index.{Indexed}
use proven_loop.Queue.Disk.{write_steps}
use proven_loop.Queue.Crash.{write-crash-Indexed, all-Indexed, write_steps-SafeAll}
use proven_loop.Queue.Indexing.{read_active-Indexed}
use proven_loop.Queue.Passing.{Passing}

abbrev pub index_passing : (item_bytes : CaptureQueueItem → ℕ) → Passing item_bytes
index_passing item_bytes = record {
  Holds = Indexed item_bytes;
  Allowed = λ _. Unit;
  open_allowed = λ _ _. tt;
  read_keeps = read_active-Indexed item_bytes;
  write_keeps =
      λ x d _ i. all-Indexed item_bytes (write_steps x) d (write_steps-SafeAll item_bytes x d) i;
  fault_keeps = λ done x d _ i. write-crash-Indexed item_bytes done x d i;
}
