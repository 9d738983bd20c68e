-- ===== src/Queue/Prune.antt =====
-- `pruneAcknowledged`: acknowledged items leave the directory when their retention is over.
use proven_loop.Shared.{Option}
use proven_loop.Shared.{
  ℕ, ◌+◌, Bool, false, not, List, [], ◌∷◌, none, some, String, String_eq, Pair_eq, ltb,
  if◌then◌else◌, map,
}
use proven_loop.Queue.Data.{CaptureQueueState, acknowledged, CaptureQueueItem, file_missing}
use proven_loop.Queue.Disk.{
  IndexName, Disk, drop_file, apply_all, remove_state_indexes, sort_names, read_acknowledged,
}
use proven_loop.Queue.Act.{Act, ◌>>=◌, ◌>>◌, return, modify, gets, refuse_if}
use proven_loop.Queue.State.{WindowsCaptureQueue, QueueAct, on_disk, assert_initialized}
use proven_loop.Queue.Enqueue.{exists, remove_source_index_if_owned}

abbrev pub is_kept_until : WindowsCaptureQueue → ℕ → ℕ → Bool
is_kept_until q now at = ltb now (at + q.acknowledged_retention_ms)

unfoldable pub collects : WindowsCaptureQueue → ℕ → CaptureQueueState → Bool
collects q now (acknowledged at) = not (is_kept_until q now at)
collects q now _ = false

module _ (item_bytes : CaptureQueueItem → ℕ) where
  abbrev pub keep_old :
      WindowsCaptureQueue
      → ℕ
      → Option CaptureQueueItem
      → List CaptureQueueItem
      → List CaptureQueueItem
  keep_old q now none xs = xs
  keep_old q now (some x) xs = if collects q now x.state then x ∷ xs else xs

  -- The first loop: it stops at the first name that is too young.
  unfoldable pub collect :
      WindowsCaptureQueue → ℕ → List IndexName → Disk → List CaptureQueueItem × Disk
  unfolding collects
  collect q now [] d = ([], d)
  collect q now (n ∷ ns) d =
      let (found, d') = read_acknowledged item_bytes n d in
      let (xs, d'') = collect q now ns d' in
      if is_kept_until q now n.0 then ([], d) else (keep_old q now found xs, d'')

  -- The second loop. `unlink` fails on a file that is not there.
  unfoldable pub remove_all : List CaptureQueueItem → Act Disk (Unit {0})
  remove_all [] = return tt
  remove_all (x ∷ xs) = do
    there ← gets (exists x.queue_item_id)
    refuse_if (not there) file_missing
    modify (apply_all (drop_file x.queue_item_id ∷ remove_state_indexes x))
    modify (remove_source_index_if_owned x.envelope.deduplication_key x.queue_item_id)
    remove_all xs

  unfoldable pub prune_collected : List CaptureQueueItem → Act Disk (List String)
  prune_collected xs = do remove_all xs; return (map (λ x. x.queue_item_id) xs)

  unfoldable pub prune_open : ℕ → QueueAct (List String)
  prune_open now q =
      let (xs, d) = collect q now (sort_names q.disk.acknowledged_names) q.disk in
      on_disk (prune_collected xs) (record q { disk = d })

  unfoldable pub prune_acknowledged : ℕ → QueueAct (List String)
  prune_acknowledged now = do assert_initialized; prune_open now
