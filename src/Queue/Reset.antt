-- ===== src/Queue/Reset.antt =====
-- `clearAllRecords`: the reset of the queue under its barrier. The files are listed, the marker of the
-- cutoff is written, and then they are removed one by one; links and foreign files, which the code
-- refuses, are not modelled, and directories are not part of the model.
pub mod Dropped
pub mod Removed
pub mod Inventory
use proven_loop.Shared.{
  ℕ, suc, Bool, true, false, not, List, [], ◌∷◌, ◌++◌, map, Option, none, some, ltb, String,
  if◌then◌else◌, String_eq, Pair_eq, ℕ_eq,
}
use proven_loop.Shared.Assoc.{delete, unlink}
use proven_loop.Queue.Data.{cutoff_invalid, cutoff_moves_backwards, barrier_required}
use proven_loop.Queue.Disk.{IndexName, Disk}
use proven_loop.Queue.Act.{◌>>=◌, ◌>>◌, return, modify, gets, refuse_if}
use proven_loop.Queue.State.{QueueAct, change_disk, assert_initialized, deletion_barrier_active}

abbrev pub is_before : ℕ → Option ℕ → Bool
is_before cutoff none = false
is_before cutoff (some previous) = ltb cutoff previous

-- A file under the root of the queue.
pub data RecordFile : Type 0 where
  item_file : String → RecordFile
  active_file acknowledged_file : IndexName → RecordFile
  quarantined_file source_file : String → RecordFile
  tombstone_file : String × String → RecordFile
  key_file verifier_file indexes_file barrier_file cutoff_file : RecordFile

abbrev pub names : {V : Type 0} → List (String × V) → List String
names [] = []
names ((name, value) ∷ entries) = name ∷ names entries

abbrev pub if_there : {A : Type 0} → RecordFile → Option A → List RecordFile
if_there file none = []
if_there file (some a) = file ∷ []

abbrev pub if_set : Bool → List RecordFile
if_set true = indexes_file ∷ []
if_set false = []

abbrev pub other_files : Disk → List RecordFile
other_files d =
    if_there key_file d.identity_key
    ++ (if_there verifier_file d.identity_verifier
        ++ (if_set d.indexes_v2
            ++ (if_there barrier_file d.barrier ++ if_there cutoff_file d.reset_cutoff)))

-- What `readdir` finds, in the root and in its directories.
abbrev pub all_files : Disk → List RecordFile
all_files d =
    map item_file (names d.files)
    ++ (map active_file d.active
        ++ (map acknowledged_file d.acknowledged_names
            ++ (map quarantined_file d.quarantined
                ++ (map source_file (names d.sources)
                    ++ (map tombstone_file d.tombstones ++ other_files d)))))

abbrev pub is_protected : RecordFile → Bool
is_protected barrier_file = true
is_protected cutoff_file = true
is_protected _ = false

-- The item files are those of the root that end in `.json`.
abbrev pub count_item : RecordFile → ℕ → ℕ
count_item (item_file id) cleared = suc cleared
count_item _ cleared = cleared

-- `collect`, with the locals `files` and `clearedItems`.
unfoldable pub collect : List RecordFile → List RecordFile × ℕ
collect [] = ([], 0)
collect (file ∷ others) =
    let (files, cleared) = collect others in
    if is_protected file then (files, cleared) else (file ∷ files, count_item file cleared)

-- One `unlink`.
abbrev pub remove_file : RecordFile → Disk → Disk
remove_file (item_file id) d = record d { files = delete id d.files }
remove_file (active_file n) d = record d { active = unlink n d.active }
remove_file (acknowledged_file n) d = record d {
  acknowledged_names = unlink n d.acknowledged_names;
}
remove_file (quarantined_file id) d = record d { quarantined = unlink id d.quarantined }
remove_file (source_file key) d = record d { sources = delete key d.sources }
remove_file (tombstone_file t) d = record d { tombstones = unlink t d.tombstones }
remove_file key_file d = record d { identity_key = none }
remove_file verifier_file d = record d { identity_verifier = none }
remove_file indexes_file d = record d { indexes_v2 = false }
remove_file barrier_file d = record d { barrier = none }
remove_file cutoff_file d = record d { reset_cutoff = none }

unfoldable pub remove_records : List RecordFile → Disk → Disk
remove_records [] d = d
remove_records (file ∷ files) d = remove_records files (remove_file file d)

-- From the inventory on.
unfoldable pub reset_records : ℕ → QueueAct ℕ
unfolding collect remove_records
reset_records cutoff = do
  inventory ← gets (λ q. collect (all_files q.disk))
  change_disk (λ d. record d { reset_cutoff = some cutoff })
  change_disk (remove_records inventory.0)
  change_disk (λ d. record d { indexes_v2 = true })
  modify (λ q. record q { candidates = [] })
  return inventory.1

unfoldable pub clear_all_records : ℕ → ℕ → QueueAct ℕ
unfolding reset_records
clear_all_records cutoff now = do
  assert_initialized
  refuse_if (ltb now cutoff) cutoff_invalid
  barrier ← gets deletion_barrier_active
  refuse_if (not barrier) barrier_required
  previous ← gets (λ q. q.disk.reset_cutoff)
  refuse_if (is_before cutoff previous) cutoff_moves_backwards
  reset_records cutoff
