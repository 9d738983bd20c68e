-- ===== src/Queue/Disk.antt =====
-- The directory of the queue as a value: its item files, index names, source indexes and markers.
-- Input and output that fails otherwise than by a missing or an existing name is not modelled here; the
-- failures of `#write` are in Queue/State.
use text.Mathlib.Text.{is_le}
use Prim.Native.String.{compare}
use proven_loop.Shared.{
  ℕ, ◌*◌, Bool, not, ◌&&◌, ◌||◌, List, [], ◌∷◌, ◌++◌, Option, none, some, String, String_eq,
  Pair_eq, ℕ_eq, ltb, same_number, ◌==◌, if◌then◌else◌,
}
use proven_loop.Shared.Result.{Result, ok, err}
use proven_loop.Shared.Assoc.{lookup, insert, delete, touch, unlink}
use proven_loop.Queue.Data.{
  CaptureQueueState, acknowledged, CaptureQueueItem, terminal_queue_state, QueueError,
  invalid_item_id, item_not_found, corrupt_item, is_queue_item_id,
}

-- What stands in `<id>.json`: an item that the schema accepts, or anything else.
pub data FileContent : Type 0 where
  stored : CaptureQueueItem → FileContent
  malformed : FileContent

-- A name in `.active` or `.acknowledged`: sixteen digits of a time, and an id.
abbrev pub IndexName : Type 0
IndexName = ℕ × String

pub record Disk : Type 0 where
  pub files : List (String × FileContent)
  pub active : List IndexName
  pub acknowledged_names : List IndexName
  pub quarantined : List String
  pub sources : List (String × String)  -- `.source-<key>.idx`, and the id that it holds
  pub indexes_v2 : Bool  -- `.indexes-v2`
  pub barrier : Option String  -- `.deletion/active`
  pub reset_cutoff : Option ℕ  -- `.records-reset-cutoff`
  pub reset_pending : Bool  -- `isRecordsResetPending`
  pub identity_key : Option String  -- `.deletion/identity.key`
  pub identity_verifier : Option String  -- `.deletion/identity.verifier`
  pub tombstones : List (String × String)  -- the type of an identity, and its digest

-- One change of the directory. Between two of them the process may die.
pub data DiskStep : Type 0 where
  touch_active drop_active touch_acknowledged drop_acknowledged : IndexName → DiskStep
  put_file : String → FileContent → DiskStep
  drop_file : String → DiskStep
  put_source : String → String → DiskStep
  drop_source : String → DiskStep
  add_quarantined : String → DiskStep

unfoldable pub apply : DiskStep → Disk → Disk
apply (touch_active n) d = record d { active = touch n d.active }
apply (drop_active n) d = record d { active = unlink n d.active }
apply (touch_acknowledged n) d = record d { acknowledged_names = touch n d.acknowledged_names }
apply (drop_acknowledged n) d = record d { acknowledged_names = unlink n d.acknowledged_names }
apply (put_file id c) d = record d { files = insert id c d.files }
apply (drop_file id) d = record d { files = delete id d.files }
apply (put_source k id) d = record d { sources = insert k id d.sources }
apply (drop_source k) d = record d { sources = delete k d.sources }
apply (add_quarantined id) d = record d { quarantined = touch id d.quarantined }

unfoldable pub apply_all : List DiskStep → Disk → Disk
apply_all [] d = d
apply_all (s ∷ ss) d = apply_all ss (apply s d)

-- `#indexName` of an item's creation.
abbrev pub active_name : CaptureQueueItem → IndexName
active_name x = (x.created_at, x.queue_item_id)

abbrev pub touch_acknowledged_of : CaptureQueueState → String → List DiskStep
touch_acknowledged_of (acknowledged at) id = touch_acknowledged (at, id) ∷ []
touch_acknowledged_of _ id = []

abbrev pub drop_acknowledged_of : CaptureQueueState → String → List DiskStep
drop_acknowledged_of (acknowledged at) id = drop_acknowledged (at, id) ∷ []
drop_acknowledged_of _ id = []

-- `#updateStateIndex`
unfoldable pub update_state_index : CaptureQueueItem → List DiskStep
update_state_index x =
    touch_acknowledged_of x.state x.queue_item_id
    ++ (if terminal_queue_state x.state
        then drop_active (active_name x) ∷ []
        else touch_active (active_name x) ∷ [])

-- `#removeStateIndexes`
unfoldable pub remove_state_indexes : CaptureQueueItem → List DiskStep
remove_state_indexes x = drop_active (active_name x) ∷ drop_acknowledged_of x.state x.queue_item_id

-- The published part of `#write`, behind the temporary file.
unfoldable pub write_steps : CaptureQueueItem → List DiskStep
unfolding update_state_index
write_steps x =
    if terminal_queue_state x.state
    then put_file x.queue_item_id (stored x) ∷ update_state_index x
    else touch_active (active_name x) ∷ put_file x.queue_item_id (stored x) ∷ []

-- `#quarantine`: a file that is not there is passed over.
unfoldable pub quarantine : String → Disk → Disk
quarantine id d = elim (lookup id d.files) [
  | none ↦ d
  | some c ↦ apply_all (add_quarantined id ∷ drop_file id ∷ []) d
]

-- What a reader of an index does about an item that it cannot read.
unfoldable pub settle_unread : QueueError → String → Disk → Disk
unfolding quarantine
settle_unread corrupt_item id d = quarantine id d
settle_unread _ id d = d

-- Names sort by their time and then by their id.
unfoldable pub name_le : IndexName → IndexName → Bool
name_le (s, i) (t, j) = ltb s t || (same_number s t && is_le (compare i j))

unfoldable pub insert_name : IndexName → List IndexName → List IndexName
insert_name n [] = n ∷ []
insert_name n (m ∷ ms) = if name_le n m then n ∷ m ∷ ms else m ∷ insert_name n ms

unfoldable pub sort_names : List IndexName → List IndexName
unfolding insert_name
sort_names [] = []
sort_names (n ∷ ns) = insert_name n (sort_names ns)

abbrev pub size_limit : ℕ
size_limit = 2 * 1024 * 1024

-- Node's text functions that the queue calls: the length of an item's JSON line.
module _ (item_bytes : CaptureQueueItem → ℕ) where
  unfoldable pub parse_file : String → FileContent → Result QueueError CaptureQueueItem
  parse_file id malformed = err corrupt_item
  parse_file id (stored x) =
      if ltb size_limit (item_bytes x) || not (x.queue_item_id == id)
      then err corrupt_item
      else ok x

  -- `#read`
  unfoldable pub read : String → Disk → Result QueueError CaptureQueueItem
  unfolding parse_file
  read id d =
      if is_queue_item_id id
      then elim (lookup id d.files) [ none ↦ err item_not_found | some c ↦ parse_file id c ]
      else err invalid_item_id

  abbrev pub live_or_settled :
      IndexName → Result QueueError CaptureQueueItem → Disk → Option CaptureQueueItem × Disk
  live_or_settled n (ok x) d =
      if terminal_queue_state x.state
      then (none, apply_all (update_state_index x) d)
      else (some x, d)
  live_or_settled n (err e) d = (none, apply (drop_active n) (settle_unread e n.1 d))

  -- `#readIndexed(".active", name)`
  unfoldable pub read_active : IndexName → Disk → Option CaptureQueueItem × Disk
  read_active n d = live_or_settled n (read n.1 d) d

  abbrev pub acknowledged_or_drop :
      IndexName → CaptureQueueState → CaptureQueueItem → Disk → Option CaptureQueueItem × Disk
  acknowledged_or_drop n (acknowledged at) x d = (some x, d)
  acknowledged_or_drop n _ x d = (none, apply (drop_acknowledged n) d)

  abbrev pub acknowledged_or_settled :
      IndexName → Result QueueError CaptureQueueItem → Disk → Option CaptureQueueItem × Disk
  acknowledged_or_settled n (ok x) d = acknowledged_or_drop n x.state x d
  acknowledged_or_settled n (err e) d = (none, apply (drop_acknowledged n) (settle_unread e n.1 d))

  -- `#readIndexed(".acknowledged", name)`
  unfoldable pub read_acknowledged : IndexName → Disk → Option CaptureQueueItem × Disk
  read_acknowledged n d = acknowledged_or_settled n (read n.1 d) d
