-- ===== src/Queue/Data.antt =====
-- packages/contracts/src/capture-queue.ts, and the data of
-- packages/platform-windows/src/capture-queue.ts. A timestamp is its number of milliseconds, as
-- `Date.parse` gives it; identifiers are taken as the schema leaves them, trimmed.
use proven_loop.Shared.{char_codes}
use proven_loop.Shared.{
  ℕ, Bool, true, false, ◌&&◌, ◌||◌, List, [], ◌∷◌, Option, String, leb, same_number, length, all,
}

-- The fields of a capture envelope that the queue reads; the rest is in `payload`.
pub record CaptureEnvelope : Type 0 where
  pub deduplication_key : String
  pub event_id : String
  pub parent_event_id : Option String
  pub payload : String
  pub session_id : Option String
  pub timestamp : ℕ

-- The discriminated union of the five item schemas, without the fields that all of them have.
pub data CaptureQueueState : Type 0 where
  pending : CaptureQueueState
  claimed : (claimed_at claim_expires_at : ℕ) (claim_owner_id : String) → CaptureQueueState
  acknowledged : (acknowledged_at : ℕ) → CaptureQueueState
  retry : (last_error : String) (next_attempt_at : ℕ) → CaptureQueueState
  dead_letter : (last_error : String) → CaptureQueueState

pub record CaptureQueueItem : Type 0 where
  pub attempt_count : ℕ
  pub created_at : ℕ
  pub envelope : CaptureEnvelope
  pub failure_count : ℕ
  pub queue_item_id : String
  pub state : CaptureQueueState
  pub updated_at : ℕ

-- `terminalQueueState` of packages/host/src/capture-worker.ts, and the test that `#write`,
-- `#updateStateIndex` and `#readIndexed` make.
abbrev pub terminal_queue_state : CaptureQueueState → Bool
terminal_queue_state (acknowledged at) = true
terminal_queue_state (dead_letter error) = true
terminal_queue_state _ = false

pub data QueueError : Type 0 where
  not_initialized invalid_item_id duplicate_item_id item_not_found corrupt_item : QueueError
  stale_claim deletion_in_progress conflicting_deletion deleted_source : QueueError
  identity_key_missing identity_key_malformed identity_verifier_missing : QueueError
  identity_key_mismatch : QueueError
  item_too_large write_failed file_missing : QueueError
  cutoff_invalid cutoff_moves_backwards barrier_required : QueueError
  quarantine_unreviewed before_delete_failed : QueueError
  invalid_transition : CaptureQueueState → QueueError

pub record CaptureQueueClaim : Type 0 where
  pub attempt_count : ℕ
  pub claim_owner_id : String
  pub queue_item_id : String

pub record WindowsCaptureQueueOptions : Type 0 where
  pub acknowledged_retention_ms : ℕ
  pub claim_lease_ms : ℕ
  pub max_attempts : ℕ
  pub retry_base_delay_ms : ℕ
  pub retry_max_delay_ms : ℕ

unfoldable pub is_alphanumeric : ℕ → Bool
is_alphanumeric c =
    (leb b'0' c && leb c b'9') || (leb b'A' c && leb c b'Z') || (leb b'a' c && leb c b'z')

unfoldable pub is_id_char : ℕ → Bool
unfolding is_alphanumeric
is_id_char c = is_alphanumeric c || same_number c b'_' || same_number c b'-'

unfoldable pub matches_id : List ℕ → Bool
unfolding is_id_char
matches_id [] = false
matches_id (c ∷ cs) = is_alphanumeric c && leb (length cs) 127 && all is_id_char cs

-- `queueItemIdPattern.test`
unfoldable pub is_queue_item_id : String → Bool
unfolding matches_id
is_queue_item_id s = matches_id (char_codes s)
