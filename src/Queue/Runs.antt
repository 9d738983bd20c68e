-- ===== src/Queue/Runs.antt =====
-- Small directories, and runs of the operations of packages/platform-windows/src/capture-queue.ts.
use proven_loop.Queue.Prune.{collect}
use proven_loop.Queue.Reset.{reset_records}
use proven_loop.Queue.Data.{invalid_transition}
use proven_loop.Shared.Result.{err}
use proven_loop.Queue.Open.{
  initialize, build_indexes, iterate_items, visit, index_item, claim_source_index,
}
use proven_loop.Shared.{Option}
use proven_loop.Queue.Reset.{remove_records, clear_all_records}
use proven_loop.Queue.Barrier.{lift_barrier, end_deletion_barrier}
use proven_loop.Shared.{
  List, Pair_eq, String, String_eq, [], arith, false, none, refl, some, true, ℕ, ℕ_eq, ◌+◌, ◌∷◌,
  ◌≡◌,
}
use proven_loop.Shared.Result.{ok}
use proven_loop.Queue.Data.{
  CaptureEnvelope, CaptureQueueClaim, CaptureQueueItem, WindowsCaptureQueueOptions, acknowledged,
  claimed, is_alphanumeric, is_id_char, is_queue_item_id, matches_id, pending, retry,
}
use proven_loop.Queue.Disk.{
  Disk, IndexName, apply, apply_all, insert_name, name_le, parse_file, quarantine, read,
  read_active, sort_names, stored, update_state_index, write_steps,
}
use proven_loop.Queue.State.{WindowsCaptureQueue, assert_active_claim, retry_delay, write}
use proven_loop.Queue.Enqueue.{
  accept_new, duplicate, enqueue_absent, enqueue_after_reset, enqueue_if_source_absent,
  enqueue_unblocked, enqueued, identities_of, pending_item, predates_records_reset, release_source,
  remove_source_index_if_owned, reserve_source, settle_write, validated_of, validated_source_index,
  write_or_release,
}
use proven_loop.Queue.Claims.{
  acknowledge, claim_found, claim_next, claim_next_open, read_claimed, refill, retried_item,
  retry_after_commit, retry_claim, retry_claimed, scan, write_and_return,
}
use proven_loop.Queue.Act.{◌>>=◌, ◌>>◌}
use proven_loop.Shared.Assoc.{delete, insert, lookup, touch, unlink}
use proven_loop.Queue.Identity.{
  identities_blocked, identity_blocked, read_deletion_identity_key, read_key_of,
}
use proven_loop.Queue.Enqueue.{exists}
use proven_loop.Queue.Prune.{collects}
use proven_loop.Queue.Identity.{
  CaptureQueueIdentity, is_key, is_hex, block_identities_exclusive, deletion_identity_key,
  deletion_key_of, add_tombstones,
}
use proven_loop.Queue.Index.{Indexed}

abbrev pub bytes : CaptureQueueItem → ℕ
bytes x = 100

abbrev pub digest : String → String → String → String
digest type id key = key

abbrev pub options : WindowsCaptureQueueOptions
options = record {
  acknowledged_retention_ms = 100;
  claim_lease_ms = 30;
  max_attempts = 3;
  retry_base_delay_ms = 10;
  retry_max_delay_ms = 60;
}

abbrev pub event : String → CaptureEnvelope
event key = record {
  deduplication_key = key;
  event_id = "e";
  parent_event_id = none;
  payload = "p";
  session_id = none;
  timestamp = 1;
}

abbrev pub item : String → ℕ → CaptureQueueItem
item id now = record {
  attempt_count = 0;
  created_at = now;
  envelope = event id;
  failure_count = 0;
  queue_item_id = id;
  state = pending;
  updated_at = now;
}

abbrev pub empty : Disk
empty = record {
  files = [];
  active = [];
  acknowledged_names = [];
  quarantined = [];
  sources = [];
  indexes_v2 = true;
  barrier = none;
  reset_cutoff = none;
  reset_pending = false;
  identity_key = none;
  identity_verifier = none;
  tombstones = [];
}

abbrev pub queue : List IndexName → Disk → WindowsCaptureQueue
queue names d = record {
  options = options;
  initialized = true;
  candidates = names;
  disk = d;
  write_faults = λ x e. none;
}

abbrev pub with_one : Disk
with_one = record empty {
  files = ("a", stored (item "a" 5)) ∷ [];
  active = (5, "a") ∷ [];
  sources = ("a", "a") ∷ [];
}

abbrev pub with_two : Disk
with_two = record empty {
  files = ("a", stored (item "a" 5)) ∷ ("b", stored (item "b" 6)) ∷ [];
  active = (5, "a") ∷ (6, "b") ∷ [];
}

abbrev pub held : String → ℕ → ℕ → CaptureQueueItem
held id created now = record (item id created) {
  attempt_count = 1;
  state = claimed now (now + 30) "w";
  updated_at = now;
}

abbrev pub done : CaptureQueueItem
done = record (held "a" 5 10) { state = acknowledged 21; updated_at = 21 }

abbrev pub a_held : Disk
a_held = record with_two { files = ("a", stored (held "a" 5 10)) ∷ ("b", stored (item "b" 6)) ∷ [] }

abbrev pub both_held : Disk
both_held = record with_two {
  files = ("a", stored (held "a" 5 10)) ∷ ("b", stored (held "b" 6 11)) ∷ [];
}

abbrev pub a_done : Disk
a_done = record with_two {
  files = ("a", stored done) ∷ ("b", stored (item "b" 6)) ∷ [];
  active = (6, "b") ∷ [];
  acknowledged_names = (21, "a") ∷ [];
}

abbrev pub claim_a : CaptureQueueClaim
claim_a = record { attempt_count = 1; claim_owner_id = "w"; queue_item_id = "a" }

abbrev pub rest : List IndexName
rest = (6, "b") ∷ []

abbrev pub failed : CaptureQueueItem
failed = record (held "a" 5 10) { failure_count = 1; state = retry "broken" 31; updated_at = 21 }

abbrev pub put_off : CaptureQueueItem
put_off = record (held "a" 5 10) { state = retry "broken" 31; updated_at = 21 }

abbrev pub key : String
key = "0123456789abcdef0123456789abcdef0123456789abcdef0123456789abcdef"

pub enters_a :
    enqueue_if_source_absent bytes digest (event "a") "a" 5 (queue [] empty)
    ≡ (ok (enqueued (item "a" 5)), queue [] with_one)
unfolding is_queue_item_id matches_id is_id_char is_alphanumeric read parse_file apply apply_all
    write_steps update_state_index ◌>>◌ ◌>>=◌ lookup insert delete touch unlink
    enqueue_if_source_absent enqueue_after_reset enqueue_unblocked enqueue_absent accept_new
    predates_records_reset identities_of validated_source_index validated_of write_or_release
    settle_write release_source remove_source_index_if_owned reserve_source pending_item
    identities_blocked identity_blocked read_deletion_identity_key read_key_of write
enters_a = refl

pub enters_no_second :
    enqueue_if_source_absent bytes digest (event "a") "b" 6 (queue [] with_one)
    ≡ (ok duplicate, queue [] with_one)
unfolding is_queue_item_id matches_id is_id_char is_alphanumeric read parse_file apply apply_all
    write_steps update_state_index ◌>>◌ ◌>>=◌ lookup insert delete touch unlink
    enqueue_if_source_absent enqueue_after_reset enqueue_unblocked enqueue_absent accept_new
    predates_records_reset identities_of validated_source_index validated_of write_or_release
    settle_write release_source remove_source_index_if_owned reserve_source pending_item
    identities_blocked identity_blocked read_deletion_identity_key read_key_of write
enters_no_second = refl

pub claims_a :
    claim_next bytes "w" 10 (queue [] with_two) ≡ (ok (some (held "a" 5 10)), queue rest a_held)
unfolding is_queue_item_id matches_id is_id_char is_alphanumeric read parse_file apply apply_all
    write_steps update_state_index ◌>>◌ ◌>>=◌ lookup insert delete touch unlink claim_next
    claim_next_open scan refill claim_found sort_names insert_name name_le read_active quarantine
    write
claims_a = refl

pub claims_b :
    claim_next bytes "w" 11 (queue rest a_held) ≡ (ok (some (held "b" 6 11)), queue [] both_held)
unfolding is_queue_item_id matches_id is_id_char is_alphanumeric read parse_file apply apply_all
    write_steps update_state_index ◌>>◌ ◌>>=◌ lookup insert delete touch unlink claim_next
    claim_next_open scan refill claim_found sort_names insert_name name_le read_active quarantine
    write
claims_b = refl

pub acknowledges_a :
    acknowledge bytes claim_a 20 21 (queue rest a_held) ≡ (ok done, queue rest a_done)
unfolding is_queue_item_id matches_id is_id_char is_alphanumeric read parse_file apply apply_all
    write_steps update_state_index ◌>>◌ ◌>>=◌ lookup insert delete touch unlink read_claimed
    write_and_return acknowledge retry_claimed retried_item retry_claim retry_after_commit
    assert_active_claim write retry_delay
acknowledges_a = refl

pub read_a : read bytes "a" a_held ≡ ok (held "a" 5 10)
unfolding is_queue_item_id matches_id is_id_char is_alphanumeric read parse_file apply apply_all
    write_steps update_state_index ◌>>◌ ◌>>=◌ lookup insert delete touch unlink
read_a = refl

pub retries_a : retry_claim bytes claim_a "broken" none 20 21 (queue rest a_held) ≡ (
  ok failed,
  queue rest (record with_two { files = ("a", stored failed) ∷ ("b", stored (item "b" 6)) ∷ [] }),
)
unfolding is_queue_item_id matches_id is_id_char is_alphanumeric read parse_file apply apply_all
    write_steps update_state_index ◌>>◌ ◌>>=◌ lookup insert delete touch unlink read_claimed
    write_and_return acknowledge retry_claimed retried_item retry_claim retry_after_commit
    assert_active_claim write retry_delay
retries_a = refl

pub puts_a_off : retry_after_commit bytes claim_a "broken" 20 21 (queue rest a_held) ≡ (
  ok put_off,
  queue rest (record with_two { files = ("a", stored put_off) ∷ ("b", stored (item "b" 6)) ∷ [] }),
)
unfolding is_queue_item_id matches_id is_id_char is_alphanumeric read parse_file apply apply_all
    write_steps update_state_index ◌>>◌ ◌>>=◌ lookup insert delete touch unlink read_claimed
    write_and_return acknowledge retry_claimed retried_item retry_claim retry_after_commit
    assert_active_claim write retry_delay
puts_a_off = refl

pub valid_b : is_queue_item_id "b" ≡ true
unfolding is_queue_item_id matches_id is_id_char is_alphanumeric
valid_b = refl

pub free_b : exists "b" empty ≡ false
unfolding lookup
free_b = refl

pub pending_b : read bytes "b" a_done ≡ ok (item "b" 6)
unfolding read parse_file is_queue_item_id matches_id is_id_char is_alphanumeric lookup
pending_b = refl

pub before_a : read bytes "a" with_two ≡ ok (item "a" 5)
unfolding read parse_file is_queue_item_id matches_id is_id_char is_alphanumeric lookup
before_a = refl

pub is_key-key : is_key key ≡ true
unfolding is_key is_hex
is_key-key = refl

pub kept_b : collects (queue rest a_done) 200 (item "b" 6).state ≡ false
unfolding collects
kept_b = refl

pub empty-Indexed : Indexed bytes empty
unfolding Indexed read lookup
empty-Indexed x r l = absurd (ground (arith, r))

abbrev pub deleted : CaptureQueueIdentity
deleted = record { identifier = "a"; identity_type = "deduplication" }

abbrev pub blocking : Disk
blocking = record empty {
  identity_key = some key;
  identity_verifier = some key;
  tombstones = ("deduplication", key) ∷ [];
}

pub blocks_a : block_identities_exclusive digest key (deleted ∷ []) empty ≡ (ok tt, blocking)
unfolding block_identities_exclusive deletion_identity_key deletion_key_of add_tombstones touch
    ◌>>=◌
blocks_a = refl

abbrev pub barred : Disk
barred = record a_done { barrier = some "x" }

abbrev pub wiped : Option String → Disk
wiped barrier = record empty { barrier = barrier; reset_cutoff = some 50 }

pub clears : clear_all_records 50 60 (queue rest barred) ≡ (ok 2, queue [] (wiped (some "x")))
unfolding clear_all_records reset_records collect remove_records delete unlink ◌>>=◌ ◌>>◌
clears = refl

pub lifts : end_deletion_barrier "x" (queue [] (wiped (some "x"))) ≡ (ok tt, queue [] (wiped none))
unfolding end_deletion_barrier lift_barrier ◌>>=◌ ◌>>◌
lifts = refl

abbrev pub unindexed : Disk
unindexed = record with_one { active = []; sources = []; indexes_v2 = false }

pub opens :
    initialize bytes (record (queue [] unindexed) { initialized = false })
    ≡ (ok tt, queue [] with_one)
unfolding initialize build_indexes iterate_items visit index_item claim_source_index
    validated_source_index validated_of reserve_source read parse_file is_queue_item_id matches_id
    is_id_char is_alphanumeric apply apply_all update_state_index lookup insert touch ◌>>=◌ ◌>>◌
opens = refl

pub refuses_a :
    acknowledge bytes claim_a 22 23 (queue rest a_done)
    ≡ (err (invalid_transition (acknowledged 21)), queue rest a_done)
unfolding is_queue_item_id matches_id is_id_char is_alphanumeric read parse_file apply apply_all
    write_steps update_state_index ◌>>◌ ◌>>=◌ lookup insert delete touch unlink read_claimed
    write_and_return acknowledge retry_claimed retried_item retry_claim retry_after_commit
    assert_active_claim write retry_delay
refuses_a = refl
