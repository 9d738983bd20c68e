-- ===== src/Queue/Tests.antt =====
-- The properties of the queue at the runs on small directories.
use proven_loop.Queue.Act.{◌>>◌}
use proven_loop.Queue.Identity.{CaptureQueueIdentity}
use proven_loop.Queue.Data.{write_failed, is_queue_item_id, matches_id, is_id_char, is_alphanumeric}
use proven_loop.Queue.Disk.{Disk, apply, parse_file, update_state_index}
use proven_loop.Shared.Assoc.{lookup, insert, delete, touch, unlink}
use proven_loop.Queue.State.{assert_active_claim, write}
use proven_loop.Queue.Claims.{read_claimed, write_and_return}
use proven_loop.Queue.Endings.{failed_end-keeps}
use proven_loop.Shared.{inl}
use proven_loop.Queue.Indexes.{initialize-indexes}
use proven_loop.Queue.Runs.{unindexed, opens}
use proven_loop.Queue.Reset.Removed.{emptied}
use proven_loop.Queue.Cleared.{clear_all_records-empties, clear_all_records-stays}
use proven_loop.Queue.Enqueue.{enqueue}
use proven_loop.Queue.Runs.{barred, wiped, clears, lifts}
use proven_loop.Shared.{length}
use proven_loop.Queue.Data.{item_not_found, deleted_source}
use proven_loop.Shared.{
  Pair_eq, String_eq, [], arith, false, none, refl, some, true, ℕ_eq, ◌+◌, ◌∷◌, ◌≡◌,
}
use proven_loop.Shared.Result.{err, ok}
use proven_loop.Queue.Data.{acknowledged, claimed, dead_letter, retry}
use proven_loop.Queue.Disk.{apply_all, read, stored, write_steps}
use proven_loop.Queue.State.{retry_delay}
use proven_loop.Queue.Enqueue.{
  EnqueueCaptureIfAbsentResult, accept_new, duplicate, enqueue_absent, enqueue_after_reset,
  enqueue_unblocked, enqueued, identities_of, pending_item, predates_records_reset, release_source,
  remove_source_index_if_owned, reserve_source, settle_write, validated_of, validated_source_index,
  write_or_release,
}
use proven_loop.Queue.Claims.{
  acknowledge, claim_found, claim_next, claim_next_open, refill, retried_item, retry_after_commit,
  retry_claim, retry_claimed, scan,
}
use proven_loop.Queue.Act.{◌>>=◌}
use proven_loop.Queue.Identity.{identity_blocked}
use proven_loop.Shared.{◌≢◌, ◌≤◌, ◌↔◌, take, All}
use proven_loop.Queue.Data.{stale_claim, invalid_transition, identity_key_missing}
use proven_loop.Queue.Enqueue.{exists}
use proven_loop.Queue.Enqueue
use proven_loop.Queue.Claims
use proven_loop.Queue.Prune.{prune_acknowledged}
use proven_loop.Queue.Identity.{block_identities_exclusive}
use proven_loop.Queue.Calls.{QueueCall, call_all}
use proven_loop.Queue.Index.{Indexed}
use proven_loop.Queue.Crash.{write-crash-Indexed}
use proven_loop.Queue.Opening.{call_all-Indexed}
use proven_loop.Queue.Sources.{enqueue_if_source_absent-once}
use proven_loop.Queue.Claimed.{
  claim_next-exclusive, claim_next-durable, claim_next-due, claim_next-acknowledge,
  claim_next-expired,
}
use proven_loop.Queue.Endings.{IsKept, AllRefused, acknowledge-once}
use proven_loop.Queue.Retries.{retry_claim-outcome, retry_after_commit-outcome, retry_delay-bounds}
use proven_loop.Queue.State.{WindowsCaptureQueue}
use proven_loop.Queue.Deleted.{
  block_identities_exclusive-blocks, block_identities_exclusive-lost_key,
}
use proven_loop.Queue.Retention.{prune_acknowledged-keeps}
use proven_loop.Queue.Runs.{
  bytes, digest, options, event, item, empty, queue, with_one, with_two, held, done, a_held,
  both_held, a_done, claim_a, rest, failed, put_off, key, deleted, blocking, enters_a,
  enters_no_second, claims_a, claims_b, acknowledges_a, read_a, retries_a, puts_a_off, valid_b,
  pending_b, before_a, is_key-key, kept_b, empty-Indexed, blocks_a,
}

call_all-Indexed_example :
    Indexed bytes
      (call_all bytes digest
        (QueueCall.enqueue (event "a") "a" 5
          ∷ QueueCall.claim_next "w" 10
          ∷ QueueCall.acknowledge claim_a 20 21
          ∷ [])
        (queue [] empty)).disk
call_all-Indexed_example =
    call_all-Indexed bytes digest
      (QueueCall.enqueue (event "a") "a" 5
        ∷ QueueCall.claim_next "w" 10
        ∷ QueueCall.acknowledge claim_a 20 21
        ∷ [])
      (queue [] empty) empty-Indexed

write-crash-Indexed_example : Indexed bytes (apply_all (take 1 (write_steps (item "a" 5))) empty)
write-crash-Indexed_example = write-crash-Indexed bytes 1 (item "a" 5) empty empty-Indexed

enqueue_if_source_absent-once_example : duplicate ≡ duplicate
enqueue_if_source_absent-once_example =
    enqueue_if_source_absent-once bytes digest (event "a") (event "a") "a" "b" 5 6 (item "a" 5)
      (queue [] empty) (queue [] with_one) (queue [] with_one) duplicate enters_a refl
      enters_no_second

claim_next-exclusive_example : (held "b" 6 11).queue_item_id ≢ (held "a" 5 10).queue_item_id
claim_next-exclusive_example =
    claim_next-exclusive bytes "w" "w" 10 11 (queue [] with_two) (queue rest a_held)
      (queue [] both_held) (held "a" 5 10) (held "b" 6 11) claims_a claims_b

claim_next-durable_example :
    (read bytes "a" a_held ≡ ok (held "a" 5 10)) × (claimed 10 40 "w" ≡ claimed 10 40 "w")
claim_next-durable_example =
    claim_next-durable bytes "w" 10 (queue [] with_two) (queue rest a_held) (held "a" 5 10) claims_a

claim_next-due_example : (true ≡ true) × (held "a" 5 10 ≡ held "a" 5 10)
claim_next-due_example =
    claim_next-due bytes "w" 10 (queue [] with_two) (queue rest a_held) (held "a" 5 10) (item "a" 5)
      claims_a before_a

claim_next-acknowledge_example : (acknowledge bytes claim_a 20 21 (queue rest a_held)).0 ≡ ok done
claim_next-acknowledge_example =
    claim_next-acknowledge bytes "w" 10 20 21 (queue [] with_two) (queue rest a_held)
      (held "a" 5 10) claims_a (omega arith) refl refl

claim_next-expired_example :
    AllRefused bytes claim_a "broken" none 40 41 stale_claim (queue rest a_held)
claim_next-expired_example =
    claim_next-expired bytes "w" "broken" none 10 40 41 (queue [] with_two) (queue rest a_held)
      (held "a" 5 10) claims_a (omega arith)

acknowledge-once_example :
    AllRefused bytes claim_a "broken" none 22 23
      (invalid_transition (acknowledged 21))
      (queue rest a_done)
acknowledge-once_example =
    acknowledge-once bytes claim_a claim_a "broken" none 20 21 22 23 (queue rest a_held)
      (queue rest a_done) done acknowledges_a refl

retry_claim-outcome_example :
    (read bytes "a"
        (record with_two { files = ("a", stored failed) ∷ ("b", stored (item "b" 6)) ∷ [] })
      ≡ ok failed)
    × (failed.failure_count ≡ 1)
    × ((failed.state ≡ dead_letter "broken") ↔ (3 ≤ 1))
retry_claim-outcome_example =
    retry_claim-outcome bytes claim_a "broken" none 20 21 (queue rest a_held)
      (queue rest
        (record with_two { files = ("a", stored failed) ∷ ("b", stored (item "b" 6)) ∷ [] }))
      (held "a" 5 10) failed retries_a read_a

retry_after_commit-outcome_example :
    (read bytes "a"
        (record with_two { files = ("a", stored put_off) ∷ ("b", stored (item "b" 6)) ∷ [] })
      ≡ ok put_off)
    × (put_off.failure_count ≡ 0)
    × (put_off.state ≡ retry "broken" (21 + retry_delay options 0))
retry_after_commit-outcome_example =
    retry_after_commit-outcome bytes claim_a "broken" 20 21 (queue rest a_held)
      (queue rest
        (record with_two { files = ("a", stored put_off) ∷ ("b", stored (item "b" 6)) ∷ [] }))
      (held "a" 5 10) put_off puts_a_off read_a

retry_delay-bounds_example :
    (retry_delay options 3 ≤ 60)
    × (retry_delay options 3 ≤ retry_delay options 4)
    × (retry_delay options 1 ≡ 10)
retry_delay-bounds_example = retry_delay-bounds options 3

abbrev locked : WindowsCaptureQueue
locked = queue [] (record empty { barrier = some "x" })

block_identities_exclusive-blocks_example :
    All (λ i. identity_blocked digest i blocking ≡ (ok true, blocking)) (deleted ∷ [])
block_identities_exclusive-blocks_example =
    block_identities_exclusive-blocks digest key (deleted ∷ []) empty blocking tt is_key-key
      blocks_a

abbrev deleted_event : CaptureQueueIdentity
deleted_event = record { identifier = "e"; identity_type = "event" }

block_identities_exclusive-lost_key_example :
    (identity_blocked digest deleted (record empty { tombstones = ("deduplication", "old") ∷ [] })
      ≡ (err identity_key_missing, record empty { tombstones = ("deduplication", "old") ∷ [] }))
    × (((block_identities_exclusive digest key (deleted_event ∷ []) >>= λ _.
            identity_blocked digest deleted)
          (record empty { tombstones = ("deduplication", "old") ∷ [] })).0
        ≡ ok false)
block_identities_exclusive-lost_key_example =
    block_identities_exclusive-lost_key digest key "old" (deleted_event ∷ []) deleted
      (record empty { tombstones = ("deduplication", "old") ∷ [] }) refl refl is_key-key refl refl

prune_acknowledged-keeps_example :
    read bytes "b" (prune_acknowledged bytes 200 (queue rest a_done)).1.disk ≡ ok (item "b" 6)
prune_acknowledged-keeps_example =
    prune_acknowledged-keeps bytes 200 "b" (item "b" 6) (queue rest a_done) pending_b kept_b

clear_all_records-empties_example :
    (2 ≡ length barred.files)
    × (wiped (some "x") ≡ emptied (record barred { reset_cutoff = some 50 }))
    × (read bytes "b" (wiped (some "x")) ≡ err item_not_found)
clear_all_records-empties_example =
    clear_all_records-empties bytes digest 50 60 2 "b" (queue rest barred)
      (queue [] (wiped (some "x"))) clears valid_b

clear_all_records-stays_example :
    enqueue bytes digest (event "b") "b" 70 (queue [] (wiped none))
    ≡ (err deleted_source, queue [] (wiped none))
clear_all_records-stays_example =
    clear_all_records-stays bytes digest 50 60 70 2 "x" "b" (event "b") (queue rest barred)
      (queue [] (wiped (some "x"))) (queue [] (wiped none)) tt clears lifts refl refl valid_b
      (omega arith)

initialize-indexes_example : Indexed bytes with_one
initialize-indexes_example =
    initialize-indexes bytes (record (queue [] unindexed) { initialized = false })
      (queue [] with_one) tt refl opens

-- The item is published as acknowledged, but a file operation fails before its indexes follow.
abbrev faulty : Disk → WindowsCaptureQueue
faulty d = record (queue rest d) { write_faults = λ x e. some 1 }

abbrev a_published : Disk
a_published = record a_held { files = ("a", stored done) ∷ ("b", stored (item "b" 6)) ∷ [] }

fails_published :
    acknowledge bytes claim_a 20 21 (faulty a_held) ≡ (err write_failed, faulty a_published)
unfolding is_queue_item_id matches_id is_id_char is_alphanumeric read parse_file apply apply_all
    write_steps update_state_index ◌>>◌ ◌>>=◌ lookup insert delete touch unlink read_claimed
    write_and_return acknowledge assert_active_claim write
fails_published = refl

failed_end-keeps_example :
    IsKept bytes claim_a.queue_item_id write_failed (faulty a_held) (faulty a_published)
failed_end-keeps_example =
    failed_end-keeps bytes claim_a "broken" none 20 21 (faulty a_held) (faulty a_published)
      write_failed (inl fails_published)
