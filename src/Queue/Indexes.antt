-- ===== src/Queue/Indexes.antt =====
-- `initialize` builds the active index of a directory that has none.
use proven_loop.Queue.Covered.{
  Covered, same-Covered, quarantine-Covered, unread-Covered, indexed-Covered,
}
use proven_loop.Queue.Act.{modify}
use proven_loop.Queue.State.{with_disk}
use proven_loop.Shared.{subst}
use proven_loop.Shared.{◌≢◌}
use proven_loop.Shared.{arith}
use proven_loop.Shared.Assoc.{lookup}
use proven_loop.Shared.{ℕ}
use proven_loop.Shared.{
  ℕ, ◌≡◌, refl, sym, ap, true, List, [], ◌∷◌, Option, none, some, String, String_eq, Pair_eq, ℕ_eq,
  if_cases,
}
use proven_loop.Shared.Result.{Result, ok, err}
use proven_loop.Queue.Data.{CaptureQueueItem, QueueError, corrupt_item}
use proven_loop.Queue.Disk.{Disk, read}
use proven_loop.Queue.Index.{Indexed}
use proven_loop.Shared.Action.Keeps.{Keeps, bind-Keeps, reads-Keeps, keeps, runs}
use proven_loop.Queue.Act.{◌>>=◌, ◌>>◌}
use proven_loop.Queue.State.{WindowsCaptureQueue}
use proven_loop.Queue.Data.{item_not_found, invalid_item_id}
use proven_loop.Queue.Open.{
  own_source, claim_source_index, visit, iterate_items, index_item, file_names, build_indexes,
  initialize,
}
use proven_loop.Queue.Data.{is_queue_item_id}
use proven_loop.Shared.{
  ℕ, true, false, Option, none, some, String, String_eq, Pair_eq, ℕ_eq, if_cases, ◌==◌,
}
use proven_loop.Queue.Data.{CaptureQueueItem, QueueError, corrupt_item}
use proven_loop.Queue.Disk.{Disk, drop_source, apply, read}
use proven_loop.Queue.Index.{Indexed}
use proven_loop.Shared.Action.Keeps.{Keeps, bind-Keeps, reads-Keeps, keeps, runs}
use proven_loop.Queue.State.{WindowsCaptureQueue}
use proven_loop.Queue.Data.{item_not_found}
use proven_loop.Queue.Enqueue.{reserve_source, source_of, validated_of, validated_source_index}
use proven_loop.Shared.{
  ℕ, ◌≡◌, ap, true, false, String, String_eq, Pair_eq, ℕ_eq, contains, ◌==◌, arith,
}
use proven_loop.Shared.Result.{ok}
use proven_loop.Queue.Data.{CaptureQueueItem}
use proven_loop.Queue.Disk.{FileContent, Disk, drop_source, apply, read}
use proven_loop.Shared.Action.Outcomes.{bind-ok}
use proven_loop.Shared.{map}

module _ (item_bytes : CaptureQueueItem → ℕ) where
  source_dropped-Covered :
      (ids : List String) (key : String) (d : Disk)
      → Covered item_bytes ids d
      → Covered item_bytes ids (apply (drop_source key) d)
  unfolding apply
  source_dropped-Covered ids key d i = same-Covered item_bytes ids d _ refl refl i

  validated_of-Covered :
      (ids : List String) (key id : String) (r : Result QueueError CaptureQueueItem)
      → Keeps (Covered item_bytes ids) (validated_of item_bytes key id r)
  unfolding validated_of
  validated_of-Covered ids key id (ok x) = keeps (Covered item_bytes ids) _ λ d i.
      if_cases (λ (p : Result QueueError (Option String) × Disk). Covered item_bytes ids p.1)
        (x.envelope.deduplication_key == key) (λ t. i) (λ f. source_dropped-Covered ids key d i)
  validated_of-Covered ids key id (err corrupt_item) =
      keeps (Covered item_bytes ids) _
        λ d i. source_dropped-Covered ids key _ (quarantine-Covered item_bytes ids id d i)
  validated_of-Covered ids key id (err item_not_found) =
      keeps (Covered item_bytes ids) _ (source_dropped-Covered ids key)
  validated_of-Covered ids key id (err _) = reads-Keeps (Covered item_bytes ids) _

  source-Covered :
      (ids : List String) (key : String) (o : Option String)
      → Keeps (Covered item_bytes ids) (source_of item_bytes key o)
  source-Covered ids key none = reads-Keeps (Covered item_bytes ids) _
  source-Covered ids key (some id) = keeps (Covered item_bytes ids) _ λ d i.
      if_cases (λ (p : Result QueueError (Option String) × Disk). Covered item_bytes ids p.1)
        (is_queue_item_id id)
        (λ t.
          runs (Covered item_bytes ids) _ (validated_of-Covered ids key id (read item_bytes id d)) d
            i)
        (λ f. source_dropped-Covered ids key d i)

  own_source-Covered :
      (ids : List String) (existing : Option String) (key id : String)
      → Keeps (Covered item_bytes ids) (own_source existing key id)
  unfolding reserve_source apply
  own_source-Covered ids none key id =
      keeps (Covered item_bytes ids) _ λ d i. same-Covered item_bytes ids d _ refl refl i
  own_source-Covered ids (some owner) key id = reads-Keeps (Covered item_bytes ids) _

  claim_source_index-Covered :
      (ids : List String) (key id : String)
      → Keeps (Covered item_bytes ids) (claim_source_index item_bytes key id)
  unfolding claim_source_index validated_source_index
  claim_source_index-Covered ids key id =
      bind-Keeps (Covered item_bytes ids) _ _
        (keeps (Covered item_bytes ids) _
          λ d. runs (Covered item_bytes ids) _ (source-Covered ids key (lookup key d.sources)) d)
        (λ existing. own_source-Covered ids existing key id)

  -- One visit takes the id off the list.
  visit-Covered :
      (ids : List String) (id : String) (r : Result QueueError CaptureQueueItem) (d : Disk)
      → read item_bytes id d ≡ r
      → Covered item_bytes (id ∷ ids) d
      → Covered item_bytes ids (visit item_bytes id r (index_item item_bytes) d).1
  unfolding visit index_item ◌>>◌ ◌>>=◌
  visit-Covered ids id (ok x) d u h =
      runs (Covered item_bytes ids) _
        (claim_source_index-Covered ids x.envelope.deduplication_key x.queue_item_id) _
        (indexed-Covered item_bytes ids id x d u h)
  visit-Covered ids id (err item_not_found) d u h =
      unread-Covered item_bytes ids id d item_not_found u h
  visit-Covered ids id (err corrupt_item) d u h =
      quarantine-Covered item_bytes ids id d (unread-Covered item_bytes ids id d corrupt_item u h)
  visit-Covered ids id (err invalid_item_id) d u h =
      quarantine-Covered item_bytes ids id d
        (unread-Covered item_bytes ids id d invalid_item_id u h)
  visit-Covered ids id (err e) d u h = unread-Covered item_bytes ids id d e u h

  iterate_items-Covered :
      (ids : List String) (d d' : Disk) (u : Unit {0})
      → Covered item_bytes ids d
      → iterate_items item_bytes ids (index_item item_bytes) d ≡ (ok u, d')
      → Covered item_bytes [] d'
  unfolding iterate_items ◌>>◌
  iterate_items-Covered [] d d' u h e =
      subst (λ (p : Result QueueError (Unit {0}) × Disk). Covered item_bytes [] p.1) e h
  iterate_items-Covered (id ∷ ids) d d' u h e =
      let (u1, d1, a, b) =
        bind-ok (λ d0. visit item_bytes id (read item_bytes id d0) (index_item item_bytes) d0) _ d u
          d' e in
      let there = visit-Covered ids id (read item_bytes id d) d refl h in
      iterate_items-Covered ids d1 d' u
        (subst (λ (p : Result QueueError (Unit {0}) × Disk). Covered item_bytes ids p.1) a there) b

  named :
      (id : String) (files : List (String × FileContent))
      → lookup id files ≢ none
      → contains id (map (λ p. p.0) files) ≡ true
  unfolding lookup
  named id [] h = absurd (h refl)
  named id ((name, c) ∷ files) h = ground (arith, h, named id files)

  all-Covered : (d : Disk) → Covered item_bytes (file_names item_bytes d) d
  unfolding Covered read
  all-Covered d x r l =
      let c = named x.queue_item_id d.files (λ e. absurd (ground (arith, r, e))) in
      ground (arith, c)

  with_disk-inv :
      (q q' : WindowsCaptureQueue) (p : Result QueueError (Unit {0}) × Disk) (u : Unit {0})
      → with_disk q p ≡ (ok u, q')
      → (p.0 ≡ ok u) × (p.1 ≡ q'.disk)
  with_disk-inv q q' (r, d) u h = (cc, ap (λ x. x.1.disk) h)

  marked-Indexed :
      (d d' : Disk)
      → Covered item_bytes [] d
      → d' ≡ record d { indexes_v2 = true }
      → Indexed item_bytes d'
  unfolding Covered Indexed read
  marked-Indexed d d' h e x r l = ground (arith, e, h x, r, l)

  build_indexes-Indexed :
      (d d' : Disk) (u : Unit {0}) (p : Result QueueError (Unit {0}) × Disk)
      → build_indexes item_bytes d ≡ p
      → p.0 ≡ ok u
      → p.1 ≡ d'
      → Indexed item_bytes d'
  unfolding build_indexes ◌>>◌
  build_indexes-Indexed d d' u (r, d1) b e left =
      let (u1, d2, a, c) =
        bind-ok (iterate_items item_bytes (file_names item_bytes d) (index_item item_bytes))
          (λ _. modify (λ d3. record d3 { indexes_v2 = true })) d u d' (cc) in
      marked-Indexed d2 d'
        (iterate_items-Covered (file_names item_bytes d) d d2 u1 (all-Covered d) a)
        (sym (ap (λ x. x.1) c))

  -- A queue that is opened on a directory without its index marker has, once opened, every item that
  -- can be read and is not finished in the active index, whatever the directory's indexes held.
  pub initialize-indexes :
      (q q' : WindowsCaptureQueue) (u : Unit {0})
      → q.disk.indexes_v2 ≡ false
      → initialize item_bytes q ≡ (ok u, q')
      → Indexed item_bytes q'.disk
  unfolding initialize
  initialize-indexes q q' u f h =
      let (e, left) =
        with_disk-inv (record q { initialized = true }) q' _ u (ground (arith, h, f)) in
      build_indexes-Indexed q.disk q'.disk u (build_indexes item_bytes q.disk) refl e left
