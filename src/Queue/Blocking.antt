-- ===== src/Queue/Blocking.antt =====
-- Reading and writing the identities of deleted sources keeps what does not depend on their files,
-- the active index among it.
use proven_loop.Shared.{
  ℕ, not, List, [], ◌∷◌, Option, none, some, String, String_eq, Pair_eq, ℕ_eq, if_cases, ◌==◌,
}
use proven_loop.Shared.Result.{Result}
use proven_loop.Queue.Data.{CaptureQueueItem, QueueError}
use proven_loop.Queue.Disk.{Disk, read}
use proven_loop.Queue.Index.{Indexed}
use proven_loop.Shared.Action.Keeps.{
  Keeps, bind-Keeps, then-Keeps, refuse_if-Keeps, choice-Keeps, reads-Keeps, keeps, runs,
}
use proven_loop.Queue.Act.{Act}
use proven_loop.Queue.State.{WindowsCaptureQueue, on_disk, assert_initialized}
use proven_loop.Queue.Indexing.{Good}
use proven_loop.Queue.Identity.{
  CaptureQueueIdentity, check_verifier, read_key_of, read_deletion_identity_key, has_tombstones,
  verifier_of, identity_blocked, identities_blocked, ensure_verifier, deletion_key_of,
  deletion_identity_key, add_tombstones, block_identities_exclusive, is_key,
}
use proven_loop.Queue.Barrier.{block_identities}

module _ (P : Disk → Type 0)
    (blind : (d : Disk) (key verifier : Option String) (tombstones : List (String × String))
      → P d
      → P (record d {
        identity_key = key;
        identity_verifier = verifier;
        tombstones = tombstones;
      })) where
  module _ (digest : String → String → String → String) where
    check_verifier-Keeps :
        (key : String) (v : Option String) → Keeps P (check_verifier digest key v)
    unfolding check_verifier
    check_verifier-Keeps key none = keeps P _ λ d i.
        if_cases (λ (p : Result QueueError (Option String) × Disk). P p.1) (has_tombstones d)
          (λ t. i) (λ f. blind d _ _ _ i)
    check_verifier-Keeps key (some v) = keeps P _ λ d i.
        if_cases (λ (p : Result QueueError (Option String) × Disk). P p.1)
          (v == verifier_of digest key) (λ t. i) (λ f. i)

    read_key_of-Keeps : (key : Option String) → Keeps P (read_key_of digest key)
    unfolding read_key_of
    read_key_of-Keeps none = keeps P _ λ d i.
        if_cases (λ (p : Result QueueError (Option String) × Disk). P p.1) (has_tombstones d)
          (λ t. i) (λ f. i)
    read_key_of-Keeps (some key) = keeps P _ λ d i.
        if_cases (λ (p : Result QueueError (Option String) × Disk). P p.1) (is_key key)
          (λ t. runs P _ (check_verifier-Keeps key d.identity_verifier) d i) (λ f. i)

    read_deletion_identity_key-Keeps : Keeps P (read_deletion_identity_key digest)
    unfolding read_deletion_identity_key
    read_deletion_identity_key-Keeps = keeps P _ λ d. runs P _ (read_key_of-Keeps d.identity_key) d

    identity_blocked-Keeps : (i : CaptureQueueIdentity) → Keeps P (identity_blocked digest i)
    unfolding identity_blocked
    identity_blocked-Keeps i =
        bind-Keeps P _ _ read_deletion_identity_key-Keeps (λ key. reads-Keeps P _)

    pub identities_blocked-Keeps :
        (is : List CaptureQueueIdentity) → Keeps P (identities_blocked digest is)
    unfolding identities_blocked
    identities_blocked-Keeps [] = reads-Keeps P _
    identities_blocked-Keeps (i ∷ is) =
        bind-Keeps P _ _ (identity_blocked-Keeps i)
          λ blocked. choice-Keeps P blocked _ _ (reads-Keeps P _) (identities_blocked-Keeps is)

    ensure_verifier-Keeps : (key : String) → Keeps P (ensure_verifier digest key)
    unfolding ensure_verifier
    ensure_verifier-Keeps key = keeps P _ λ d i.
        if_cases (λ (p : Result QueueError String × Disk). P p.1) (has_tombstones d)
          (λ t.
            runs P _ (bind-Keeps P _ _ read_deletion_identity_key-Keeps λ _. reads-Keeps P _) d i)
          (λ f. blind d _ _ _ i)

    deletion_key_of-Keeps :
        (generated : String) (key : Option String) → Keeps P (deletion_key_of digest generated key)
    unfolding deletion_key_of
    deletion_key_of-Keeps generated none = keeps P _ λ d i. blind d _ _ _ i
    deletion_key_of-Keeps generated (some key) = keeps P _ λ d i.
        if_cases (λ (p : Result QueueError String × Disk). P p.1) (is_key key)
          (λ t. runs P _ (ensure_verifier-Keeps key) d i) (λ f. i)

    add_tombstones-Keeps :
        (key : String) (is : List CaptureQueueIdentity) (d : Disk)
        → P d
        → P (add_tombstones digest key is d)
    unfolding add_tombstones
    add_tombstones-Keeps key [] d h = h
    add_tombstones-Keeps key (i ∷ is) d h = add_tombstones-Keeps key is _ (blind d _ _ _ h)

    pub block_identities_exclusive-Keeps :
        (generated : String) (is : List CaptureQueueIdentity)
        → Keeps P (block_identities_exclusive digest generated is)
    unfolding block_identities_exclusive deletion_identity_key
    block_identities_exclusive-Keeps generated is =
        bind-Keeps P _ _
          (keeps P _ λ d. runs P _ (deletion_key_of-Keeps generated d.identity_key) d)
          λ key. keeps P _ (add_tombstones-Keeps key is)

module _ (item_bytes : CaptureQueueItem → ℕ) where
  abbrev AtRest : Disk → Type 0
  AtRest d = Indexed item_bytes d

  abbrev InOrder : WindowsCaptureQueue → Type 0
  InOrder q = Good item_bytes q

  pub on_disk-Indexed : {A : Type 0} (m : Act Disk A) → Keeps AtRest m → Keeps InOrder (on_disk m)
  on_disk-Indexed m h = keeps InOrder _ λ q i. runs AtRest m h q.disk i

  pub assert-Indexed : Keeps InOrder assert_initialized
  assert-Indexed =
      keeps InOrder _ λ q i. runs InOrder _ (refuse_if-Keeps InOrder (not q.initialized) _) q i

  -- The identities' files are no item files and no indexes.
  blind-Indexed :
      (d : Disk) (key verifier : Option String) (tombstones : List (String × String))
      → AtRest d
      → AtRest
          (record d { identity_key = key; identity_verifier = verifier; tombstones = tombstones })
  unfolding Indexed read
  blind-Indexed d key verifier tombstones i = i

  module _ (digest : String → String → String → String) where
    pub identities_blocked-Indexed :
        (is : List CaptureQueueIdentity) → Keeps AtRest (identities_blocked digest is)
    identities_blocked-Indexed is = identities_blocked-Keeps AtRest blind-Indexed digest is

    pub block_identities-Indexed :
        (generated : String) (is : List CaptureQueueIdentity)
        → Keeps InOrder (block_identities digest generated is)
    unfolding block_identities
    block_identities-Indexed generated is = then-Keeps InOrder _ _ assert-Indexed (
        on_disk-Indexed _
          (block_identities_exclusive-Keeps AtRest blind-Indexed digest generated is))
