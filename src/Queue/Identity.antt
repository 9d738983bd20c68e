-- ===== src/Queue/Identity.antt =====
-- The tombstones of deleted identities: `#identitiesBlocked` and `#blockIdentitiesExclusive` with
-- the key that their digests use. The digest and the random key are arguments.
use proven_loop.Shared.{char_codes}
use proven_loop.Shared.{
  ℕ, Bool, true, false, ◌&&◌, ◌||◌, List, [], ◌∷◌, Option, none, some, String, String_eq, Pair_eq,
  leb, same_number, length, all, contains, ◌==◌, if◌then◌else◌,
}
use proven_loop.Shared.Result.{ok, err}
use proven_loop.Shared.Assoc.{touch}
use proven_loop.Queue.Data.{
  identity_key_missing, identity_key_malformed, identity_verifier_missing, identity_key_mismatch,
}
use proven_loop.Queue.Disk.{Disk}
use proven_loop.Queue.Act.{Act, ◌>>=◌, return, modify, gets}

-- `CaptureQueueIdentity`, its type by the word that stands in the tombstone's name.
pub record CaptureQueueIdentity : Type 0 where
  pub identifier : String
  pub identity_type : String

unfoldable pub is_hex : ℕ → Bool
is_hex c = (leb b'a' c && leb c b'f') || (leb b'0' c && leb c b'9')

-- `/^[a-f0-9]{64}$/`
unfoldable pub is_key : String → Bool
unfolding is_hex
is_key s = same_number (length (char_codes s)) 64 && all is_hex (char_codes s)

-- `#hasDeletionTombstones`
abbrev pub has_tombstones : Disk → Bool
has_tombstones d = elim d.tombstones [ [] ↦ false | _ ∷ _ ↦ true ]

module _ (digest : String → String → String → String) where
  abbrev pub verifier_of : String → String
  verifier_of key = digest "key" "provenloop-queue-tombstone-key" key

  -- `#writeDeletionKeyVerifier`
  abbrev pub write_verifier : String → Act Disk (Unit {0})
  write_verifier key = modify (λ d. record d { identity_verifier = some (verifier_of key) })

  unfoldable pub check_verifier : String → Option String → Act Disk (Option String)
  check_verifier key none d =
      if has_tombstones d
      then (err identity_verifier_missing, d)
      else (ok (some key), record d { identity_verifier = some (verifier_of key) })
  check_verifier key (some verifier) d =
      if verifier == verifier_of key then (ok (some key), d) else (err identity_key_mismatch, d)

  unfoldable pub read_key_of : Option String → Act Disk (Option String)
  unfolding check_verifier
  read_key_of none d = if has_tombstones d then (err identity_key_missing, d) else (ok none, d)
  read_key_of (some key) d =
      if is_key key
      then check_verifier key d.identity_verifier d
      else (err identity_key_malformed, d)

  -- `#readDeletionIdentityKey`
  unfoldable pub read_deletion_identity_key : Act Disk (Option String)
  unfolding read_key_of
  read_deletion_identity_key d = read_key_of d.identity_key d

  abbrev pub tombstone : CaptureQueueIdentity → String → String × String
  tombstone i key = (i.identity_type, digest i.identity_type i.identifier key)

  abbrev pub has_tombstone : CaptureQueueIdentity → Option String → Disk → Bool
  has_tombstone i none d = false
  has_tombstone i (some key) d = contains (tombstone i key) d.tombstones

  -- `#identityBlocked`
  unfoldable pub identity_blocked : CaptureQueueIdentity → Act Disk Bool
  identity_blocked i = do key ← read_deletion_identity_key; gets (has_tombstone i key)

  -- `#identitiesBlocked`
  unfoldable pub identities_blocked : List CaptureQueueIdentity → Act Disk Bool
  identities_blocked [] = return false
  identities_blocked (i ∷ is) =
      let rest = identities_blocked is in
      identity_blocked i >>= λ blocked. if blocked then return true else rest

  -- `#ensureDeletionKeyVerifier`
  unfoldable pub ensure_verifier : String → Act Disk String
  ensure_verifier key d =
      if has_tombstones d
      then (read_deletion_identity_key >>= λ _. return key) d
      else (ok key, record d { identity_verifier = some (verifier_of key) })

  unfoldable pub deletion_key_of : String → Option String → Act Disk String
  unfolding ensure_verifier
  deletion_key_of generated none d = (
    ok generated,
    record d { identity_key = some generated; identity_verifier = some (verifier_of generated) },
  )
  deletion_key_of generated (some key) d =
      if is_key key then ensure_verifier key d else (err identity_key_malformed, d)

  -- `#deletionIdentityKey`; `generated` is what `randomBytes` gives.
  unfoldable pub deletion_identity_key : String → Act Disk String
  unfolding deletion_key_of
  deletion_identity_key generated d = deletion_key_of generated d.identity_key d

  unfoldable pub add_tombstones : String → List CaptureQueueIdentity → Disk → Disk
  add_tombstones key [] d = d
  add_tombstones key (i ∷ is) d =
      add_tombstones key is (record d { tombstones = touch (tombstone i key) d.tombstones })

  -- `#blockIdentitiesExclusive`
  unfoldable pub block_identities_exclusive :
      String → List CaptureQueueIdentity → Act Disk (Unit {0})
  unfolding add_tombstones
  block_identities_exclusive generated is = do
    key ← deletion_identity_key generated
    modify (add_tombstones key is)
