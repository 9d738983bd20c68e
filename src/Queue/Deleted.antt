-- ===== src/Queue/Deleted.antt =====
-- The tombstones of deleted identities and the key that their digests use.
use proven_loop.Shared.{subst, ◌∙◌, map, ◌||◌, false}
use proven_loop.Shared.Assoc.{touch}
use proven_loop.Shared.Action.Outcomes.{bind-of}
use proven_loop.Shared.{
  ◌≡◌, refl, ap, true, List, [], ◌∷◌, none, some, String, String_eq, Pair_eq, ℕ_eq, same_refl,
  contains, All, arith,
}
use proven_loop.Shared.Result.{ok, err}
use proven_loop.Shared.Assoc.{contains-touch}
use proven_loop.Queue.Data.{identity_key_missing}
use proven_loop.Queue.Disk.{Disk}
use proven_loop.Queue.Act.{◌>>=◌}
use proven_loop.Shared.Action.Outcomes.{bind-ok}
use proven_loop.Queue.Identity.{
  CaptureQueueIdentity, tombstone, read_key_of, read_deletion_identity_key, verifier_of,
  identity_blocked, deletion_key_of, deletion_identity_key, add_tombstones,
  block_identities_exclusive, is_key,
}
use proven_loop.Queue.Keyed.{has-tombstones, KeyOf, read_key-of, deletion_identity_key-KeyOf}

module _ (digest : String → String → String → String) where
  add_tombstones-KeyOf :
      (key : String) (is : List CaptureQueueIdentity) (d : Disk)
      → KeyOf digest key d
      → KeyOf digest key (add_tombstones digest key is d)
  unfolding add_tombstones
  add_tombstones-KeyOf key [] d k = k
  add_tombstones-KeyOf key (i ∷ is) d k = add_tombstones-KeyOf key is _ k

  add_tombstones-contains :
      (key : String) (is : List CaptureQueueIdentity) (t : String × String) (d : Disk)
      → contains t d.tombstones ≡ true
      → contains t (add_tombstones digest key is d).tombstones ≡ true
  unfolding add_tombstones
  add_tombstones-contains key [] t d h = h
  add_tombstones-contains key (i ∷ is) t d h =
      add_tombstones-contains key is t _
        (ground (arith, contains-touch (tombstone digest i key) t d.tombstones, h))

  added :
      (key : String) (is : List CaptureQueueIdentity) (d : Disk)
      → All
          (λ i.
            contains (tombstone digest i key) (add_tombstones digest key is d).tombstones ≡ true)
          is
  unfolding add_tombstones
  added key [] d = tt
  added key (i ∷ is) d = (
    add_tombstones-contains key is (tombstone digest i key) _ (
        ground (
          arith,
          contains-touch (tombstone digest i key) (tombstone digest i key) d.tombstones,
          same_refl (tombstone digest i key),
        )),
    added key is _,
  )

  identity_blocked-All :
      (key : String) (d : Disk) (is : List CaptureQueueIdentity)
      → KeyOf digest key d
      → All (λ i. contains (tombstone digest i key) d.tombstones ≡ true) is
      → All (λ i. identity_blocked digest i d ≡ (ok true, d)) is
  unfolding identity_blocked ◌>>=◌
  identity_blocked-All key d [] k a = tt
  identity_blocked-All key d (i ∷ is) k (c, cs) =
      (ground (arith, read_key-of digest key d k, c), identity_blocked-All key d is k cs)

  -- Blocking identities works: when it succeeds, each of them is found to be blocked from then on,
  -- and the asking changes nothing. The key that would be generated has a key's form.
  pub block_identities_exclusive-blocks :
      (generated : String) (is : List CaptureQueueIdentity) (d d' : Disk) (u : Unit {0})
      → is_key generated ≡ true
      → block_identities_exclusive digest generated is d ≡ (ok u, d')
      → All (λ i. identity_blocked digest i d' ≡ (ok true, d')) is
  unfolding block_identities_exclusive
  block_identities_exclusive-blocks generated is d d' u g h =
      let (key, d1, a, b) = bind-ok (deletion_identity_key digest generated) _ d u d' h in
      let e : add_tombstones digest key is d1 ≡ d' = cc in
      subst (λ d2. All (λ i. identity_blocked digest i d2 ≡ (ok true, d2)) is) e
        (identity_blocked-All key (add_tombstones digest key is d1) is
          (add_tombstones-KeyOf key is d1
            (deletion_identity_key-KeyOf digest generated key d d1 g a))
          (added key is d1))

  -- Blocking adds the tombstones of what is blocked, under the key, and no other.
  add_tombstones-only :
      (key : String) (is : List CaptureQueueIdentity) (t : String × String) (d : Disk)
      → contains t (add_tombstones digest key is d).tombstones
        ≡ (contains t (map (λ i. tombstone digest i key) is) || contains t d.tombstones)
  unfolding add_tombstones
  add_tombstones-only key [] t d = refl
  add_tombstones-only key (i ∷ is) t d = ground (
    arith,
    add_tombstones-only key is t
        (record d { tombstones = touch (tombstone digest i key) d.tombstones }),
    contains-touch (tombstone digest i key) t d.tombstones,
  )

  fresh_key-blocks :
      (generated : String) (is : List CaptureQueueIdentity) (d : Disk)
      → d.identity_key ≡ none
      → block_identities_exclusive digest generated is d ≡ (
        ok tt,
        add_tombstones digest generated is (record d {
          identity_key = some generated;
          identity_verifier = some (verifier_of digest generated);
        }),
      )
  unfolding block_identities_exclusive deletion_identity_key deletion_key_of ◌>>=◌
  fresh_key-blocks generated is d lost = ground (arith, lost)

  identity_blocked-of :
      (key : String) (i : CaptureQueueIdentity) (d : Disk)
      → KeyOf digest key d
      → identity_blocked digest i d ≡ (ok (contains (tombstone digest i key) d.tombstones), d)
  unfolding identity_blocked ◌>>=◌
  identity_blocked-of key i d k = ground (arith, read_key-of digest key d k)

  -- Where the key of the tombstones is lost, the question whether an identity is blocked is refused.
  -- But any call that blocks identities then makes a new key and a new verifier and succeeds; and an
  -- identity that has a tombstone under the old key is found not to be blocked any more, unless it is
  -- one of those that the call blocks: where its digest under the new key is that of no tombstone and
  -- of none of them.
  pub block_identities_exclusive-lost_key :
      (generated old : String) (is : List CaptureQueueIdentity) (i : CaptureQueueIdentity)
      (d : Disk)
      → d.identity_key ≡ none
      → contains (tombstone digest i old) d.tombstones ≡ true
      → is_key generated ≡ true
      → contains (tombstone digest i generated) d.tombstones ≡ false
      → contains (tombstone digest i generated) (map (λ j. tombstone digest j generated) is) ≡ false
      → (identity_blocked digest i d ≡ (err identity_key_missing, d))
        × (((block_identities_exclusive digest generated is >>= λ _. identity_blocked digest i) d).0
            ≡ ok false)
  unfolding identity_blocked read_deletion_identity_key read_key_of ◌>>=◌
  block_identities_exclusive-lost_key generated old is i d lost was g apart others =
      let d1 = record d {
        identity_key = some generated;
        identity_verifier = some (verifier_of digest generated);
      } in
      let d2 = add_tombstones digest generated is d1 in
      let asked =
        identity_blocked-of generated i d2 (add_tombstones-KeyOf generated is d1 (refl, g, refl)) in
      let none_of = add_tombstones-only generated is (tombstone digest i generated) d1 in
      (
        ground (arith, lost, has-tombstones d (tombstone digest i old) was),
        ap (λ r. r.0)
              (bind-of (block_identities_exclusive digest generated is)
                (λ _. identity_blocked digest i) d tt d2 (fresh_key-blocks generated is d lost))
            ∙ ap (λ r. r.0) asked
            ∙ ap ok (ground (arith, none_of, apart, others)),
      )
