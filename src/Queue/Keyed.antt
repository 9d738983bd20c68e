-- ===== src/Queue/Keyed.antt =====
-- The key of the tombstones and its verifier: what reading and making the key leave.
use proven_loop.Shared.{List-cases}
use proven_loop.Shared.{
  ◌≡◌, refl, ap, inl, inr, true, Option, none, some, String, String_eq, Pair_eq, ℕ_eq, same_refl,
  Bool-cases, contains, ◌==◌, arith,
}
use proven_loop.Shared.Result.{Result, ok}
use proven_loop.Queue.Data.{QueueError}
use proven_loop.Queue.Disk.{Disk}
use proven_loop.Queue.Act.{return}
use proven_loop.Shared.Action.Outcomes.{bind-ok}
use proven_loop.Queue.Identity.{
  check_verifier, read_key_of, read_deletion_identity_key, has_tombstones, verifier_of,
  ensure_verifier, deletion_key_of, deletion_identity_key, is_key,
}

pub has-tombstones :
    (d : Disk) (t : String × String) → contains t d.tombstones ≡ true → has_tombstones d ≡ true
has-tombstones d t h = elim (List-cases d.tombstones) [
  | inl none_there ↦ absurd (ground (arith, h, none_there))
  | inr (first, others, some_there) ↦ ground (arith, some_there)
]

module _ (digest : String → String → String → String) where
  -- The key and its verifier stand in their files and agree.
  abbrev pub KeyOf : String → Disk → Type 0
  KeyOf key d =
      (d.identity_key ≡ some key)
      × (is_key key ≡ true)
      × (d.identity_verifier ≡ some (verifier_of digest key))

  pub read_key-of :
      (key : String) (d : Disk)
      → KeyOf key d
      → read_deletion_identity_key digest d ≡ (ok (some key), d)
  unfolding read_deletion_identity_key read_key_of check_verifier
  read_key-of key d (k, v, e) = ground (arith, k, v, e, same_refl (verifier_of digest key))

  check_verifier-inv :
      (key : String) (v : Option String) (d d' : Disk) (r : Option String)
      → has_tombstones d ≡ true
      → check_verifier digest key v d ≡ (ok r, d')
      → (d' ≡ d) × (v ≡ some (verifier_of digest key))
  unfolding check_verifier
  check_verifier-inv key none d d' r t h = ground (arith, t, h)
  check_verifier-inv key (some v) d d' r t h = elim (Bool-cases (v == verifier_of digest key)) [
    | inl e ↦
        (ground (arith, h, e), ap some ((String_eq.is_same_iff v (verifier_of digest key)).0 e))
    | inr e ↦ absurd (ground (arith, h, e))
  ]

  read_key-inv :
      (key : String) (d d' : Disk) (r : Option String)
      → d.identity_key ≡ some key
      → is_key key ≡ true
      → has_tombstones d ≡ true
      → read_deletion_identity_key digest d ≡ (ok r, d')
      → (d' ≡ d) × KeyOf key d
  unfolding read_deletion_identity_key read_key_of
  read_key-inv key d d' r k g t h =
      let (e, v) = check_verifier-inv key d.identity_verifier d d' r t (ground (arith, k, g, h)) in
      (e, (k, g, v))

  abbrev verified : String → Disk → Result QueueError String × Disk
  verified key d = (ok key, record d { identity_verifier = some (verifier_of digest key) })

  fresh :
      (key k : String) (d d' : Disk)
      → verified key d ≡ (ok k, d')
      → (k ≡ key) × (d' ≡ record d { identity_verifier = some (verifier_of digest key) })
  fresh key k d d' h = (cc, cc)

  generated-inv :
      (generated key : String) (d d' : Disk)
      → deletion_key_of digest generated none d ≡ (ok key, d')
      → (key ≡ generated)
        × (d' ≡ record d {
          identity_key = some generated;
          identity_verifier = some (verifier_of digest generated);
        })
  unfolding deletion_key_of
  generated-inv generated key d d' h = (cc, cc)

  ensure_verifier-KeyOf :
      (key k : String) (d d' : Disk)
      → d.identity_key ≡ some key
      → is_key key ≡ true
      → ensure_verifier digest key d ≡ (ok k, d')
      → (k ≡ key) × KeyOf key d'
  unfolding ensure_verifier
  ensure_verifier-KeyOf key k d d' e v h = elim (Bool-cases (has_tombstones d)) [
    | inl t ↦
        let (r, d1, a, b) =
          bind-ok (read_deletion_identity_key digest) (λ _. return key) d k d'
            (ground (arith, h, t)) in
        let (same, (i, j, w)) = read_key-inv key d d1 r e v t a in (cc, (cc, cc, cc))
    | inr f ↦ let (k', same) = fresh key k d d' (ground (arith, h, f)) in (k', (cc, cc, cc))
  ]

  deletion_key_of-KeyOf :
      (generated key : String) (o : Option String) (d d' : Disk)
      → is_key generated ≡ true
      → d.identity_key ≡ o
      → deletion_key_of digest generated o d ≡ (ok key, d')
      → KeyOf key d'
  unfolding deletion_key_of
  deletion_key_of-KeyOf generated key none d d' g e h =
      let (k', same) = generated-inv generated key d d' h in (cc, cc, cc)
  deletion_key_of-KeyOf generated key (some k) d d' g e h = elim (Bool-cases (is_key k)) [
    | inl v ↦
        let (same, (i, j, w)) = ensure_verifier-KeyOf k key d d' e v (ground (arith, h, v)) in
        (cc, cc, cc)
    | inr v ↦ absurd (ground (arith, h, v))
  ]

  pub deletion_identity_key-KeyOf :
      (generated key : String) (d d' : Disk)
      → is_key generated ≡ true
      → deletion_identity_key digest generated d ≡ (ok key, d')
      → KeyOf key d'
  unfolding deletion_identity_key
  deletion_identity_key-KeyOf generated key d d' g h =
      deletion_key_of-KeyOf generated key d.identity_key d d' g refl h
