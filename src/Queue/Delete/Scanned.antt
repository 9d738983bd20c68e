-- ===== src/Queue/Delete/Scanned.antt =====
-- `#readAll`: it changes nothing that can be read, and leaves out nothing.
use mathlib.Core.List.{List, [], ◌∷◌}
use text.Mathlib.TextEquality.{eq_iff}
use Prim.Native.Nat.{ℕ}
use mathlib.Core.Logic.{inl, inr}
use mathlib.Core.Option.{some}
use mathlib.Core.Path.{◌≡◌, refl, sym, ap, subst, ◌∙◌}
use native.Mathlib.Omega.{arith}
use proven_loop.Shared.{
  Bool, true, String, String_eq, Pair_eq, ℕ_eq, List_eq, Option_eq, ◌==◌, contains, all, Bool-cases,
  Option-cases, map,
}
use proven_loop.Shared.Assoc.{lookup}
use proven_loop.Shared.{All}
use proven_loop.Queue.Indexing.{read-id}
use proven_loop.Shared.Result.{Result, ok, err}
use proven_loop.Shared.Sorting.{Order, sort_by}
use proven_loop.Queue.Data.{CaptureQueueItem, QueueError, corrupt_item, invalid_item_id}
use proven_loop.Queue.Disk.{Disk, read}
use proven_loop.Queue.Open.{file_names}
use proven_loop.Queue.Search.{Kept, quarantine-Kept}
use proven_loop.Queue.Vouched.{Fewer, quarantine-Fewer}
use proven_loop.Queue.Delete.{read_file, settle_file, read_files, read_all, oldest_first}

module _ (item_bytes : CaptureQueueItem → ℕ) where
  settle_file-Kept :
      (id : String) (d : Disk) (r : Result QueueError CaptureQueueItem)
      → read item_bytes id d ≡ r
      → Kept item_bytes d (settle_file item_bytes id r d)
  settle_file-Kept id d (err corrupt_item) h = quarantine-Kept item_bytes id d corrupt_item h
  settle_file-Kept id d (err invalid_item_id) h = quarantine-Kept item_bytes id d invalid_item_id h
  settle_file-Kept id d r h = λ j z s. s

  settle_file-Fewer :
      (id : String) (d : Disk) (r : Result QueueError CaptureQueueItem)
      → Fewer item_bytes d (settle_file item_bytes id r d)
  settle_file-Fewer id d (err corrupt_item) = quarantine-Fewer item_bytes id d
  settle_file-Fewer id d (err invalid_item_id) = quarantine-Fewer item_bytes id d
  settle_file-Fewer id d r = λ j z s. s

  read_file-disk :
      (id : String) (r : Result QueueError CaptureQueueItem) (p : List CaptureQueueItem × Disk)
      → (read_file item_bytes id r p).1 ≡ p.1
  read_file-disk id (ok x) p = refl
  read_file-disk id (err e) p = refl

  -- The same items can be read.
  abbrev pub Same : Disk → Disk → Type 0
  Same d d' = Kept item_bytes d d' × Fewer item_bytes d d'

  pub read_files-Same : (ids : List String) (d : Disk) → Same d (read_files item_bytes ids d).1
  unfolding read_files
  read_files-Same [] d = ((λ j z s. s), (λ j z s. s))
  read_files-Same (id ∷ ids) d =
      let r = read item_bytes id d in
      let (kept, fewer) = read_files-Same ids (settle_file item_bytes id r d) in
      let same = read_file-disk id r (read_files item_bytes ids (settle_file item_bytes id r d)) in
      (
        (λ j z s.
            subst (λ e. read item_bytes j e ≡ ok z) (sym same)
              (kept j z (settle_file-Kept id d r refl j z s))),
        (λ j z s.
            settle_file-Fewer id d r j z
              (fewer j z (subst (λ e. read item_bytes j e ≡ ok z) same s))),
      )

  -- What can be read under its own id.
  abbrev pub IsItem : Disk → CaptureQueueItem → Type 0
  IsItem d x = read item_bytes x.queue_item_id d ≡ ok x

  read_file-All :
      (d : Disk) (id : String) (r : Result QueueError CaptureQueueItem)
      (p : List CaptureQueueItem × Disk)
      → read item_bytes id d ≡ r
      → All (IsItem d) p.0
      → All (IsItem d) (read_file item_bytes id r p).0
  read_file-All d id (ok x) p r others =
      (ap (λ j. read item_bytes j d) (read-id item_bytes id d x r) ∙ r, others)
  read_file-All d id (err e) p r others = others

  All-Fewer :
      (d e : Disk) (items : List CaptureQueueItem)
      → Fewer item_bytes d e
      → All (IsItem e) items
      → All (IsItem d) items
  All-Fewer d e [] fewer holds = holds
  All-Fewer d e (x ∷ items) fewer holds =
      (fewer x.queue_item_id x holds.0, All-Fewer d e items fewer holds.1)

  pub read_files-All :
      (ids : List String) (d : Disk) → All (IsItem d) (read_files item_bytes ids d).0
  unfolding read_files
  read_files-All [] d = tt
  read_files-All (id ∷ ids) d =
      let r = read item_bytes id d in
      let next = settle_file item_bytes id r d in
      read_file-All d id r (read_files item_bytes ids next) refl (
        All-Fewer d next (read_files item_bytes ids next).0 (settle_file-Fewer id d r)
          (read_files-All ids next))

  read_file-all :
      (test : CaptureQueueItem → Bool) (id : String) (r : Result QueueError CaptureQueueItem)
      (p : List CaptureQueueItem × Disk)
      → all test (read_file item_bytes id r p).0 ≡ true
      → (all test p.0 ≡ true) × ((x : CaptureQueueItem) → r ≡ ok x → test x ≡ true)
  read_file-all test id (ok y) p h = (ground arith, λ x e. ground (arith, e))
  read_file-all test id (err e) p h = (h, λ x e'. absurd (cc))

  -- What holds of all items read holds of each item that can be read.
  pub read_files-all :
      (test : CaptureQueueItem → Bool) (ids : List String) (d : Disk)
      → all test (read_files item_bytes ids d).0 ≡ true
      → (id : String) (x : CaptureQueueItem) → contains id ids ≡ true
      → read item_bytes id d ≡ ok x
      → test x ≡ true
  unfolding read_files
  read_files-all test [] d h id x there r = absurd (ground arith)
  read_files-all test (first ∷ ids) d h id x there r =
      let here = read item_bytes first d in
      let next = settle_file item_bytes first here d in
      let (others, own) = read_file-all test first here (read_files item_bytes ids next) h in
      elim (Bool-cases (first == id)) [
        | inl same ↦ own x (ap (λ j. read item_bytes j d) ((eq_iff first id).0 same) ∙ r)
        | inr apart ↦
            read_files-all test ids next others id x (ground arith)
              (settle_file-Kept first d here refl id x r)
      ]

  lookup-names :
      {V : Type 0} (id : String) (files : List (String × V)) (v : V)
      → lookup id files ≡ some v
      → contains id (map (λ entry. entry.0) files) ≡ true
  unfolding lookup
  lookup-names id [] v h = absurd (cc)
  lookup-names id ((name, value) ∷ files) v h = ground (arith, lookup-names id files v)

  pub read-file_names :
      (id : String) (d : Disk) (x : CaptureQueueItem)
      → read item_bytes id d ≡ ok x
      → contains id (file_names item_bytes d) ≡ true
  unfolding read
  read-file_names id d x r = elim (Option-cases (lookup id d.files)) [
    | inl missing ↦ absurd (ground arith)
    | inr (content, found) ↦ lookup-names id d.files content found
  ]

  module _ (locale units : String → String → Order) where
    pub read_all-inv :
        (d d' : Disk) (items : List CaptureQueueItem)
        → read_all item_bytes locale units d ≡ (ok items, d')
        → (items
            ≡ sort_by
                (oldest_first item_bytes locale units)
                (read_files item_bytes (file_names item_bytes d) d).0)
          × Same d d'
    unfolding read_all
    read_all-inv d d' items h =
        (cc, subst (Same d) (ap (λ r. r.1) h) (read_files-Same (file_names item_bytes d) d))
