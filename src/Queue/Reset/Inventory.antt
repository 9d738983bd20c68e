-- ===== src/Queue/Reset/Inventory.antt =====
-- The inventory of a reset, and what the reset leaves.
use Prim.Native.Nat.{ℕ, suc, ◌+◌}
use mathlib.Core.List.{List, [], ◌∷◌}
use mathlib.Core.Option.{Option, none, some}
use mathlib.Core.Path.{◌≡◌, refl, ap, ◌∙◌}
use native.Mathlib.Omega.{arith}
use proven_loop.Shared.{
  Bool, true, false, String, String_eq, Pair_eq, ℕ_eq, List_eq, Option_eq, length, ◌++◌, map,
}
use proven_loop.Shared.Result.{ok}
use proven_loop.Queue.Act.{◌>>=◌, ◌>>◌}
use proven_loop.Queue.Disk.{Disk}
use proven_loop.Queue.State.{WindowsCaptureQueue}
use proven_loop.Queue.Reset.{
  RecordFile, item_file, active_file, acknowledged_file, quarantined_file, source_file,
  tombstone_file, key_file, verifier_file, barrier_file, cutoff_file, names, if_there, if_set,
  all_files, collect, remove_records, reset_records,
}
use proven_loop.Queue.Reset.{other_files}
use proven_loop.Queue.Reset.Removed.{emptied, single_files, removable, from_active, removed-emptied}

add_zero : (n : ℕ) → n + 0 ≡ n
add_zero n = omega arith

zero_add : (n : ℕ) → n ≡ 0 + n
zero_add n = omega arith

suc_add : (m n : ℕ) → suc (m + n) ≡ suc m + n
suc_add m n = omega arith

-- The inventory of one kind of files that are neither items nor protected.
module _ {A : Type 0} (file : A → RecordFile)
    (taken : (a : A) (others : List RecordFile)
      → collect (file a ∷ others) ≡ (file a ∷ (collect others).0, (collect others).1)) where
  collect-kind :
      (list : List A) (others : List RecordFile)
      → collect (map file list ++ others)
        ≡ (map file list ++ (collect others).0, (collect others).1)
  collect-kind [] others = refl
  collect-kind (a ∷ list) others =
      taken a (map file list ++ others) ∙ ap (λ p. (file a ∷ p.0, p.1)) (collect-kind list others)

collect-items :
    {V : Type 0} (entries : List (String × V)) (others : List RecordFile)
    → collect (map item_file (names entries) ++ others)
      ≡ (map item_file (names entries) ++ (collect others).0, length entries + (collect others).1)
unfolding collect
collect-items [] others = ap (λ n. ((collect others).0, n)) (zero_add (collect others).1)
collect-items ((name, v) ∷ entries) others =
    ap (λ p. (item_file name ∷ p.0, suc p.1)) (collect-items entries others)
    ∙ ap (λ n. (map item_file (name ∷ names entries) ++ (collect others).0, n))
        (suc_add (length entries) (collect others).1)

collect-key :
    (o : Option String) (others : List RecordFile)
    → collect (if_there key_file o ++ others)
      ≡ (if_there key_file o ++ (collect others).0, (collect others).1)
unfolding collect
collect-key none others = refl
collect-key (some key) others = refl

collect-verifier :
    (o : Option String) (others : List RecordFile)
    → collect (if_there verifier_file o ++ others)
      ≡ (if_there verifier_file o ++ (collect others).0, (collect others).1)
unfolding collect
collect-verifier none others = refl
collect-verifier (some key) others = refl

collect-protected :
    (there : Bool) (barrier : Option String) (cutoff : Option ℕ)
    → collect (if_set there ++ (if_there barrier_file barrier ++ if_there cutoff_file cutoff))
      ≡ (if_set there, 0)
unfolding collect
collect-protected true none none = refl
collect-protected true none (some cutoff) = refl
collect-protected true (some barrier) none = refl
collect-protected true (some barrier) (some cutoff) = refl
collect-protected false none none = refl
collect-protected false none (some cutoff) = refl
collect-protected false (some barrier) none = refl
collect-protected false (some barrier) (some cutoff) = refl

-- What is put before an inventory.
abbrev before : List RecordFile → List RecordFile × ℕ → List RecordFile × ℕ
before files p = (files ++ p.0, p.1)

collect-single : (d : Disk) → collect (other_files d) ≡ (single_files d, 0)
collect-single d =
    let others =
      if_set d.indexes_v2
      ++ (if_there barrier_file d.barrier ++ if_there cutoff_file d.reset_cutoff) in
    collect-key d.identity_key (if_there verifier_file d.identity_verifier ++ others)
    ∙ ap (before (if_there key_file d.identity_key)) (
        collect-verifier d.identity_verifier others
        ∙ ap (before (if_there verifier_file d.identity_verifier))
            (collect-protected d.indexes_v2 d.barrier d.reset_cutoff))

abbrev listed_tombstones : Disk → List RecordFile
listed_tombstones d = map tombstone_file d.tombstones ++ other_files d

abbrev listed_sources : Disk → List RecordFile
listed_sources d = map source_file (names d.sources) ++ listed_tombstones d

abbrev listed_quarantined : Disk → List RecordFile
listed_quarantined d = map quarantined_file d.quarantined ++ listed_sources d

abbrev listed_acknowledged : Disk → List RecordFile
listed_acknowledged d = map acknowledged_file d.acknowledged_names ++ listed_quarantined d

abbrev listed_active : Disk → List RecordFile
listed_active d = map active_file d.active ++ listed_acknowledged d

collect-listed : (d : Disk) → collect (listed_active d) ≡ (from_active d, 0)
unfolding collect
collect-listed d =
    collect-kind active_file (λ a others. refl) d.active (listed_acknowledged d)
    ∙ ap (before (map active_file d.active)) (
        collect-kind acknowledged_file (λ a others. refl) d.acknowledged_names
          (listed_quarantined d)
        ∙ ap (before (map acknowledged_file d.acknowledged_names)) (
            collect-kind quarantined_file (λ a others. refl) d.quarantined (listed_sources d)
            ∙ ap (before (map quarantined_file d.quarantined)) (
                collect-kind source_file (λ a others. refl) (names d.sources) (listed_tombstones d)
                ∙ ap (before (map source_file (names d.sources))) (
                    collect-kind tombstone_file (λ a others. refl) d.tombstones (other_files d)
                    ∙ ap (before (map tombstone_file d.tombstones)) (collect-single d)))))

-- The inventory has every file but the barrier and the marker, and counts the item files.
pub collect-removable : (d : Disk) → collect (all_files d) ≡ (removable d, length d.files)
collect-removable d =
    collect-items d.files (listed_active d)
    ∙ ap (λ p. (map item_file (names d.files) ++ p.0, length d.files + p.1)) (collect-listed d)
    ∙ ap (λ n. (removable d, n)) (add_zero (length d.files))

abbrev pub cleared : ℕ → WindowsCaptureQueue → WindowsCaptureQueue
cleared cutoff q = record q {
  candidates = [];
  disk = emptied (record q.disk { reset_cutoff = some cutoff });
}

pub reset_records-empties :
    (cutoff : ℕ) (q : WindowsCaptureQueue)
    → reset_records cutoff q ≡ (ok (length q.disk.files), cleared cutoff q)
unfolding reset_records ◌>>◌ ◌>>=◌
reset_records-empties cutoff q =
    ap
      (λ p. (
        ok p.1,
        record q {
          candidates = [];
          disk = record (remove_records p.0 (record q.disk { reset_cutoff = some cutoff })) {
            indexes_v2 = true;
          };
        },
      ))
      (collect-removable q.disk)
    ∙ ap (λ d. (ok (length q.disk.files), record q { candidates = []; disk = d }))
        (removed-emptied (record q.disk { reset_cutoff = some cutoff }))
