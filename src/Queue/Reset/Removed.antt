-- ===== src/Queue/Reset/Removed.antt =====
-- The files that the reset lists are all but the barrier and the marker, and removing them one by one
-- leaves none.
use mathlib.Core.List.{List, [], ◌∷◌}
use mathlib.Core.Option.{Option, none, some}
use mathlib.Core.Path.{◌≡◌, refl, sym, ap, ◌∙◌}
use proven_loop.Shared.{
  Bool, true, false, String, String_eq, Pair_eq, ℕ_eq, List_eq, Option_eq, ◌++◌, map,
}
use proven_loop.Shared.Assoc.{delete, unlink}
use proven_loop.Queue.Disk.{Disk}
use proven_loop.Queue.Reset.{
  RecordFile, item_file, active_file, acknowledged_file, quarantined_file, source_file,
  tombstone_file, key_file, verifier_file, names, if_there, if_set, remove_file, remove_records,
}
use proven_loop.Queue.Reset.Dropped.{each, unlink_all, delete_all}

-- The directory without its records.
abbrev pub emptied : Disk → Disk
emptied d = record d {
  files = [];
  active = [];
  acknowledged_names = [];
  quarantined = [];
  sources = [];
  indexes_v2 = true;
  identity_key = none;
  identity_verifier = none;
  tombstones = [];
}

-- The removal of one kind of files, where `get` and `set` are the part of the directory they are.
module _ {A X : Type 0} (file : A → RecordFile) (get : Disk → X) (set : X → Disk → Disk)
    (drop : A → X → X) (one : (a : A) (d : Disk) → remove_file (file a) d ≡ set (drop a (get d)) d)
    (get-set : (x : X) (d : Disk) → get (set x d) ≡ x)
    (set-set : (x y : X) (d : Disk) → set x (set y d) ≡ set x d)
    (set-get : (d : Disk) → set (get d) d ≡ d) where
  remove-kind :
      (list : List A) (files : List RecordFile) (d : Disk)
      → remove_records (map file list ++ files) d
        ≡ remove_records files (set (each drop list (get d)) d)
  unfolding remove_records
  remove-kind [] files d = ap (remove_records files) (sym (set-get d))
  remove-kind (a ∷ list) files d =
      ap (remove_records (map file list ++ files)) (one a d)
      ∙ remove-kind list files (set (drop a (get d)) d)
      ∙ ap (λ x. remove_records files (set (each drop list x) (set (drop a (get d)) d)))
          (get-set (drop a (get d)) d)
      ∙ ap (remove_records files) (set-set (each drop list (drop a (get d))) (drop a (get d)) d)

-- The files that are not in lists, and are removed.
abbrev pub single_files : Disk → List RecordFile
single_files d =
    if_there key_file d.identity_key
    ++ (if_there verifier_file d.identity_verifier ++ if_set d.indexes_v2)

remove-key :
    (o : Option String) (files : List RecordFile) (d : Disk)
    → d.identity_key ≡ o
    → remove_records (if_there key_file o ++ files) d
      ≡ remove_records files (record d { identity_key = none })
unfolding remove_records
remove-key none files d h = ap (λ k. remove_records files (record d { identity_key = k })) h
remove-key (some key) files d h = refl

remove-verifier :
    (o : Option String) (files : List RecordFile) (d : Disk)
    → d.identity_verifier ≡ o
    → remove_records (if_there verifier_file o ++ files) d
      ≡ remove_records files (record d { identity_verifier = none })
unfolding remove_records
remove-verifier none files d h =
    ap (λ k. remove_records files (record d { identity_verifier = k })) h
remove-verifier (some key) files d h = refl

remove-marker :
    (there : Bool) (d : Disk)
    → d.indexes_v2 ≡ there
    → record (remove_records (if_set there) d) { indexes_v2 = true }
      ≡ record d { indexes_v2 = true }
unfolding remove_records
remove-marker true d h = refl
remove-marker false d h = refl

remove-items :
    (files : List RecordFile) (d : Disk)
    → remove_records (map item_file (names d.files) ++ files) d
      ≡ remove_records files (record d { files = [] })
remove-items files d =
    remove-kind item_file (λ e. e.files) (λ x e. record e { files = x }) delete (λ a e. refl)
      (λ x e. refl) (λ x y e. refl) (λ e. refl) (names d.files) files d
    ∙ ap (λ x. remove_records files (record d { files = x })) (delete_all d.files)

remove-actives :
    (files : List RecordFile) (d : Disk)
    → remove_records (map active_file d.active ++ files) d
      ≡ remove_records files (record d { active = [] })
remove-actives files d =
    remove-kind active_file (λ e. e.active) (λ x e. record e { active = x }) unlink (λ a e. refl)
      (λ x e. refl) (λ x y e. refl) (λ e. refl) d.active files d
    ∙ ap (λ x. remove_records files (record d { active = x })) (unlink_all d.active)

remove-acknowledged_names :
    (files : List RecordFile) (d : Disk)
    → remove_records (map acknowledged_file d.acknowledged_names ++ files) d
      ≡ remove_records files (record d { acknowledged_names = [] })
remove-acknowledged_names files d =
    remove-kind acknowledged_file (λ e. e.acknowledged_names)
      (λ x e. record e { acknowledged_names = x }) unlink (λ a e. refl) (λ x e. refl)
      (λ x y e. refl) (λ e. refl) d.acknowledged_names files d
    ∙ ap (λ x. remove_records files (record d { acknowledged_names = x }))
        (unlink_all d.acknowledged_names)

remove-quarantined :
    (files : List RecordFile) (d : Disk)
    → remove_records (map quarantined_file d.quarantined ++ files) d
      ≡ remove_records files (record d { quarantined = [] })
remove-quarantined files d =
    remove-kind quarantined_file (λ e. e.quarantined) (λ x e. record e { quarantined = x }) unlink
      (λ a e. refl) (λ x e. refl) (λ x y e. refl) (λ e. refl) d.quarantined files d
    ∙ ap (λ x. remove_records files (record d { quarantined = x })) (unlink_all d.quarantined)

remove-sources :
    (files : List RecordFile) (d : Disk)
    → remove_records (map source_file (names d.sources) ++ files) d
      ≡ remove_records files (record d { sources = [] })
remove-sources files d =
    remove-kind source_file (λ e. e.sources) (λ x e. record e { sources = x }) delete (λ a e. refl)
      (λ x e. refl) (λ x y e. refl) (λ e. refl) (names d.sources) files d
    ∙ ap (λ x. remove_records files (record d { sources = x })) (delete_all d.sources)

remove-tombstones :
    (files : List RecordFile) (d : Disk)
    → remove_records (map tombstone_file d.tombstones ++ files) d
      ≡ remove_records files (record d { tombstones = [] })
remove-tombstones files d =
    remove-kind tombstone_file (λ e. e.tombstones) (λ x e. record e { tombstones = x }) unlink
      (λ a e. refl) (λ x e. refl) (λ x y e. refl) (λ e. refl) d.tombstones files d
    ∙ ap (λ x. remove_records files (record d { tombstones = x })) (unlink_all d.tombstones)

abbrev from_tombstones : Disk → List RecordFile
from_tombstones d = map tombstone_file d.tombstones ++ single_files d

abbrev from_sources : Disk → List RecordFile
from_sources d = map source_file (names d.sources) ++ from_tombstones d

abbrev from_quarantined : Disk → List RecordFile
from_quarantined d = map quarantined_file d.quarantined ++ from_sources d

abbrev from_acknowledged : Disk → List RecordFile
from_acknowledged d = map acknowledged_file d.acknowledged_names ++ from_quarantined d

abbrev pub from_active : Disk → List RecordFile
from_active d = map active_file d.active ++ from_acknowledged d

-- The removable files of a directory.
abbrev pub removable : Disk → List RecordFile
removable d = map item_file (names d.files) ++ from_active d

-- The directory when the files in lists are removed.
abbrev emptied_lists : Disk → Disk
emptied_lists d = record d {
  files = [];
  active = [];
  acknowledged_names = [];
  quarantined = [];
  sources = [];
  tombstones = [];
}

remove-lists :
    (d : Disk) → remove_records (removable d) d ≡ remove_records (single_files d) (emptied_lists d)
remove-lists d =
    let d1 = record d { files = [] } in
    let d2 = record d1 { active = [] } in
    let d3 = record d2 { acknowledged_names = [] } in
    let d4 = record d3 { quarantined = [] } in
    let d5 = record d4 { sources = [] } in
    remove-items (from_active d) d
    ∙ remove-actives (from_acknowledged d) d1
    ∙ remove-acknowledged_names (from_quarantined d) d2
    ∙ remove-quarantined (from_sources d) d3
    ∙ remove-sources (from_tombstones d) d4
    ∙ remove-tombstones (single_files d) d5

-- Removing all the files that are listed, one by one, and writing the marker of the indexes anew.
pub removed-emptied :
    (d : Disk) → record (remove_records (removable d) d) { indexes_v2 = true } ≡ emptied d
removed-emptied d =
    let e = emptied_lists d in
    let e1 = record e { identity_key = none } in
    let e2 = record e1 { identity_verifier = none } in
    let marked : Disk → Disk = λ f. record f { indexes_v2 = true } in
    ap marked (
      remove-lists d
      ∙ remove-key d.identity_key
          (if_there verifier_file d.identity_verifier ++ if_set d.indexes_v2) e refl
      ∙ remove-verifier d.identity_verifier (if_set d.indexes_v2) e1 refl)
    ∙ remove-marker d.indexes_v2 e2 refl
