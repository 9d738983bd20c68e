-- ===== src/Queue/Written/Files.antt =====
-- The item files after some of the changes of `#write`.
use Prim.Native.Nat.{ℕ, zero, suc}
use mathlib.Core.List.{List, [], ◌∷◌}
use mathlib.Core.Logic.{◌⊎◌, inl, inr}
use mathlib.Core.Path.{◌≡◌, refl, ◌∙◌}
use proven_loop.Shared.{String, take, All, All-append, if_cases, String_eq}
use proven_loop.Shared.Assoc.{insert}
use proven_loop.Queue.Data.{
  CaptureQueueItem, CaptureQueueState, terminal_queue_state, pending, claimed, acknowledged, retry,
  dead_letter,
}
use proven_loop.Queue.Disk.{
  Disk, DiskStep, IndexName, stored, touch_active, put_file, active_name, touch_acknowledged_of,
  update_state_index, write_steps, apply, apply_all,
}

-- A change that leaves the files alone.
abbrev IsAside : DiskStep → Type 0
IsAside s = (d : Disk) → (apply s d).files ≡ d.files

aside-files :
    (done : ℕ) (steps : List DiskStep) (d : Disk)
    → All IsAside steps
    → (apply_all (take done steps) d).files ≡ d.files
unfolding apply_all
aside-files zero steps d aside = refl
aside-files (suc done) [] d aside = refl
aside-files (suc done) (s ∷ steps) d aside = aside-files done steps (apply s d) aside.1 ∙ aside.0 d

touch_acknowledged-IsAside :
    (state : CaptureQueueState) (id : String) → All IsAside (touch_acknowledged_of state id)
unfolding apply
touch_acknowledged-IsAside (acknowledged at) id = ((λ d. refl), tt)
touch_acknowledged-IsAside pending id = tt
touch_acknowledged-IsAside (claimed at expires owner) id = tt
touch_acknowledged-IsAside (retry error at) id = tt
touch_acknowledged-IsAside (dead_letter error) id = tt

update_state_index-IsAside : (x : CaptureQueueItem) → All IsAside (update_state_index x)
unfolding update_state_index apply
update_state_index-IsAside x =
    All-append IsAside (touch_acknowledged_of x.state x.queue_item_id) _
      (touch_acknowledged-IsAside x.state x.queue_item_id)
      (if_cases (All IsAside) (terminal_queue_state x.state) (λ t. ((λ d. refl), tt))
        (λ f. ((λ d. refl), tt)))

put_first-files :
    (done : ℕ) (x : CaptureQueueItem) (steps : List DiskStep) (d : Disk)
    → All IsAside steps
    → ((apply_all (take done (put_file x.queue_item_id (stored x) ∷ steps)) d).files ≡ d.files)
      ⊎ ((apply_all (take done (put_file x.queue_item_id (stored x) ∷ steps)) d).files
          ≡ insert x.queue_item_id (stored x) d.files)
unfolding apply_all apply
put_first-files zero x steps d aside = inl refl
put_first-files (suc done) x steps d aside = inr (aside-files done steps _ aside)

put_second-files :
    (done : ℕ) (n : IndexName) (x : CaptureQueueItem) (d : Disk)
    → ((apply_all (take done (touch_active n ∷ put_file x.queue_item_id (stored x) ∷ [])) d).files
        ≡ d.files)
      ⊎ ((apply_all (take done (touch_active n ∷ put_file x.queue_item_id (stored x) ∷ [])) d).files
          ≡ insert x.queue_item_id (stored x) d.files)
unfolding apply_all apply
put_second-files zero n x d = inl refl
put_second-files (suc done) n x d = put_first-files done x [] (apply (touch_active n) d) tt

-- As far as they go, the changes of a write leave the files as they were or put the item.
pub take_write-files :
    (done : ℕ) (x : CaptureQueueItem) (d : Disk)
    → ((apply_all (take done (write_steps x)) d).files ≡ d.files)
      ⊎ ((apply_all (take done (write_steps x)) d).files
          ≡ insert x.queue_item_id (stored x) d.files)
unfolding write_steps
take_write-files done x d =
    if_cases
      (λ steps.
        ((apply_all (take done steps) d).files ≡ d.files)
        ⊎ ((apply_all (take done steps) d).files ≡ insert x.queue_item_id (stored x) d.files))
      (terminal_queue_state x.state)
      (λ t. put_first-files done x (update_state_index x) d (update_state_index-IsAside x))
      (λ f. put_second-files done (active_name x) x d)
