-- ===== src/Monitoring/Tests.antt =====
-- The theorems on monitoring, at concrete runs.
use invoice_hub.Monitoring.Exclusive.{QuietRun-excludes}
use invoice_hub.Monitoring.Race.{
  Monitor, QuietRun, Race, Run, at_rest, created, done, found_alive, found_none, found_stale,
  holding, idle, moved, new_file, no_monitor, one, quiet, refused, run_step, then_step, two, wrote,
}
use invoice_hub.Monitoring.Polling.{Snapshot, changed_paths, polls, stat_same}
use invoice_hub.Monitoring.Reported.{AreKeysDistinct, changed_paths-elem, polls-elem}
use invoice_hub.Prelude.Sorting.{sorted}
use invoice_hub.Prelude.Int.{pos}
use invoice_hub.Monitoring.Lock.{
  MonitorLock, System, NamesNoLiving, acquire_lock, acquire_lock-owner, cleanup_stale_lock,
  create_lock,
}
use invoice_hub.Monitoring.Changes.{
  Signature, classify, detect_source_changes, is_changed, is_modified, recorded, vanished,
}
use invoice_hub.Monitoring.Detected.{
  AreFilesDistinct, detect_source_changes-exact, differs, is_none, stored_of,
}
use invoice_hub.Monitoring.Unchanged.{IsCurrent, IsPresent, detect_source_changes-unchanged}
use invoice_hub.Prelude.Dict.{Dict, contains, lookup}
use invoice_hub.Monitoring.Progress.{
  Call, IsSteady, SyncProgress, fail, published, published-IsSteady, report, start,
}
use invoice_hub.Prelude.{
  All, List, Option, String, [], arith, elem, false, none, not, refl, some, true, ℕ, ◌&&◌, ◌==◌,
  ◌∷◌, ◌≡◌, Any, ◌≢◌, ap, Bool,
}

abbrev test_system : System
test_system = record {
  is_alive = λ pid. pid == 7;
  own_pid = 9;
  moves = true;
  creates = true;
  writes = true;
  removes = true;
}

abbrev lock_of : ℕ → MonitorLock
lock_of pid = record { lock_file = some pid; lock_acquired = false }

stale_taken : (acquire_lock test_system (lock_of 8)).1 ≡ true
unfolding acquire_lock cleanup_stale_lock create_lock
stale_taken = refl

acquire_lock-owner_example :
    ((acquire_lock test_system (lock_of 8)).0.lock_file ≡ some 9)
    × ((acquire_lock test_system (lock_of 8)).0.lock_acquired ≡ true)
    × NamesNoLiving test_system (lock_of 8).lock_file
acquire_lock-owner_example = acquire_lock-owner test_system (lock_of 8) stale_taken

abbrev test_signature : Signature
test_signature = record { mtime_ns = 5; mtime = 0; size = 3 }

abbrev stored_files : Dict (Option Signature)
stored_files = ("a", some test_signature) ∷ ("b", some test_signature) ∷ []

-- `a` is newer than what is stored, `b` is gone, `c` is new.
abbrev folder : Dict Signature
folder = ("a", record test_signature { mtime_ns = 6 }) ∷ ("c", test_signature) ∷ []

folder_distinct : AreFilesDistinct folder
unfolding lookup
folder_distinct = (refl, (refl, tt))

detect_source_changes-exact_example :
    (elem "a" (detect_source_changes stored_files folder).added
      ≡ contains "a" folder && is_none (stored_of (lookup "a" stored_files)))
    × (elem "a" (detect_source_changes stored_files folder).updated
        ≡ differs (stored_of (lookup "a" stored_files)) (lookup "a" folder))
    × (elem "a" (detect_source_changes stored_files folder).deleted
        ≡ contains "a" stored_files && not (contains "a" folder))
detect_source_changes-exact_example =
    detect_source_changes-exact "a" stored_files folder folder_distinct

no_changes :
    is_changed
      (detect_source_changes stored_files (("a", test_signature) ∷ ("b", test_signature) ∷ []))
    ≡ false
unfolding detect_source_changes classify vanished recorded is_modified sorted lookup
no_changes = refl

detect_source_changes-unchanged_example :
    All (IsCurrent stored_files) (("a", test_signature) ∷ ("b", test_signature) ∷ [])
    × All (IsPresent (("a", test_signature) ∷ ("b", test_signature) ∷ [])) stored_files
detect_source_changes-unchanged_example =
    detect_source_changes-unchanged stored_files
      (("a", test_signature) ∷ ("b", test_signature) ∷ []) no_changes

abbrev first_progress : SyncProgress
first_progress = record {
  operation_id = "op";
  task_id = "";
  target_id = "t";
  trigger = "sync";
  started_at = "";
  percent = 0;
  processed_count = 0;
  total_count = 0;
}

abbrev test_calls : List (String × Call)
test_calls =
    ("1", start "begin")
    ∷ ("2", report "scan" "scanning" (pos 40) (some (pos 9)) (some (pos 6)))
    ∷ ("3", report "write" "writing" (pos 20) (some (pos 0)) (some (pos 2)))
    ∷ ("4", fail "error")
    ∷ []

published-IsSteady_example : IsSteady 0 (published test_calls first_progress)
published-IsSteady_example = published-IsSteady test_calls first_progress (omega arith)

-- Two snapshots of a folder: `b` changes, `c` comes.
abbrev first_poll : Snapshot
first_poll = ("a", (1, 1, 1)) ∷ ("b", (2, 2, 2)) ∷ []

abbrev second_poll : Snapshot
second_poll = ("a", (1, 1, 1)) ∷ ("b", (5, 2, 2)) ∷ ("c", (3, 3, 3)) ∷ []

first_distinct : AreKeysDistinct first_poll
unfolding lookup
first_distinct = (refl, (refl, tt))

second_distinct : AreKeysDistinct second_poll
unfolding lookup
second_distinct = (refl, (refl, (refl, tt)))

changed_paths-elem_example :
    elem "b" (changed_paths first_poll second_poll)
    ≡ not (stat_same (lookup "b" first_poll) (lookup "b" second_poll))
changed_paths-elem_example = changed_paths-elem "b" first_poll second_poll first_distinct

abbrev mtime_of : Option (ℕ × ℕ × ℕ) → ℕ
mtime_of none = 0
mtime_of (some stat) = stat.0

abbrev two_ℕ : ℕ
two_ℕ = 2

five_not_two : 5 ≡ two_ℕ → ⊥
five_not_two h = omega (arith, h)

file_differs : lookup "b" (polls first_poll (second_poll ∷ [])).1 ≢ lookup "b" first_poll
unfolding polls lookup
file_differs h = five_not_two (ap mtime_of h)

polls-elem_example :
    Any (λ reported. elem "b" reported ≡ true) (polls first_poll (second_poll ∷ [])).0
polls-elem_example =
    polls-elem "b" first_poll (second_poll ∷ []) first_distinct (second_distinct, tt) file_differs

abbrev test_pids : Monitor → ℕ
test_pids one = 7
test_pids two = 8

abbrev all_alive : ℕ → Bool
all_alive pid = true

-- The first monitor takes the lock, the second is refused.
abbrev taken : Race
taken = record {
  lock_file = some (record { creator = some one; pid = 7 });
  phase_one = holding;
  phase_two = idle;
}

second_is_refused : QuietRun test_pids all_alive no_monitor taken
second_is_refused =
    then_step
      (then_step
        (then_step (then_step (then_step done (found_none one refl refl)) (created one refl refl))
          (wrote one refl))
        (found_alive two (record { creator = some one; pid = 7 }) refl refl refl))
      (refused two (record { creator = some one; pid = 7 }) refl refl)

QuietRun-excludes_example : ¬ ((taken.phase_one ≡ holding) × (taken.phase_two ≡ holding))
QuietRun-excludes_example = QuietRun-excludes test_pids all_alive taken second_is_refused

-- The second monitor reads the file of the first before its content is there, takes it for stale and
-- moves it away: both hold the lock.
abbrev both_hold : Race
both_hold = record {
  lock_file = some (record { creator = some two; pid = 8 });
  phase_one = holding;
  phase_two = holding;
}

both_take_it : Run test_pids all_alive no_monitor both_hold
both_take_it =
    run_step
      (run_step
        (run_step
          (run_step
            (run_step
              (run_step (run_step at_rest (quiet (found_none one refl refl)))
                (quiet (created one refl refl)))
              (found_stale two (new_file one) refl refl refl))
            (quiet (moved two refl)))
          (quiet (created two refl refl)))
        (quiet (wrote one refl)))
      (quiet (wrote two refl))
