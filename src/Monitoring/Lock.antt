-- ===== src/Monitoring/Lock.antt =====
-- The lock of the monitor: `cleanup_stale_lock`, `acquire_lock` and `release_lock`. The file system
-- and the process table are parameters of a call: `is_alive`, whether a move, a creation, the writing
-- of the content or a removal succeeds. No other process touches the file during a call.
use invoice_hub.Prelude.{
  Bool, Option, false, if◌then◌else◌, is_some, none, not, refl, some, true, ℕ, ◌&&◌, ◌==◌, ◌||◌,
  ◌≡◌, ◌⊎◌, inl, inr, sym, true_false, ap, arith, Bool-cases,
}

-- The lock file, where it is there: the `pid` that it names, 0 where it names none.
pub record MonitorLock : Type 0 where
  pub lock_file : Option ℕ
  pub lock_acquired : Bool

-- What the system answers during a call.
pub record System : Type 0 where
  pub is_alive : ℕ → Bool
  pub own_pid : ℕ
  pub moves : Bool
  pub creates : Bool
  pub writes : Bool
  pub removes : Bool

-- `pid and is_pid_alive(pid)`
abbrev pub is_held : System → ℕ → Bool
is_held system pid = not (pid == 0) && system.is_alive pid

-- The file that `cleanup_stale_lock` leaves.
abbrev pub cleaned_file : System → Option ℕ → Option ℕ
cleaned_file system none = none
cleaned_file system (some pid) = if is_held system pid || not system.moves then some pid else none

-- `cleanup_stale_lock`: the result is whether a lock was moved away.
unfoldable pub cleanup_stale_lock : System → MonitorLock → MonitorLock × Bool
cleanup_stale_lock system lock =
    let left = cleaned_file system lock.lock_file in
    (record lock { lock_file = left }, is_some lock.lock_file && not (is_some left))

-- The file that a creation leaves, and whether it succeeded: one whose content could not be written
-- stays, and names no process.
abbrev pub created_lock : System → MonitorLock → Bool → Bool → MonitorLock × Bool
created_lock system lock true true =
    (record { lock_file = some system.own_pid; lock_acquired = true }, true)
created_lock system lock true false = (record lock { lock_file = some 0 }, false)
created_lock system lock false writes = (lock, false)

-- The creation with `O_EXCL`, after the checks: it fails where a file is there.
unfoldable pub create_lock : System → MonitorLock → Option ℕ → MonitorLock × Bool
create_lock system lock none = created_lock system lock system.creates system.writes
create_lock system lock (some pid) = (lock, false)

-- The second look at the file: the lock of a living process refuses.
abbrev pub is_refused : System → Option ℕ → Bool
is_refused system none = false
is_refused system (some pid) = is_held system pid

-- `acquire_lock`
unfoldable pub acquire_lock : System → MonitorLock → MonitorLock × Bool
acquire_lock system lock =
    let cleaned = (cleanup_stale_lock system lock).0 in
    if is_refused system cleaned.lock_file
    then (cleaned, false)
    else create_lock system cleaned cleaned.lock_file

-- `release_lock`
unfoldable pub release_lock : System → MonitorLock → MonitorLock
release_lock system lock =
    if lock.lock_acquired
    then record {
      lock_file = if system.removes then none else lock.lock_file;
      lock_acquired = false;
    }
    else lock

created_lock-owner :
    (system : System) (lock : MonitorLock) (creates writes : Bool)
    → (created_lock system lock creates writes).1 ≡ true
    → ((created_lock system lock creates writes).0.lock_file ≡ some system.own_pid)
      × ((created_lock system lock creates writes).0.lock_acquired ≡ true)
created_lock-owner system lock true true h = (refl, refl)
created_lock-owner system lock true false h = true_false (sym h)
created_lock-owner system lock false writes h = true_false (sym h)

moved_away :
    (pid : ℕ) (held moves : Bool)
    → (if held || not moves then some pid else none) ≡ none
    → held ≡ false
moved_away pid true moves h = cc
moved_away pid false moves h = refl

create_lock-owner :
    (system : System) (lock : MonitorLock) (file : Option ℕ)
    → (create_lock system lock file).1 ≡ true
    → (file ≡ none)
      × ((create_lock system lock file).0.lock_file ≡ some system.own_pid)
      × ((create_lock system lock file).0.lock_acquired ≡ true)
unfolding create_lock
create_lock-owner system lock none h =
    let owned = created_lock-owner system lock system.creates system.writes h in
    (refl, owned.0, owned.1)
create_lock-owner system lock (some pid) h = true_false (sym h)

-- Nothing living is named by a file: there is none, it names no process, or one that is not alive.
abbrev pub NamesNoLiving : System → Option ℕ → Type 0
NamesNoLiving system file =
    (file ≡ none) ⊎ (file ≡ some 0) ⊎ (pid : ℕ) × (file ≡ some pid) × (system.is_alive pid ≡ false)

not_held : (pid : ℕ) (alive : Bool) → not (pid == 0) && alive ≡ false → (pid ≡ 0) ⊎ (alive ≡ false)
not_held pid true h = inl (ground arith)
not_held pid false h = inr refl

-- A lock file that is gone was not there, or named no living process.
cleaned_file-NamesNoLiving :
    (system : System) (file : Option ℕ)
    → cleaned_file system file ≡ none
    → NamesNoLiving system file
cleaned_file-NamesNoLiving system none h = inl refl
cleaned_file-NamesNoLiving system (some pid) h =
    elim (not_held pid (system.is_alive pid) (moved_away pid (is_held system pid) system.moves h)) [
      | inl e ↦ inr (inl (ap some e))
      | inr e ↦ inr (inr (pid, refl, e))
    ]

-- A monitor that was given the lock is the one that the file names and has the flag, and a lock file
-- that was there before named no process (0), or one that is not alive.
pub acquire_lock-owner :
    (system : System) (lock : MonitorLock)
    → (acquire_lock system lock).1 ≡ true
    → ((acquire_lock system lock).0.lock_file ≡ some system.own_pid)
      × ((acquire_lock system lock).0.lock_acquired ≡ true)
      × NamesNoLiving system lock.lock_file
unfolding acquire_lock cleanup_stale_lock
acquire_lock-owner system lock h =
    let cleaned = (cleanup_stale_lock system lock).0 in
    elim (Bool-cases (is_refused system cleaned.lock_file)) [
      | inl e ↦ true_false (sym (rw e at h))
      | inr e ↦
          let (file, owner, acquired) =
            create_lock-owner system cleaned cleaned.lock_file (rw e at h) in
          rw e (owner, acquired, cleaned_file-NamesNoLiving system lock.lock_file file)
    ]
