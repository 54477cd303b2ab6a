-- ===== src/Monitoring/Race.antt =====
-- Two monitors that take the lock at the same time: each call of `acquire_lock` as the steps that
-- another process may see, one access to the lock file each.
use invoice_hub.Prelude.{
  Bool, Option, false, if◌then◌else◌, none, not, some, true, ℕ, ◌&&◌, ◌==◌, ◌≡◌,
}

pub data Monitor : Type 0 where
  one two : Monitor

-- Where a monitor stands: it may have found a stale lock, be about to create the file, have created
-- it without its content, or hold the lock.
pub data Phase : Type 0 where
  idle stale creating writing holding : Phase

-- The file at the path of the lock: the monitor that created it, `none` for one from before, and the
-- `pid` in it, 0 while its content is not written.
pub record LockFile : Type 0 where
  pub creator : Option Monitor
  pub pid : ℕ

pub record Race : Type 0 where
  pub lock_file : Option LockFile
  pub phase_one : Phase
  pub phase_two : Phase

abbrev pub phase_of : Monitor → Race → Phase
phase_of one s = s.phase_one
phase_of two s = s.phase_two

abbrev pub set_phase : Monitor → Phase → Race → Race
set_phase one p s = record s { phase_one = p }
set_phase two p s = record s { phase_two = p }

abbrev pub is_own : Monitor → Option Monitor → Bool
is_own m none = false
is_own one (some one) = true
is_own two (some two) = true
is_own one (some two) = false
is_own two (some one) = false

-- The content goes to the file that the monitor created, wherever that is by now.
abbrev pub written_file : Monitor → ℕ → Option LockFile → Option LockFile
written_file m pid none = none
written_file m pid (some f) = some (if is_own m f.creator then record f { pid = pid } else f)

abbrev pub new_file : Monitor → LockFile
new_file m = record { creator = some m; pid = 0 }

-- The steps that take no lock for a stale one. `pid_of` is the process of a monitor, `is_alive` the
-- process table.
pub data QuietStep (pid_of : Monitor → ℕ) (is_alive : ℕ → Bool) : Race → Race → Type 0 where
  -- `cleanup_stale_lock` finds no file, or the file of a living process
  found_none :
      (m : Monitor) {s : Race}
      → phase_of m s ≡ idle
      → s.lock_file ≡ none
      → QuietStep pid_of is_alive s (set_phase m creating s)
  found_alive :
      (m : Monitor) {s : Race} (f : LockFile)
      → phase_of m s ≡ idle
      → s.lock_file ≡ some f
      → is_alive f.pid ≡ true
      → QuietStep pid_of is_alive s (set_phase m creating s)
  -- `shutil.move` of what is at the path
  moved :
      (m : Monitor) {s : Race}
      → phase_of m s ≡ stale
      → QuietStep pid_of is_alive s (set_phase m creating (record s { lock_file = none }))
  -- `os.open` with `O_EXCL`
  created :
      (m : Monitor) {s : Race}
      → phase_of m s ≡ creating
      → s.lock_file ≡ none
      → QuietStep pid_of is_alive s
          (set_phase m writing (record s { lock_file = some (new_file m) }))
  refused :
      (m : Monitor) {s : Race} (f : LockFile)
      → phase_of m s ≡ creating
      → s.lock_file ≡ some f
      → QuietStep pid_of is_alive s (set_phase m idle s)
  -- `json.dump`
  wrote :
      (m : Monitor) {s : Race}
      → phase_of m s ≡ writing
      → QuietStep pid_of is_alive s
          (set_phase m holding (record s { lock_file = written_file m (pid_of m) s.lock_file }))
  -- `release_lock`
  released :
      (m : Monitor) {s : Race}
      → phase_of m s ≡ holding
      → QuietStep pid_of is_alive s (set_phase m idle (record s { lock_file = none }))
  -- The move, the creation, the writing of the content (the file stays) or the removal fails.
  move_failed :
      (m : Monitor) {s : Race}
      → phase_of m s ≡ stale
      → QuietStep pid_of is_alive s (set_phase m creating s)
  create_failed :
      (m : Monitor) {s : Race}
      → phase_of m s ≡ creating
      → QuietStep pid_of is_alive s (set_phase m idle s)
  write_failed :
      (m : Monitor) {s : Race}
      → phase_of m s ≡ writing
      → QuietStep pid_of is_alive s (set_phase m idle s)
  remove_failed :
      (m : Monitor) {s : Race}
      → phase_of m s ≡ holding
      → QuietStep pid_of is_alive s (set_phase m idle s)

-- All steps.
pub data Step (pid_of : Monitor → ℕ) (is_alive : ℕ → Bool) : Race → Race → Type 0 where
  quiet : {s t : Race} → QuietStep pid_of is_alive s t → Step pid_of is_alive s t
  -- `cleanup_stale_lock` reads no `pid`, or one of a dead process
  found_stale :
      (m : Monitor) {s : Race} (f : LockFile)
      → phase_of m s ≡ idle
      → s.lock_file ≡ some f
      → (not (f.pid == 0) && is_alive f.pid) ≡ false
      → Step pid_of is_alive s (set_phase m stale s)

-- Runs of quiet steps.
pub data QuietRun (pid_of : Monitor → ℕ) (is_alive : ℕ → Bool) : Race → Race → Type 0 where
  done : {s : Race} → QuietRun pid_of is_alive s s
  then_step :
      {s t u : Race}
      → QuietRun pid_of is_alive s t
      → QuietStep pid_of is_alive t u
      → QuietRun pid_of is_alive s u

abbrev pub no_monitor : Race
no_monitor = record { lock_file = none; phase_one = idle; phase_two = idle }

-- Runs of all steps.
pub data Run (pid_of : Monitor → ℕ) (is_alive : ℕ → Bool) : Race → Race → Type 0 where
  at_rest : {s : Race} → Run pid_of is_alive s s
  run_step :
      {s t u : Race} → Run pid_of is_alive s t → Step pid_of is_alive t u → Run pid_of is_alive s u
