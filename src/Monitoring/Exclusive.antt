-- ===== src/Monitoring/Exclusive.antt =====
-- When two monitors exclude each other.
use invoice_hub.Monitoring.Race.{
  LockFile, Monitor, Phase, QuietStep, Race, created, creating, found_alive, found_none, holding,
  idle, is_own, moved, one, refused, released, stale, two, writing, wrote, QuietRun, done,
  no_monitor, then_step, written_file, create_failed, move_failed, remove_failed, write_failed,
}
use invoice_hub.Prelude.{
  Bool, Option, false, none, not, some, true, ℕ, ◌&&◌, ◌||◌, ◌≡◌, Bool-cases, ap, arith, inl, inr,
  refl, sym, true_false, ◌∙◌,
}

abbrev is_stale : Phase → Bool
is_stale idle = false
is_stale stale = true
is_stale creating = false
is_stale writing = false
is_stale holding = false

abbrev is_busy : Phase → Bool
is_busy idle = false
is_busy stale = false
is_busy creating = false
is_busy writing = true
is_busy holding = true

abbrev created_by : Monitor → Option LockFile → Bool
created_by m none = false
created_by m (some f) = is_own m f.creator

-- No monitor has taken a lock for stale, and one past the creation owns the file.
abbrev safe : Race → Bool
safe s =
    not (is_stale s.phase_one)
    && (not (is_stale s.phase_two)
        && ((not (is_busy s.phase_one) || created_by one s.lock_file)
            && (not (is_busy s.phase_two) || created_by two s.lock_file)))

-- A monitor that leaves the competition: what the other one needs.
left_one : (a b p q : Bool) → not a && (not b && (p && q)) ≡ true → not b && q ≡ true
left_one a b p q h = ground arith

left_two : (a b p q : Bool) → not a && (not b && (p && q)) ≡ true → not a && (p && true) ≡ true
left_two a b p q h = ground arith

-- The first to create the file: the other one is not busy.
first_one :
    (a b x q d : Bool)
    → not a && (not b && (x && (not q || d))) ≡ true
    → d ≡ false
    → not b && (not q || false) ≡ true
first_one a b x q d h e = ground arith

first_two :
    (a b p c y : Bool)
    → not a && (not b && ((not p || c) && y)) ≡ true
    → c ≡ false
    → not a && ((not p || false) && true) ≡ true
first_two a b p c y h e = ground arith

-- The holder writes the file that it created.
held_one :
    (a b p c q d c' d' : Bool)
    → not a && (not b && ((not p || c) && (not q || d))) ≡ true
    → p ≡ true
    → c' ≡ c
    → d' ≡ d
    → not b && (c' && (not q || d')) ≡ true
held_one a b p c q d c' d' h e f g = ground arith

held_two :
    (a b p c q d c' d' : Bool)
    → not a && (not b && ((not p || c) && (not q || d))) ≡ true
    → q ≡ true
    → c' ≡ c
    → d' ≡ d
    → not a && ((not p || c') && d') ≡ true
held_two a b p c q d c' d' h e f g = ground arith

stale_one : (a x : Bool) {A : Type 0} → not a && x ≡ true → a ≡ true → A
stale_one a x h e = true_false (sym (clash a x h e))
  where
    clash : (a x : Bool) → not a && x ≡ true → a ≡ true → false ≡ true
    clash a x h e = ground arith

owner_of : (p c : Bool) → not p || c ≡ true → p ≡ true → c ≡ true
owner_of p c h e = ground arith

parts_of :
    (a b x y : Bool)
    → not a && (not b && (x && y)) ≡ true
    → (not b && true ≡ true) × (x ≡ true) × (y ≡ true)
parts_of a b x y h = (ground arith, ground arith, ground arith)

created_by_one : (file : Option LockFile) → created_by one file ≡ true → created_by two file ≡ false
created_by_one none h = refl
created_by_one (some f) h = own_one f.creator h
  where
    own_one : (c : Option Monitor) → is_own one c ≡ true → is_own two c ≡ false
    own_one none h = refl
    own_one (some one) h = refl
    own_one (some two) h = cc

created_by_two : (file : Option LockFile) → created_by two file ≡ true → created_by one file ≡ false
created_by_two none h = refl
created_by_two (some f) h = own_two f.creator h
  where
    own_two : (c : Option Monitor) → is_own two c ≡ true → is_own one c ≡ false
    own_two none h = refl
    own_two (some one) h = cc
    own_two (some two) h = refl

created_by-written_file :
    (m k : Monitor) (pid : ℕ) (file : Option LockFile)
    → created_by k (written_file m pid file) ≡ created_by k file
created_by-written_file m k pid none = refl
created_by-written_file m k pid (some f) = elim (Bool-cases (is_own m f.creator)) [
  | inl e ↦ rw e
  | inr e ↦ rw e
]

-- One past the creation owns the file.
abbrev own : Monitor → Race → Bool
own one s = not (is_busy s.phase_one) || created_by one s.lock_file
own two s = not (is_busy s.phase_two) || created_by two s.lock_file

safe-QuietStep :
    (pid_of : Monitor → ℕ) (is_alive : ℕ → Bool) (s t : Race)
    → QuietStep pid_of is_alive s t
    → safe s ≡ true
    → safe t ≡ true
safe-QuietStep pid_of is_alive s t (found_none one e f) h =
    left_one (is_stale s.phase_one) (is_stale s.phase_two) (own one s) (own two s) h
safe-QuietStep pid_of is_alive s t (found_none two e f) h =
    left_two (is_stale s.phase_one) (is_stale s.phase_two) (own one s) (own two s) h
safe-QuietStep pid_of is_alive s t (found_alive one f e g a) h =
    left_one (is_stale s.phase_one) (is_stale s.phase_two) (own one s) (own two s) h
safe-QuietStep pid_of is_alive s t (found_alive two f e g a) h =
    left_two (is_stale s.phase_one) (is_stale s.phase_two) (own one s) (own two s) h
safe-QuietStep pid_of is_alive s t (moved one e) h =
    stale_one (is_stale s.phase_one) (not (is_stale s.phase_two) && ((own one s) && (own two s))) h
      (ap is_stale e)
safe-QuietStep pid_of is_alive s t (moved two e) h =
    stale_one (is_stale s.phase_two) true
      (parts_of (is_stale s.phase_one) (is_stale s.phase_two) (own one s) (own two s) h).0
      (ap is_stale e)
safe-QuietStep pid_of is_alive s t (created one e f) h =
    first_one (is_stale s.phase_one) (is_stale s.phase_two) (own one s) (is_busy s.phase_two)
      (created_by two s.lock_file) h (ap (created_by two) f)
safe-QuietStep pid_of is_alive s t (created two e f) h =
    first_two (is_stale s.phase_one) (is_stale s.phase_two) (is_busy s.phase_one)
      (created_by one s.lock_file) (own two s) h (ap (created_by one) f)
safe-QuietStep pid_of is_alive s t (refused one f e g) h =
    left_one (is_stale s.phase_one) (is_stale s.phase_two) (own one s) (own two s) h
safe-QuietStep pid_of is_alive s t (refused two f e g) h =
    left_two (is_stale s.phase_one) (is_stale s.phase_two) (own one s) (own two s) h
safe-QuietStep pid_of is_alive s t (wrote one e) h =
    held_one (is_stale s.phase_one) (is_stale s.phase_two) (is_busy s.phase_one)
      (created_by one s.lock_file) (is_busy s.phase_two) (created_by two s.lock_file)
      (created_by one (written_file one (pid_of one) s.lock_file))
      (created_by two (written_file one (pid_of one) s.lock_file)) h (ap is_busy e)
      (created_by-written_file one one (pid_of one) s.lock_file)
      (created_by-written_file one two (pid_of one) s.lock_file)
safe-QuietStep pid_of is_alive s t (wrote two e) h =
    held_two (is_stale s.phase_one) (is_stale s.phase_two) (is_busy s.phase_one)
      (created_by one s.lock_file) (is_busy s.phase_two) (created_by two s.lock_file)
      (created_by one (written_file two (pid_of two) s.lock_file))
      (created_by two (written_file two (pid_of two) s.lock_file)) h (ap is_busy e)
      (created_by-written_file two one (pid_of two) s.lock_file)
      (created_by-written_file two two (pid_of two) s.lock_file)
safe-QuietStep pid_of is_alive s t (released one e) h =
    first_one (is_stale s.phase_one) (is_stale s.phase_two) (own one s) (is_busy s.phase_two)
      (created_by two s.lock_file) h
      (created_by_one s.lock_file (
        owner_of (is_busy s.phase_one) (created_by one s.lock_file)
          (parts_of (is_stale s.phase_one) (is_stale s.phase_two) (own one s) (own two s) h).1
          (ap is_busy e)))
safe-QuietStep pid_of is_alive s t (released two e) h =
    first_two (is_stale s.phase_one) (is_stale s.phase_two) (is_busy s.phase_one)
      (created_by one s.lock_file) (own two s) h
      (created_by_two s.lock_file (
        owner_of (is_busy s.phase_two) (created_by two s.lock_file)
          (parts_of (is_stale s.phase_one) (is_stale s.phase_two) (own one s) (own two s) h).2
          (ap is_busy e)))
safe-QuietStep pid_of is_alive s t (move_failed one e) h =
    stale_one (is_stale s.phase_one) (not (is_stale s.phase_two) && ((own one s) && (own two s))) h
      (ap is_stale e)
safe-QuietStep pid_of is_alive s t (move_failed two e) h =
    stale_one (is_stale s.phase_two) true
      (parts_of (is_stale s.phase_one) (is_stale s.phase_two) (own one s) (own two s) h).0
      (ap is_stale e)
safe-QuietStep pid_of is_alive s t (create_failed one e) h =
    left_one (is_stale s.phase_one) (is_stale s.phase_two) (own one s) (own two s) h
safe-QuietStep pid_of is_alive s t (create_failed two e) h =
    left_two (is_stale s.phase_one) (is_stale s.phase_two) (own one s) (own two s) h
safe-QuietStep pid_of is_alive s t (write_failed one e) h =
    left_one (is_stale s.phase_one) (is_stale s.phase_two) (own one s) (own two s) h
safe-QuietStep pid_of is_alive s t (write_failed two e) h =
    left_two (is_stale s.phase_one) (is_stale s.phase_two) (own one s) (own two s) h
safe-QuietStep pid_of is_alive s t (remove_failed one e) h =
    left_one (is_stale s.phase_one) (is_stale s.phase_two) (own one s) (own two s) h
safe-QuietStep pid_of is_alive s t (remove_failed two e) h =
    left_two (is_stale s.phase_one) (is_stale s.phase_two) (own one s) (own two s) h

QuietRun-safe :
    (pid_of : Monitor → ℕ) (is_alive : ℕ → Bool) (s t : Race)
    → QuietRun pid_of is_alive s t
    → safe s ≡ true
    → safe t ≡ true
QuietRun-safe pid_of is_alive s t done h = h
QuietRun-safe pid_of is_alive s t (then_step run last) h =
    safe-QuietStep pid_of is_alive _ t last (QuietRun-safe pid_of is_alive s _ run h)

not_both :
    (a b p q : Bool) (file : Option LockFile)
    → not a && (not b && ((not p || created_by one file) && (not q || created_by two file))) ≡ true
    → p ≡ true
    → q ≡ true
    → ⊥
not_both a b p q file h e f =
    let h₁ =
      owner_of p (created_by one file)
        (parts_of a b (not p || created_by one file) (not q || created_by two file) h).1 e in
    let h₂ =
      owner_of q (created_by two file)
        (parts_of a b (not p || created_by one file) (not q || created_by two file) h).2 f in
    true_false (sym h₂ ∙ created_by_one file h₁)

-- Two monitors never hold the lock together in a run from no lock in which neither takes the file of
-- the other for stale, however their steps interleave.
pub QuietRun-excludes :
    (pid_of : Monitor → ℕ) (is_alive : ℕ → Bool) (t : Race)
    → QuietRun pid_of is_alive no_monitor t
    → ¬ ((t.phase_one ≡ holding) × (t.phase_two ≡ holding))
QuietRun-excludes pid_of is_alive t run (e, f) =
    not_both (is_stale t.phase_one) (is_stale t.phase_two) (is_busy t.phase_one)
      (is_busy t.phase_two) t.lock_file (QuietRun-safe pid_of is_alive no_monitor t run refl)
      (ap is_busy e) (ap is_busy f)
