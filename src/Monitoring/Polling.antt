-- ===== src/Monitoring/Polling.antt =====
-- src/invoice_hub/monitoring/polling_observer.py: one watch, polled again and again.
use invoice_hub.Prelude.Sorting.{sorted}
use invoice_hub.Prelude.Dict.{Dict, contains, lookup}
use invoice_hub.Prelude.{
  Bool, List, Option, String, [], false, if◌then◌else◌, none, some, true, ℕ, ◌&&◌, ◌++◌, ◌==◌, ◌∷◌,
}

-- `(st_mtime_ns, st_size, st_ino)` of each file
abbrev pub Snapshot : Type 0
Snapshot = Dict (ℕ × ℕ × ℕ)

abbrev pub stat_eq : ℕ × ℕ × ℕ → ℕ × ℕ × ℕ → Bool
stat_eq a b = a.0 == b.0 && (a.1 == b.1 && a.2 == b.2)

-- `a == b` on what a look-up gives
abbrev pub stat_same : Option (ℕ × ℕ × ℕ) → Option (ℕ × ℕ × ℕ) → Bool
stat_same none none = true
stat_same none (some b) = false
stat_same (some a) none = false
stat_same (some a) (some b) = stat_eq a b

-- `previous.keys() & current.keys()` with another value, and the paths of `previous` only
unfoldable pub gone_or_changed : Snapshot → Snapshot → List String
gone_or_changed [] current = []
gone_or_changed ((path, stat) ∷ previous) current =
    let rest = gone_or_changed previous current in
    if stat_same (some stat) (lookup path current) then rest else path ∷ rest

-- The paths of `current` only
unfoldable pub appeared : Snapshot → Snapshot → List String
appeared previous [] = []
appeared previous ((path, _) ∷ current) =
    let rest = appeared previous current in if contains path previous then rest else path ∷ rest

-- The paths that a poll reports, in their order.
unfoldable pub changed_paths : Snapshot → Snapshot → List String
changed_paths previous current =
    sorted (gone_or_changed previous current ++ appeared previous current)

-- The loop of `_run` over the snapshots that are taken: what each poll reports, and the snapshot
-- that is kept. An error of the handler changes neither.
unfoldable pub polls : Snapshot → List Snapshot → List (List String) × Snapshot
polls previous [] = ([], previous)
polls previous (current ∷ later) =
    let rest = polls current later in (changed_paths previous current ∷ rest.0, rest.1)
