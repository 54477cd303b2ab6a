-- ===== src/Monitoring/Changes.antt =====
-- `SourceChangeSet` and `detect_source_changes`: `previous` is what the last synchronization stored
-- of each file, `current` is the snapshot of the folder.
use invoice_hub.Prelude.Sorting.{sorted}
use invoice_hub.Prelude.Dict.{Dict, contains, lookup}
use invoice_hub.Prelude.{
  Bool, List, Option, String, [], if◌then◌else◌, is_empty, none, not, some, ℕ, ◌==◌, ◌||◌, ◌∷◌,
}

-- A count that a dictionary lacks, or that is `None`, reads as 0.
pub record Signature : Type 0 where
  pub mtime_ns : ℕ
  pub mtime : ℕ
  pub size : ℕ

pub record SourceChangeSet : Type 0 where
  pub added : List String
  pub updated : List String
  pub deleted : List String

-- `SourceChangeSet.changed`
abbrev pub is_changed : SourceChangeSet → Bool
is_changed c = not (is_empty c.added) || not (is_empty c.updated) || not (is_empty c.deleted)

-- `int(old.get("mtime_ns") or old.get("mtime") or 0)`
abbrev pub stored_mtime : Signature → ℕ
stored_mtime old = if old.mtime_ns == 0 then old.mtime else old.mtime_ns

unfoldable pub is_modified : Signature → Signature → Bool
is_modified old sig = not (stored_mtime old == sig.mtime_ns) || not (old.size == sig.size)

-- What is stored of a file: `none` also where its entry is an empty dictionary.
unfoldable pub recorded : String → Dict (Option Signature) → Option Signature
recorded key previous = elim (lookup key previous) [ none ↦ none | some entry ↦ entry ]

pub data Verdict : Type 0 where
  is_added is_updated is_unchanged : Verdict

abbrev pub verdict_of : Option Signature → Signature → Verdict
verdict_of none sig = is_added
verdict_of (some old) sig = if is_modified old sig then is_updated else is_unchanged

-- A round of the first loop.
abbrev pub put_verdict : Verdict → String → List String × List String → List String × List String
put_verdict is_added key (added, updated) = (key ∷ added, updated)
put_verdict is_updated key (added, updated) = (added, key ∷ updated)
put_verdict is_unchanged key (added, updated) = (added, updated)

-- The first loop: the files added and the files updated.
unfoldable pub classify : Dict (Option Signature) → Dict Signature → List String × List String
classify previous [] = ([], [])
classify previous ((key, sig) ∷ current) =
    put_verdict (verdict_of (recorded key previous) sig) key (classify previous current)

-- The second loop: the files deleted.
unfoldable pub vanished : Dict Signature → Dict (Option Signature) → List String
vanished current [] = []
vanished current ((key, _) ∷ previous) =
    let rest = vanished current previous in if contains key current then rest else key ∷ rest

unfoldable pub detect_source_changes : Dict (Option Signature) → Dict Signature → SourceChangeSet
detect_source_changes previous current =
    let (added, updated) = classify previous current in
    record {
      added = sorted added;
      updated = sorted updated;
      deleted = sorted (vanished current previous);
    }
