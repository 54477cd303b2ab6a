-- ===== src/Monitoring/Unchanged.antt =====
-- What it means that `detect_source_changes` reports no change.
use invoice_hub.Monitoring.Detected.{recorded_lem, stored_of}
use invoice_hub.Monitoring.Changes.{
  Signature, classify, detect_source_changes, is_changed, is_modified, is_unchanged, is_updated,
  put_verdict, recorded, stored_mtime, vanished, verdict_of,
}
use invoice_hub.Prelude.Sorting.{sorted, sorted-is_empty}
use invoice_hub.Prelude.Dict.{Dict, contains, lookup}
use invoice_hub.Prelude.{
  Bool, List, Option, String, [], ap, arith, false, if◌then◌else◌, is_empty, none, not, refl, some,
  true, ℕ, ◌==◌, ◌||◌, ◌∙◌, ◌∷◌, ◌≡◌, All, Bool-cases, inl, inr, sym, true_false,
}

no_change : (a u d : Bool) → not a || not u || not d ≡ false → (a ≡ true) × (u ≡ true) × (d ≡ true)
no_change a u d h = (ground arith, ground arith, ground arith)

-- The stored signature of a file of the folder has its time and its size.
abbrev pub IsCurrent : Dict (Option Signature) → String × Signature → Type 0
IsCurrent previous (key, sig) =
    (old : Signature) × (stored_of (lookup key previous) ≡ some old)
    × ((if old.mtime_ns == 0 then old.mtime else old.mtime_ns) ≡ sig.mtime_ns)
    × (old.size ≡ sig.size)

-- What is stored is stored of a file of the folder.
abbrev pub IsPresent : Dict Signature → String × Option Signature → Type 0
IsPresent current (key, entry) = contains key current ≡ true

unmodified :
    (old sig : Signature)
    → is_modified old sig ≡ false
    → (stored_mtime old ≡ sig.mtime_ns) × (old.size ≡ sig.size)
unfolding is_modified
unmodified old sig h = parts_of (stored_mtime old) sig.mtime_ns old.size sig.size h
  where
    parts_of : (a b c d : ℕ) → not (a == b) || not (c == d) ≡ false → (a ≡ b) × (c ≡ d)
    parts_of a b c d h = (ground arith, ground arith)

quiet :
    (previous : Dict (Option Signature)) (key : String) (sig : Signature)
    (stored : Option Signature) (r : List String × List String)
    → recorded key previous ≡ stored
    → is_empty (put_verdict (verdict_of stored sig) key r).0 ≡ true
    → is_empty (put_verdict (verdict_of stored sig) key r).1 ≡ true
    → IsCurrent previous (key, sig) × (is_empty r.0 ≡ true) × (is_empty r.1 ≡ true)
quiet previous key sig none r found a u = true_false (sym a)
quiet previous key sig (some old) r found a u = elim (Bool-cases (is_modified old sig)) [
  | inl m ↦ true_false (
      sym (
        sym (ap (λ b. is_empty (put_verdict (if b then is_updated else is_unchanged) key r).1) m)
        ∙ u))
  | inr m ↦ (
    (
      old,
      sym (recorded_lem key previous) ∙ found,
      (unmodified old sig m).0,
      (unmodified old sig m).1,
    ),
    sym (ap (λ b. is_empty (put_verdict (if b then is_updated else is_unchanged) key r).0) m) ∙ a,
    sym (ap (λ b. is_empty (put_verdict (if b then is_updated else is_unchanged) key r).1) m) ∙ u,
  )
]

classify-quiet :
    (previous : Dict (Option Signature)) (current : Dict Signature)
    → is_empty (classify previous current).0 ≡ true
    → is_empty (classify previous current).1 ≡ true
    → All (IsCurrent previous) current
unfolding classify
classify-quiet previous [] a u = tt
classify-quiet previous ((key, sig) ∷ current) a u =
    let (now, a₁, u₁) =
      quiet previous key sig (recorded key previous) (classify previous current) refl a u in
    (now, classify-quiet previous current a₁ u₁)

vanished-quiet :
    (current : Dict Signature) (previous : Dict (Option Signature))
    → is_empty (vanished current previous) ≡ true
    → All (IsPresent current) previous
unfolding vanished
vanished-quiet current [] h = tt
vanished-quiet current ((key, entry) ∷ previous) h = elim (Bool-cases (contains key current)) [
  | inl e ↦ (e, vanished-quiet current previous (rw e at h))
  | inr e ↦ true_false (sym (rw e at h))
]

-- Where no change is reported, the folder is what is stored: each file of it is stored with its time
-- and its size, and each stored name is that of a file of the folder.
pub detect_source_changes-unchanged :
    (previous : Dict (Option Signature)) (current : Dict Signature)
    → is_changed (detect_source_changes previous current) ≡ false
    → All (IsCurrent previous) current × All (IsPresent current) previous
unfolding detect_source_changes
detect_source_changes-unchanged previous current h =
    let (added, updated, deleted) =
      no_change (is_empty (sorted (classify previous current).0))
        (is_empty (sorted (classify previous current).1))
        (is_empty (sorted (vanished current previous))) h in
    (
      classify-quiet previous current (sym (sorted-is_empty (classify previous current).0) ∙ added)
          (sym (sorted-is_empty (classify previous current).1) ∙ updated),
      vanished-quiet current previous (sym (sorted-is_empty (vanished current previous)) ∙ deleted),
    )
