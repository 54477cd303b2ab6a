-- ===== src/Monitoring/Detected.antt =====
-- What `detect_source_changes` reports.
use invoice_hub.Monitoring.Changes.{
  Signature, Verdict, classify, detect_source_changes, is_added, is_modified, is_unchanged,
  is_updated, put_verdict, recorded, vanished, verdict_of,
}
use invoice_hub.Prelude.Sorting.{sorted-elem}
use invoice_hub.Prelude.Dict.{Dict, contains, lookup}
use invoice_hub.Prelude.{
  Bool, List, Option, String, [], ap, arith, elem, false, if◌then◌else◌, none, not, refl, some,
  str_eq, true, ◌&&◌, ◌==◌, ◌||◌, ◌∙◌, ◌∷◌, ◌≡◌, Bool-cases, inl, inr, str_eq→eq, sym,
}

abbrev pub is_none {ℓ} : {A : Type ℓ} → Option A → Bool
is_none none = true
is_none (some _) = false

by_key :
    (hit rest near far : Bool)
    → (hit ≡ true → near ≡ far)
    → near && hit || rest && far ≡ (hit || rest) && far
by_key true rest near far f = ground (arith, f refl)
by_key false rest near far f = ground arith

abbrev is_new : Verdict → Bool
is_new is_added = true
is_new is_updated = false
is_new is_unchanged = false

put_vanished :
    (k key : String) (known : Bool) (rest : List String)
    → elem k (if known then rest else key ∷ rest) ≡ not known && str_eq key k || elem k rest
put_vanished k key true rest = refl
put_vanished k key false rest = refl

put_verdict-added :
    (k key : String) (v : Verdict) (r : List String × List String)
    → elem k (put_verdict v key r).0 ≡ is_new v && str_eq key k || elem k r.0
put_verdict-added k key is_added r = refl
put_verdict-added k key is_updated r = refl
put_verdict-added k key is_unchanged r = refl

verdict_of-is_new :
    (old : Option Signature) (sig : Signature) → is_new (verdict_of old sig) ≡ is_none old
verdict_of-is_new none sig = refl
verdict_of-is_new (some old) sig = ground arith

lookup-step_some {ℓ} :
    {V : Type ℓ} (k key : String) (v : V) (d : Dict V)
    → contains k ((key, v) ∷ d) ≡ str_eq key k || contains k d
unfolding lookup
lookup-step_some k key v d = ground arith

classify-added :
    (k : String) (previous : Dict (Option Signature)) (current : Dict Signature)
    → elem k (classify previous current).0 ≡ contains k current && is_none (recorded k previous)
unfolding classify lookup
classify-added k previous [] = refl
classify-added k previous ((key, sig) ∷ current) =
    put_verdict-added k key (verdict_of (recorded key previous) sig) (classify previous current)
    ∙ rw (verdict_of-is_new (recorded key previous) sig) (
        rw (classify-added k previous current) (
          rw (lookup-step_some k key sig current) (
            by_key (str_eq key k) (contains k current) (is_none (recorded key previous))
              (is_none (recorded k previous))
              (λ e. ap (λ x. is_none (recorded x previous)) (str_eq→eq key k e)))))

vanished-elem :
    (k : String) (current : Dict Signature) (previous : Dict (Option Signature))
    → elem k (vanished current previous) ≡ contains k previous && not (contains k current)
unfolding vanished lookup
vanished-elem k current [] = refl
vanished-elem k current ((key, e) ∷ previous) =
    put_vanished k key (contains key current) (vanished current previous)
    ∙ rw (vanished-elem k current previous) (
        rw (lookup-step_some k key e previous) (
          by_key (str_eq key k) (contains k previous) (not (contains key current))
            (not (contains k current))
            (λ h. ap (λ x. not (contains x current)) (str_eq→eq key k h))))

-- The time and the size that are stored of a file are those of the folder; the older field `mtime`
-- counts where `mtime_ns` is 0.
abbrev pub is_same : Signature → Signature → Bool
is_same old sig =
    (if old.mtime_ns == 0 then old.mtime == sig.mtime_ns else old.mtime_ns == sig.mtime_ns)
    && old.size == sig.size

-- Both are there, and are not the same.
abbrev pub differs : Option Signature → Option Signature → Bool
differs (some old) (some sig) = not (is_same old sig)
differs _ _ = false

-- No file is twice in a snapshot.
abbrev pub AreFilesDistinct : Dict Signature → Type 0
AreFilesDistinct [] = Unit
AreFilesDistinct ((key, sig) ∷ rest) = (lookup key rest ≡ none) × AreFilesDistinct rest

is_modified-is_same : (old sig : Signature) → is_modified old sig ≡ not (is_same old sig)
unfolding is_modified
is_modified-is_same old sig = elim (Bool-cases (old.mtime_ns == 0)) [
  | inl e ↦ rw e (ground arith)
  | inr e ↦ rw e (ground arith)
]

abbrev is_update : Verdict → Bool
is_update is_added = false
is_update is_updated = true
is_update is_unchanged = false

put_verdict-updated :
    (k key : String) (v : Verdict) (r : List String × List String)
    → elem k (put_verdict v key r).1 ≡ is_update v && str_eq key k || elem k r.1
put_verdict-updated k key is_added r = refl
put_verdict-updated k key is_updated r = refl
put_verdict-updated k key is_unchanged r = refl

verdict_of-is_update :
    (old : Option Signature) (sig : Signature)
    → is_update (verdict_of old sig) ≡ differs old (some sig)
verdict_of-is_update none sig = refl
verdict_of-is_update (some old) sig =
    is_update_if (is_modified old sig) ∙ is_modified-is_same old sig
  where
    is_update_if : (b : Bool) → is_update (if b then is_updated else is_unchanged) ≡ b
    is_update_if true = refl
    is_update_if false = refl

differs-none : (old : Option Signature) → differs old none ≡ false
differs-none none = refl
differs-none (some old) = refl

classify-updated :
    (k : String) (previous : Dict (Option Signature)) (current : Dict Signature)
    → AreFilesDistinct current
    → elem k (classify previous current).1 ≡ differs (recorded k previous) (lookup k current)
unfolding classify lookup
classify-updated k previous [] distinct = sym (differs-none (recorded k previous))
classify-updated k previous ((key, sig) ∷ current) (fresh, distinct) =
    put_verdict-updated k key (verdict_of (recorded key previous) sig) (classify previous current)
    ∙ rw (verdict_of-is_update (recorded key previous) sig) (
        rw (classify-updated k previous current distinct) (elim (Bool-cases (str_eq key k)) [
          | inl e ↦
              let same_key = str_eq→eq key k e in
              let rest : differs (recorded k previous) (lookup k current) ≡ false =
                ap (differs (recorded k previous))
                  (ap (λ x. lookup x current) (sym same_key) ∙ fresh)
                ∙ differs-none (recorded k previous) in
              rw e (
                rw rest (
                  both_of (differs (recorded key previous) (some sig))
                  ∙ ap (λ x. differs (recorded x previous) (some sig)) same_key))
          | inr e ↦ rw e (none_of (differs (recorded key previous) (some sig)) _)
        ]))
  where
    both_of : (b : Bool) → b && true || false ≡ b
    both_of b = ground arith

    none_of : (b c : Bool) → b && false || c ≡ c
    none_of b c = ground arith

-- What an entry says of its file: nothing where it is empty.
abbrev pub stored_of : Option (Option Signature) → Option Signature
stored_of none = none
stored_of (some entry) = entry

pub recorded_lem :
    (k : String) (previous : Dict (Option Signature))
    → recorded k previous ≡ stored_of (lookup k previous)
unfolding recorded
recorded_lem k previous = flat (lookup k previous)
  where
    flat :
        (o : Option (Option Signature)) → elim o [ none ↦ none | some entry ↦ entry ] ≡ stored_of o
    flat none = refl
    flat (some entry) = refl

-- The three lists of changes are exact, for a snapshot that has no file twice: a file is added where
-- the folder has it and nothing is stored of it, updated where the folder has it and the time or the
-- size that is stored of it is another, and deleted where something is stored under its name and the
-- folder has it no more.
pub detect_source_changes-exact :
    (k : String) (previous : Dict (Option Signature)) (current : Dict Signature)
    → AreFilesDistinct current
    → let c = detect_source_changes previous current in
      (elem k c.added ≡ contains k current && is_none (stored_of (lookup k previous)))
      × (elem k c.updated ≡ differs (stored_of (lookup k previous)) (lookup k current))
      × (elem k c.deleted ≡ contains k previous && not (contains k current))
unfolding detect_source_changes
detect_source_changes-exact k previous current distinct = (
  sorted-elem k (classify previous current).0
      ∙ classify-added k previous current
      ∙ ap (λ o. contains k current && is_none o) (recorded_lem k previous),
  sorted-elem k (classify previous current).1
      ∙ classify-updated k previous current distinct
      ∙ ap (λ o. differs o (lookup k current)) (recorded_lem k previous),
  sorted-elem k (vanished current previous) ∙ vanished-elem k current previous,
)
