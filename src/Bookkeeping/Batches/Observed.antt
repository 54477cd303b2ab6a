-- ===== src/Bookkeeping/Batches/Observed.antt =====
-- The first half of `finalize_import_batch`: what it checks of the payload before any item.
use invoice_hub.Prelude.Text.{is_blank, strip}
use invoice_hub.Bookkeeping.Result.{
  Result, absence_unproved, bad_mode, contradictory_success, duplicate_item, err, failure_unproved,
  incomplete_success, inconsistent_success, item_without_key, ok, or_raise, raise_if,
  readback_missing, reconcile_only_required, wrong_batch_state, ◌>>=◌, ◌>>◌,
}
use invoice_hub.Bookkeeping.Batches.Shared.{FinalizePayload, ObservedItem}
use invoice_hub.Prelude.Dict.{Dict, contains, insert, keys, values}
use invoice_hub.Prelude.{
  Bool, List, Option, String, [], all, any, elem, false, if◌then◌else◌, is_empty, none, not, some,
  str_eq, true, ◌&&◌, ◌||◌, ◌∷◌,
}
use invoice_hub.Domain.{
  BatchState, ImportBatchItem, Mode, Outcome, VoucherState, apply, applying, confirmed_success,
  failed_before_commit, import_failed_confirmed, import_unknown, imported, partial, reconcile_only,
  unknown,
}

abbrev pub mode_of : String → Option Mode
mode_of m =
    if str_eq m "apply"
    then some apply
    else if str_eq m "reconcile_only"
    then some reconcile_only
    else none

abbrev pub outcome_of : String → Option Outcome
outcome_of o =
    if str_eq o "confirmed_success"
    then some confirmed_success
    else if str_eq o "failed_before_commit"
    then some failed_before_commit
    else if str_eq o "partial"
    then some partial
    else if str_eq o "unknown"
    then some unknown
    else none

-- The states that an observation may name.
abbrev pub observed_state_of : String → Option VoucherState
observed_state_of s =
    if str_eq s "imported"
    then some imported
    else if str_eq s "import_failed_confirmed"
    then some import_failed_confirmed
    else if str_eq s "import_unknown"
    then some import_unknown
    else none

-- `mode != "reconcile_only"`
abbrev pub only_reconciling : Mode → Result Mode
only_reconciling apply = err reconcile_only_required
only_reconciling reconcile_only = ok reconcile_only

-- The mode of the call, by the state of the batch.
unfoldable pub finalize_mode : BatchState → String → Result Mode
finalize_mode applying m = or_raise (mode_of m) bad_mode
finalize_mode unknown m = or_raise (mode_of m) reconcile_only_required >>= only_reconciling
finalize_mode partial m = or_raise (mode_of m) reconcile_only_required >>= only_reconciling
finalize_mode _ m = err wrong_batch_state

-- The loop over `raw_observed`: each entry needs a key, and no key comes twice.
unfoldable pub read_observed :
    List (Option ObservedItem) → Dict ObservedItem → Result (Dict ObservedItem)
read_observed [] entries = ok entries
read_observed (raw ∷ raws) entries = do
  raw_item ← or_raise raw item_without_key
  raise_if (is_blank raw_item.posting_key) item_without_key
  let key = strip raw_item.posting_key
  raise_if (contains key entries) duplicate_item
  read_observed raws (insert key raw_item entries)

-- `set(xs) <= set(ys)`
abbrev pub subset : List String → List String → Bool
subset xs ys = all (λ x. elem x ys) xs

-- `set(xs) == set(ys)`
abbrev pub same_set : List String → List String → Bool
same_set xs ys = subset xs ys && subset ys xs

abbrev pub batch_keys : List ImportBatchItem → List String
batch_keys [] = []
batch_keys (b ∷ bs) = b.posting_key ∷ batch_keys bs

abbrev pub is_observed_as : String → ObservedItem → Bool
is_observed_as s o = str_eq o.observed_state s

-- `failed_observation_keys`
abbrev pub failed_keys : Dict ObservedItem → List String
failed_keys [] = []
failed_keys ((k, o) ∷ entries) =
    let rest = failed_keys entries in
    if is_observed_as "import_failed_confirmed" o then k ∷ rest else rest

abbrev pub is_success : Outcome → Bool
is_success confirmed_success = true
is_success _ = false

abbrev pub is_failure : Outcome → Bool
is_failure failed_before_commit = true
is_failure _ = false

abbrev pub is_applying : BatchState → Bool
is_applying applying = true
is_applying _ = false

abbrev pub is_apply : Mode → Bool
is_apply apply = true
is_apply reconcile_only = false

-- What a confirmed success must bring.
unfoldable pub check_success : FinalizePayload → Dict ObservedItem → List String → Result (Unit {0})
check_success payload entries expected = do
  raise_if (not (same_set (keys entries) expected)) incomplete_success
  raise_if (any (λ o. not (is_observed_as "imported" o)) (values entries)) inconsistent_success
  raise_if (payload.commit_not_attempted || payload.ledger_absence_confirmed) contradictory_success
  raise_if (is_blank payload.readback_hash) readback_missing

-- What a confirmed failure must prove.
unfoldable pub failure_is_proved :
    BatchState → Mode → FinalizePayload → Dict ObservedItem → List String → Bool
failure_is_proved state mode payload entries expected =
    is_applying state && is_apply mode && payload.commit_not_attempted && is_empty entries
    || not (is_apply mode)
      && not (is_blank payload.readback_hash)
      && payload.ledger_absence_confirmed
      && same_set (keys entries) expected
      && same_set (failed_keys entries) expected

-- The checks on the evidence.
unfoldable pub check_evidence :
    BatchState
    → Mode
    → Outcome
    → FinalizePayload
    → Dict ObservedItem
    → List String
    → Result (Unit {0})
check_evidence state mode outcome payload entries expected = do
  if is_success outcome then check_success payload entries expected else ok tt
  raise_if (any (is_observed_as "imported") (values entries) && is_blank payload.readback_hash)
      readback_missing
  raise_if
      (not (is_empty (failed_keys entries))
        && (is_blank payload.readback_hash || not payload.ledger_absence_confirmed))
      absence_unproved
  raise_if (is_failure outcome && not (failure_is_proved state mode payload entries expected))
      failure_unproved
