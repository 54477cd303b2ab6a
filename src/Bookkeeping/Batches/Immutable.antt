-- ===== src/Bookkeeping/Batches/Immutable.antt =====
-- What the life of a batch keeps, and from which state to which it moves.
use invoice_hub.Bookkeeping.Status.Transactions.{mutate-eq-ok}
use invoice_hub.Bookkeeping.Batches.Observed.{finalize_mode}
use invoice_hub.Bookkeeping.Batches.Register.{
  count_matches, dry_run_batch, record_batch_dry_run, record_dry_run, takes_dry_run, totals_differ,
}
use invoice_hub.Bookkeeping.Status.Store.{commit}
use invoice_hub.Bookkeeping.Batches.Begin.{applying_batch, is_awaiting}
use invoice_hub.Bookkeeping.Batches.Finalize.{finalized_batch, new_receipt, settled_batch_state}
use invoice_hub.Prelude.Dict.{Dict, insert, lookup, lookup-insert_self}
use invoice_hub.Bookkeeping.Status.{Host, VoucherStatusStore, replaced, write_store}
use invoice_hub.Prelude.{
  Bool, List, String, ap, arith, false, none, not, refl, some, str_eq, subst, sym, true, ◌+◌, ◌∙◌,
  ◌≡◌,
}
use invoice_hub.Domain.{
  BatchState, ImportBatch, Mode, Outcome, VoucherState, VoucherStatusItem, applying,
  awaiting_authorization, partial, unknown,
}
use invoice_hub.Bookkeeping.Batches.Shared.{
  BatchHost, DryRunPayload, immutable_batch_payload, verified_batch_file,
}
use invoice_hub.Bookkeeping.Result.{
  >>=-eq-ok, dry_run_count, dry_run_credit, dry_run_debit, dry_run_failed, dry_run_file, not-false,
  not_found, ok, ok-injective, or_raise-eq-ok, raise_if-eq-ok, wrong_batch_state,
}

-- The states in which an observation is taken.
abbrev pub is_observable : BatchState → Bool
is_observable applying = true
is_observable unknown = true
is_observable partial = true
is_observable _ = false

pub is_awaiting→eq : (s : BatchState) → is_awaiting s ≡ true → s ≡ awaiting_authorization
is_awaiting→eq awaiting_authorization h = refl
is_awaiting→eq _ h = ground arith

pub finalize_mode-is_observable :
    (s : BatchState) (m : String) {mode : Mode}
    → finalize_mode s m ≡ ok mode
    → is_observable s ≡ true
unfolding finalize_mode
finalize_mode-is_observable applying m h = refl
finalize_mode-is_observable unknown m h = refl
finalize_mode-is_observable partial m h = refl
finalize_mode-is_observable _ m h = cc

-- What an operation that stores the batch anew has done to it: it took it in a state of `from`, and
-- left it in `target`.
pub record HasAdvanced (from : BatchState → Bool) (target : BatchState) (batch_id : String)
    (current after : VoucherStatusStore) (before updated : ImportBatch) : Type 0 where
  pub found : lookup batch_id current.batches ≡ some before
  pub payload : immutable_batch_payload updated ≡ immutable_batch_payload before
  pub came : from before.state ≡ true
  pub state : updated.state ≡ target
  pub revision : updated.revision ≡ before.revision + 1
  pub there : lookup batch_id after.batches ≡ some updated

-- What the batch that is stored keeps of the batch that was there.
abbrev pub IsAdvanced : (BatchState → Bool) → BatchState → ImportBatch → ImportBatch → Type 0
IsAdvanced from target before updated =
    (immutable_batch_payload updated ≡ immutable_batch_payload before)
    × (from before.state ≡ true)
    × (updated.state ≡ target)
    × (updated.revision ≡ before.revision + 1)

pub stored_batch :
    {T : Type 0} (from : BatchState → Bool) (target : BatchState) (result : T → ImportBatch)
    (host : Host) (batch_id : String) (current after : VoucherStatusStore)
    (before stored_as : ImportBatch) (t u : T) (items : Dict VoucherStatusItem)
    → lookup batch_id current.batches ≡ some before
    → IsAdvanced from target before stored_as
    → result t ≡ stored_as
    → commit host current (replaced items (insert batch_id stored_as current.batches), t)
      ≡ (after, u)
    → HasAdvanced from target batch_id current after before (result u)
unfolding write_store
stored_batch from target result host batch_id current after before stored_as t u items found a
      same_result h =
    let same_batch = sym same_result ∙ ap (λ r. result r.1) h in
    let (payload, came, state, revision) = subst (IsAdvanced from target before) same_batch a in
    record {
      found = found;
      payload = payload;
      came = came;
      state = state;
      revision = revision;
      there =
          ap (λ r. lookup batch_id r.0.batches) (sym h)
          ∙ lookup-insert_self batch_id stored_as current.batches
          ∙ ap some same_batch;
    }

dry_run_batch-IsAdvanced :
    (host : BatchHost) (payload : DryRunPayload) (batch : ImportBatch)
    → takes_dry_run batch.state ≡ true
    → IsAdvanced takes_dry_run awaiting_authorization batch (dry_run_batch host payload batch)
unfolding dry_run_batch immutable_batch_payload
dry_run_batch-IsAdvanced host payload batch h = (refl, h, refl, refl)

pub applying_batch-IsAdvanced :
    (host : BatchHost) (authorization_hash : String) (batch : ImportBatch)
    → is_awaiting batch.state ≡ true
    → IsAdvanced is_awaiting applying batch (applying_batch host authorization_hash batch)
unfolding applying_batch immutable_batch_payload
applying_batch-IsAdvanced host authorization_hash batch h = (refl, h, refl, refl)

pub finalized_batch-IsAdvanced :
    (host : BatchHost) (batch_id seen : String) (outcome : Outcome) (mode : Mode)
    (states : List VoucherState) (batch : ImportBatch)
    → is_observable batch.state ≡ true
    → IsAdvanced is_observable
        (settled_batch_state states)
        batch
        (finalized_batch host seen (new_receipt host batch_id seen outcome mode states) batch)
unfolding finalized_batch new_receipt immutable_batch_payload
finalized_batch-IsAdvanced host batch_id seen outcome mode states batch h = (refl, h, refl, refl)

-- A dry run that returned took a batch in a state that takes one, leaves it in
-- `awaiting_authorization`, keeps its immutable payload, and counts a revision of it.
pub record_batch_dry_run-HasAdvanced :
    (host : BatchHost) (batch_id : String) (payload : DryRunPayload)
    (current after : VoucherStatusStore) (updated : ImportBatch)
    → record_batch_dry_run host batch_id payload current ≡ ok (after, updated)
    → (before : ImportBatch) × HasAdvanced takes_dry_run awaiting_authorization batch_id current
        after before updated
unfolding record_batch_dry_run record_dry_run
record_batch_dry_run-HasAdvanced host batch_id payload current after updated h =
    let (changed, _, _, made, committed) =
      mutate-eq-ok host.base (record_dry_run host batch_id payload) none current h in
    let (batch, found, h₁) =
      or_raise-eq-ok (lookup batch_id current.batches) (not_found batch_id) _ made in
    let (state, h₂) = raise_if-eq-ok (not (takes_dry_run batch.state)) wrong_batch_state _ h₁ in
    let (_, _, h₃) = >>=-eq-ok (verified_batch_file host batch) _ h₂ in
    let (_, h₄) =
      raise_if-eq-ok (not (str_eq payload.file_sha256 batch.file_sha256)) dry_run_file _ h₃ in
    let (_, h₅) = raise_if-eq-ok (not payload.is_ok) dry_run_failed _ h₄ in
    let (_, h₆) =
      raise_if-eq-ok (not (count_matches payload.voucher_count batch.expected_count)) dry_run_count
        _ h₅ in
    let (debit_differs, _, h₇) =
      >>=-eq-ok (totals_differ payload.debit_total batch.expected_debit_total) _ h₆ in
    let (_, h₈) = raise_if-eq-ok debit_differs dry_run_debit _ h₇ in
    let (credit_differs, _, h₉) =
      >>=-eq-ok (totals_differ payload.credit_total batch.expected_credit_total) _ h₈ in
    let (_, h₁₀) = raise_if-eq-ok credit_differs dry_run_credit _ h₉ in
    (
      batch,
      stored_batch takes_dry_run awaiting_authorization (λ x. x) host.base batch_id current after
          batch (dry_run_batch host payload batch) _ updated current.items found
          (dry_run_batch-IsAdvanced host payload batch (not-false _ state)) refl
          (ap (commit host.base current) (ok-injective h₁₀) ∙ committed),
    )
