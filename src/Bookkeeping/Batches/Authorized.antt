-- ===== src/Bookkeeping/Batches/Authorized.antt =====
-- What a begin of an import asks of its authorization.
use invoice_hub.Bookkeeping.Batches.Evidence.{not_raised}
use invoice_hub.Bookkeeping.Status.Transactions.{mutate-eq-ok}
use invoice_hub.Prelude.Dict.{lookup}
use invoice_hub.Prelude.Text.{is_blank}
use invoice_hub.Bookkeeping.Status.Store.{commit}
use invoice_hub.Bookkeeping.Batches.Imported.{both_true}
use invoice_hub.Bookkeeping.Batches.Begin.{
  applying_batch, begin, begin_import_batch, import_items, is_awaiting, is_bound,
  stripped_authorization,
}
use invoice_hub.Bookkeeping.Status.{VoucherStatusStore}
use invoice_hub.Domain.{ImportBatch, awaiting_authorization, applying}
use invoice_hub.Bookkeeping.Batches.Immutable.{
  HasAdvanced, applying_batch-IsAdvanced, is_awaiting→eq, stored_batch,
}
use invoice_hub.Prelude.{
  Bool, String, ap, arith, false, none, not, refl, some, str_eq, str_eq→eq, true, ◌||◌, ◌∙◌, ◌≡◌,
}
use invoice_hub.Bookkeeping.Batches.Shared.{Authorization, BatchHost, verified_batch_file}
use invoice_hub.Bookkeeping.Result.{
  >>=-eq-ok, authorization_incomplete, authorization_unbound, file_missing, not-false, not_found,
  ok, ok-injective, or_raise-eq-ok, raise_if-eq-ok, wrong_batch_state,
}

-- What an authorization that was taken says.
pub record IsAuthorized (host : BatchHost) (authorization : Authorization) (batch : ImportBatch)
    : Type 0 where
  pub same_batch : authorization.batch_id ≡ batch.batch_id
  pub same_file : authorization.file_sha256 ≡ batch.file_sha256
  pub same_ledger : authorization.ledger_name ≡ batch.ledger_name
  pub same_period : authorization.period ≡ batch.period
  pub on_disk : host.file_sha256 batch.file_path ≡ some batch.file_sha256
  pub command : is_blank authorization.command_id ≡ false
  pub signed_by : is_blank authorization.authorized_by ≡ false

verified_batch_file-on_disk :
    (host : BatchHost) (batch : ImportBatch) {u : Unit {0}}
    → verified_batch_file host batch ≡ ok u
    → host.file_sha256 batch.file_path ≡ some batch.file_sha256
unfolding verified_batch_file
verified_batch_file-on_disk host batch h =
    let (found, there, h₁) = or_raise-eq-ok (host.file_sha256 batch.file_path) file_missing _ h in
    there ∙ ap some (str_eq→eq found batch.file_sha256 (not-false _ (not_raised _ _ h₁)))

is_bound→eq :
    (a : Authorization) (batch : ImportBatch)
    → is_bound a batch ≡ true
    → (a.batch_id ≡ batch.batch_id)
      × (a.file_sha256 ≡ batch.file_sha256)
      × (a.ledger_name ≡ batch.ledger_name)
      × (a.period ≡ batch.period)
unfolding is_bound
is_bound→eq a batch h =
    let (id, h₁) = both_true (str_eq a.batch_id batch.batch_id) _ h in
    let (file, h₂) = both_true (str_eq a.file_sha256 batch.file_sha256) _ h₁ in
    let (ledger, period) = both_true (str_eq a.ledger_name batch.ledger_name) _ h₂ in
    (str_eq→eq _ _ id, str_eq→eq _ _ file, str_eq→eq _ _ ledger, str_eq→eq _ _ period)

neither : (a b : Bool) → a || b ≡ false → (a ≡ false) × (b ≡ false)
neither a b h = (ground arith, ground arith)

-- A begin that returned had an authorization of this very batch, file, ledger and period, with a
-- command and a signer, and the file on disk is that of the batch; it keeps the immutable payload,
-- and moves the batch from `awaiting_authorization` to `applying`.
pub begin_import_batch-IsAuthorized :
    (host : BatchHost) (batch_id : String) (authorization : Authorization)
    (current after : VoucherStatusStore) (updated : ImportBatch)
    → begin_import_batch host batch_id authorization current ≡ ok (after, updated)
    → (before : ImportBatch) × HasAdvanced is_awaiting applying batch_id current after before
        updated
      × IsAuthorized host authorization before
      × (before.state ≡ awaiting_authorization)
unfolding begin_import_batch begin
begin_import_batch-IsAuthorized host batch_id authorization current after updated h =
    let (changed, _, _, made, committed) =
      mutate-eq-ok host.base (begin host batch_id authorization) none current h in
    let (batch, found, h₁) =
      or_raise-eq-ok (lookup batch_id current.batches) (not_found batch_id) _ made in
    let (state, h₂) = raise_if-eq-ok (not (is_awaiting batch.state)) wrong_batch_state _ h₁ in
    let (_, verified, h₃) = >>=-eq-ok (verified_batch_file host batch) _ h₂ in
    let (bound, h₄) =
      raise_if-eq-ok (not (is_bound authorization batch)) authorization_unbound _ h₃ in
    let (full, h₅) =
      raise_if-eq-ok (is_blank authorization.command_id || is_blank authorization.authorized_by)
        authorization_incomplete _ h₄ in
    let hash = host.authorization_sha256 (stripped_authorization authorization) in
    let (items, _, h₆) =
      >>=-eq-ok (import_items host batch_id hash batch.items current.items) _ h₅ in
    let awaiting = not-false _ state in
    let (same_batch, same_file, same_ledger, same_period) =
      is_bound→eq authorization batch (not-false _ bound) in
    let (command, signed_by) = neither (is_blank authorization.command_id) _ full in
    (
      batch,
      stored_batch is_awaiting applying (λ x. x) host.base batch_id current after batch
          (applying_batch host hash batch) _ updated items found
          (applying_batch-IsAdvanced host hash batch awaiting) refl
          (ap (commit host.base current) (ok-injective h₆) ∙ committed),
      record {
        same_batch = same_batch;
        same_file = same_file;
        same_ledger = same_ledger;
        same_period = same_period;
        on_disk = verified_batch_file-on_disk host batch verified;
        command = command;
        signed_by = signed_by;
      },
      is_awaiting→eq batch.state awaiting,
    )
