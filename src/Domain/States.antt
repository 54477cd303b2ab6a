-- ===== src/Domain/States.antt =====
-- The states of a voucher and of an import batch: `VoucherStatusItem.status` and `ImportBatch.state`
-- of src/invoice_hub/domain/models.py.
use invoice_hub.Prelude.{ℕ, String, ◌≡◌, Bool, true, arith, ◌==◌}

pub data VoucherState : Type 0 where
  draft blocked review_pending approved rejected exported importing imported : VoucherState
  import_failed import_failed_confirmed import_unknown reconciled manual_entry : VoucherState

pub data BatchState : Type 0 where
  prepared dry_run_passed awaiting_authorization applying observed : BatchState
  reconciled failed_before_commit partial unknown : BatchState

-- The text of a state, as it stands in the files and in the audit trail.
unfoldable pub state_text : VoucherState → String
state_text draft = "draft"
state_text blocked = "blocked"
state_text review_pending = "review_pending"
state_text approved = "approved"
state_text rejected = "rejected"
state_text exported = "exported"
state_text importing = "importing"
state_text imported = "imported"
state_text import_failed = "import_failed"
state_text import_failed_confirmed = "import_failed_confirmed"
state_text import_unknown = "import_unknown"
state_text VoucherState.reconciled = "reconciled"
state_text manual_entry = "manual_entry"

abbrev pub state_index : VoucherState → ℕ
state_index draft = 0
state_index blocked = 1
state_index review_pending = 2
state_index approved = 3
state_index rejected = 4
state_index exported = 5
state_index importing = 6
state_index imported = 7
state_index import_failed = 8
state_index import_failed_confirmed = 9
state_index import_unknown = 10
state_index VoucherState.reconciled = 11
state_index manual_entry = 12

-- `==` on states
abbrev pub state_eq : VoucherState → VoucherState → Bool
state_eq a b = state_index a == state_index b

pub state_eq→eq : (a b : VoucherState) → state_eq a b ≡ true → a ≡ b
state_eq→eq draft b h = ground arith
state_eq→eq _ b h = ground arith
