-- ===== src/Bookkeeping/Status/Table.antt =====
-- `STATUS_TRANSITIONS` and `LOCKED_STATUSES`.
use invoice_hub.Prelude.{Bool, List, [], ◌∷◌, any}
use invoice_hub.Domain.{
  VoucherState, draft, blocked, review_pending, approved, rejected, exported, importing, imported,
  import_failed, import_failed_confirmed, import_unknown, manual_entry, state_eq,
}

-- `STATUS_TRANSITIONS.get(status, set())`
unfoldable pub next_states : VoucherState → List VoucherState
next_states draft = blocked ∷ review_pending ∷ rejected ∷ manual_entry ∷ []
next_states blocked = draft ∷ manual_entry ∷ []
next_states review_pending = approved ∷ rejected ∷ blocked ∷ []
next_states approved = exported ∷ []
next_states exported = importing ∷ []
next_states importing = imported ∷ import_failed_confirmed ∷ import_unknown ∷ []
next_states import_failed = import_unknown ∷ manual_entry ∷ []
next_states import_failed_confirmed = exported ∷ manual_entry ∷ []
next_states import_unknown = imported ∷ import_failed_confirmed ∷ []
next_states imported = VoucherState.reconciled ∷ []
next_states rejected = draft ∷ []
next_states VoucherState.reconciled = []
next_states manual_entry = []

-- `new_status in allowed`
unfoldable pub can_move : VoucherState → VoucherState → Bool
unfolding next_states
can_move s t = any (λ x. state_eq x t) (next_states s)

-- `status in LOCKED_STATUSES`
unfoldable pub is_locked : VoucherState → Bool
is_locked s =
    any (λ x. state_eq x s)
      (approved ∷ exported ∷ importing ∷ imported ∷ import_failed ∷ import_failed_confirmed
        ∷ import_unknown ∷ VoucherState.reconciled ∷ manual_entry ∷ [])
