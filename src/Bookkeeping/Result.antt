-- ===== src/Bookkeeping/Result.antt =====
-- What bookkeeping raises, as values, and the chain of fallible steps. Each constructor stands for
-- one `raise` (or for a few that a caller cannot tell apart but by the message).
use invoice_hub.Prelude.{
  ℕ, String, ◌≡◌, refl, Bool, true, false, Option, none, some, arith, not, List,
}

pub data Error : Type 0 where
  -- `KeyError`
  not_found : String → Error
  -- `BookkeepingRevisionConflict(expected, current)`
  revision_conflict : ℕ → ℕ → Error
  -- `VoucherProposalRevisionConflict(expected, current)`
  proposal_conflict : String → String → Error
  -- `VoucherStatusMigrationRequired`
  migration_required : Error
  -- `ValueError`, by its message
  illegal_transition identity_locked : Error
  hash_conflict not_approved revision_changed : Error
  wrong_batch_state file_missing file_changed : Error
  dry_run_file dry_run_failed dry_run_count dry_run_debit dry_run_credit : Error
  authorization_unbound authorization_incomplete item_not_exported : Error
  bad_mode reconcile_only_required bad_outcome items_not_list item_without_key : Error
  duplicate_item unexpected_item incomplete_success inconsistent_success contradictory_success :
      Error
  readback_missing absence_unproved failure_unproved item_not_importing : Error
  bad_observed_state terminal_rewritten signature_mismatch voucher_no_mismatch : Error
  voucher_no_missing : Error
  bad_amount no_command not_editable proposal_tampered no_source_lines : Error
  duplicate_source_line unknown_source_line bad_allocation_id no_project : Error
  negative_allocation unbalanced_allocation unallocated_source allocation_sum : Error
  unknown_line duplicate_decision no_account unknown_account account_unusable : Error
  bad_project_value bad_auxiliary : Error
  bad_date date_order mapping_unbound : Error
  source_changed migration_conflict backup_differs backup_corrupt : Error
  duplicate_scope bound_elsewhere rules_unbound replaced_missing : Error
  ai_replaces manual_protected replacement_required scope_taken : Error
  -- `MappingAmbiguityError`, with its `rule_ids`
  mapping_ambiguous : List String → Error

-- A value, or what was raised in its place.
pub data Result {κ} (Value : Type κ) : Type κ where
  err : Error → Result Value
  ok : Value → Result Value

-- A statement, and the statements after it: the first error ends the chain.
infixl 5 ◌>>=◌ ◌>>◌
abbrev pub ◌>>=◌ {κ μ} :
    {Value : Type κ} {Final : Type μ} → Result Value → (Value → Result Final) → Result Final
err raised >>= rest = err raised
ok value >>= rest = rest value

abbrev pub ◌>>◌ {κ} : {Final : Type κ} → Result (Unit {0}) → Result Final → Result Final
check >> rest = check >>= (λ _. rest)

-- `if test: raise e`
abbrev pub raise_if : Bool → Error → Result (Unit {0})
raise_if true e = err e
raise_if false e = ok tt

-- `if value is None: raise e`
abbrev pub or_raise {ℓ} : {A : Type ℓ} → Option A → Error → Result A
or_raise none e = err e
or_raise (some a) e = ok a

-- A chain that returned: its first step did, and so did the rest.
pub >>=-eq-ok {κ μ} :
    {Value : Type κ} {Final : Type μ} (step : Result Value) (rest : Value → Result Final)
    {final : Final}
    → (step >>= rest) ≡ ok final
    → (value : Value) × (step ≡ ok value) × (rest value ≡ ok final)
>>=-eq-ok (err raised) rest h = cc
>>=-eq-ok (ok value) rest h = (value, refl, h)

-- A guard that let the rest run was false.
pub raise_if-eq-ok {ℓ} :
    {B : Type ℓ} (t : Bool) (e : Error) (k : Result B) {b : B}
    → (raise_if t e >> k) ≡ ok b
    → (t ≡ false) × (k ≡ ok b)
raise_if-eq-ok true e k h = cc
raise_if-eq-ok false e k h = (refl, h)

pub ok-injective {ℓ} : {A : Type ℓ} {a b : A} → ok a ≡ ok b → a ≡ b
ok-injective h = cc

-- A value that was there for the rest to run.
pub or_raise-eq-ok {ℓ κ} :
    {A : Type ℓ} {B : Type κ} (o : Option A) (e : Error) (f : A → Result B) {b : B}
    → (or_raise o e >>= f) ≡ ok b
    → (a : A) × (o ≡ some a) × (f a ≡ ok b)
or_raise-eq-ok none e f h = cc
or_raise-eq-ok (some a) e f h = (a, refl, h)

pub not-false : (b : Bool) → not b ≡ false → b ≡ true
not-false b h = ground arith
