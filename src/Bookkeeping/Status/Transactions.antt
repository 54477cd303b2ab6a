-- ===== src/Bookkeeping/Status/Transactions.antt =====
-- What a transaction of `mutate_voucher_status` guarantees, whatever its mutator.
use invoice_hub.Prelude.{
  Option, arith, false, if◌then◌else◌, some, ℕ, ◌+◌, ◌≡◌, ap, subst, sym, ◌∙◌, String, refl, str_eq,
}
use invoice_hub.Domain.{ImportBatch, VoucherStatusItem}
use invoice_hub.Prelude.Dict.{Dict, insert, lookup, lookup-insert}
use invoice_hub.Bookkeeping.Status.Store.{
  Change, Host, VoucherStatusStore, commit, mutate_voucher_status, needs_migration, replaced,
  revision_guard, no_overrides, write_store,
}
use invoice_hub.Bookkeeping.Result.{
  >>=-eq-ok, Result, err, migration_required, ok, ok-injective, raise_if-eq-ok, revision_conflict,
}

-- A transaction that returned: its guards held, and the mutator's change is committed.
pub mutate-eq-ok {ℓ} :
    {T : Type ℓ} (host : Host) (m : VoucherStatusStore → Result (Change × T)) (expected : Option ℕ)
    (current : VoucherStatusStore) {r : VoucherStatusStore × T}
    → mutate_voucher_status host m expected current ≡ ok r
    → (changed : Change × T) × (needs_migration current ≡ false)
      × (revision_guard expected current ≡ ok tt)
      × (m current ≡ ok changed)
      × (commit host current changed ≡ r)
unfolding mutate_voucher_status
mutate-eq-ok host m expected current h =
    let (fresh, h₁) = raise_if-eq-ok (needs_migration current) migration_required _ h in
    let (_, guarded, h₂) = >>=-eq-ok (revision_guard expected current) _ h₁ in
    let (changed, made, h₃) = >>=-eq-ok (m current) _ h₂ in
    (changed, fresh, guarded, made, ok-injective h₃)

-- A guard that passed: the revision is the expected one.
pub revision_guard-eq-ok :
    (expected : ℕ) (current : VoucherStatusStore)
    → revision_guard (some expected) current ≡ ok tt
    → current.revision ≡ expected
revision_guard-eq-ok expected current h = ground arith

written_next :
    {U : Type 0} (host : Host) (n : VoucherStatusStore → Result (Change × U)) (expected : ℕ)
    (current : VoucherStatusStore) (items : Dict VoucherStatusItem) (batches : Dict ImportBatch)
    → current.revision ≡ expected
    → mutate_voucher_status host n
        (some expected)
        (write_store host current items batches no_overrides)
      ≡ err (revision_conflict expected (expected + 1))
unfolding mutate_voucher_status write_store
written_next host n expected current items batches h = ground arith

-- Of two writers that read the same revision and both change the store, the second is refused.
pub mutate_lost_update :
    {T U : Type 0} (host : Host) (m : VoucherStatusStore → Result (Change × T))
    (n : VoucherStatusStore → Result (Change × U)) (expected : ℕ) (current : VoucherStatusStore)
    (items : Dict VoucherStatusItem) (batches : Dict ImportBatch) (t : T)
    {r : VoucherStatusStore × T}
    → m current ≡ ok (replaced items batches, t)
    → mutate_voucher_status host m (some expected) current ≡ ok r
    → mutate_voucher_status host n (some expected) r.0
      ≡ err (revision_conflict expected (expected + 1))
mutate_lost_update host m n expected current items batches t {r} made h =
    let (changed, _, guarded, made', committed) = mutate-eq-ok host m (some expected) current h in
    subst
      (λ x.
        mutate_voucher_status host n (some expected) x.0
        ≡ err (revision_conflict expected (expected + 1)))
      (ap (commit host current) (ok-injective (sym made ∙ made')) ∙ committed)
      (written_next host n expected current items batches
        (revision_guard-eq-ok expected current guarded))

module _ (host : Host) (current : VoucherStatusStore) where
  pub write_store-lookup-insert :
      (key : String) (item : VoucherStatusItem) (j : String)
      → lookup j
          (write_store host current
            (insert key item current.items)
            current.batches
            no_overrides).items
        ≡ (if str_eq key j then some item else lookup j current.items)
  unfolding write_store
  write_store-lookup-insert key item j = lookup-insert j key item current.items

  pub write_store-batches :
      (items : Dict VoucherStatusItem) (batches : Dict ImportBatch)
      → (write_store host current items batches no_overrides).batches ≡ batches
  unfolding write_store
  write_store-batches items batches = refl

  pub write_store-items :
      (items : Dict VoucherStatusItem) (batches : Dict ImportBatch)
      → (write_store host current items batches no_overrides).items ≡ items
  unfolding write_store
  write_store-items items batches = refl

  pub write_store-revision :
      (items : Dict VoucherStatusItem) (batches : Dict ImportBatch)
      → (write_store host current items batches no_overrides).revision ≡ current.revision + 1
  unfolding write_store
  write_store-revision items batches = refl
