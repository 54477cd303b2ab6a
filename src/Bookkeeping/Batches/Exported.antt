-- ===== src/Bookkeeping/Batches/Exported.antt =====
-- What a registration of a batch does to its vouchers.
use invoice_hub.Bookkeeping.Status.Transactions.{mutate-eq-ok}
use invoice_hub.Bookkeeping.Batches.Register.{
  export_items, exported_item, register, register_export_batch, register_from,
}
use invoice_hub.Bookkeeping.Status.Store.{commit}
use invoice_hub.Domain.{
  ImportBatch, ImportBatchItem, VoucherStatusItem, approved, exported, state_eq, state_eq→eq,
}
use invoice_hub.Prelude.Dict.{Dict, insert, lookup, lookup-insert, lookup-insert_self}
use invoice_hub.Bookkeeping.Status.{Change, VoucherStatusStore, write_store}
use invoice_hub.Bookkeeping.Batches.Shared.{BatchHost}
use invoice_hub.Prelude.{
  All, All-map, Bool-cases, List, Option, String, [], ap, if◌then◌else◌, inl, inr, none, not, refl,
  some, some-injective, str_eq, str_eq→eq, subst, sym, true_false, ℕ, ◌∙◌, ◌∷◌, ◌≡◌, ◌⊎◌,
}
use invoice_hub.Bookkeeping.Result.{
  >>=-eq-ok, hash_conflict, not_approved, not-false, not_found, ok, ok-injective, or_raise-eq-ok,
  raise_if-eq-ok, revision_changed,
}

-- A voucher of a batch that is exported: it was approved, in the revision that the batch holds, and
-- is now exported in the batch, with the number that is planned for it.
pub record IsExported (batch : ImportBatch) (items after : Dict VoucherStatusItem)
    (b : ImportBatchItem) : Type 0 where
  pub before : VoucherStatusItem
  pub found : lookup b.posting_key items ≡ some before
  pub was_approved : before.status ≡ approved
  pub same_revision : before.approved_revision_hash ≡ b.proposal_revision_hash
  pub now : VoucherStatusItem
  pub there : lookup b.posting_key after ≡ some now
  pub is_exported : now.status ≡ exported
  pub in_batch : now.batch_id ≡ batch.batch_id
  pub number : now.voucher_no ≡ b.planned_voucher_no

exported_approved {ℓ} : {A : Type ℓ} → exported ≡ approved → A
exported_approved e = true_false (ap (state_eq exported) e)

module _ (host : BatchHost) (batch : ImportBatch) where
  -- The loop leaves an exported item as it is.
  export_items-exported :
      (bs : List ImportBatchItem) (items after : Dict VoucherStatusItem) (j : String)
      (item : VoucherStatusItem)
      → export_items host batch bs items ≡ ok after
      → lookup j items ≡ some item
      → item.status ≡ exported
      → lookup j after ≡ some item
  unfolding export_items
  export_items-exported [] items after j item h found t =
      ap (lookup j) (sym (ok-injective h)) ∙ found
  export_items-exported (b ∷ bs) items after j item h found t =
      let (before, there, h₁) =
        or_raise-eq-ok (lookup b.posting_key items) (not_found b.posting_key) _ h in
      let (approved_test, h₂) =
        raise_if-eq-ok (not (state_eq before.status approved)) not_approved _ h₁ in
      let (_, h₃) =
        raise_if-eq-ok (not (str_eq before.approved_revision_hash b.proposal_revision_hash))
          revision_changed _ h₂ in
      elim (Bool-cases (str_eq b.posting_key j)) [
        | inl e ↦
            let same_item : before ≡ item =
              some-injective
                (sym there ∙ ap (λ k. lookup k items) (str_eq→eq b.posting_key j e) ∙ found) in
            exported_approved (
              sym (ap (λ x. x.status) same_item ∙ t)
              ∙ state_eq→eq before.status approved (not-false _ approved_test))
        | inr e ↦
            export_items-exported bs _ after j item h₃
              (lookup-insert j b.posting_key (exported_item host batch b before) items
                ∙ ap (λ x. if x then some (exported_item host batch b before) else lookup j items) e
                ∙ found)
              t
      ]

  exported_item_status :
      (b : ImportBatchItem) (item : VoucherStatusItem)
      → ((exported_item host batch b item).status ≡ exported)
        × ((exported_item host batch b item).batch_id ≡ batch.batch_id)
        × ((exported_item host batch b item).voucher_no ≡ b.planned_voucher_no)
  unfolding exported_item
  exported_item_status b item = (refl, refl, refl)

  -- What was approved after a round was so before it.
  before_insert :
      (b c : ImportBatchItem) (item : VoucherStatusItem) (items after : Dict VoucherStatusItem)
      → IsExported batch (insert b.posting_key (exported_item host batch b item) items) after c
      → IsExported batch items after c
  before_insert b c item items after e = elim (Bool-cases (str_eq b.posting_key c.posting_key)) [
    | inl k ↦
        let same_item : exported_item host batch b item ≡ e.before = some-injective (
          sym (
            ap
              (λ x.
                if x then some (exported_item host batch b item) else lookup c.posting_key items)
              k)
          ∙ sym (lookup-insert c.posting_key b.posting_key _ items)
          ∙ e.found) in
        exported_approved
          (sym (exported_item_status b item).0 ∙ ap (λ x. x.status) same_item ∙ e.was_approved)
    | inr k ↦ record {
      before = e.before;
      was_approved = e.was_approved;
      same_revision = e.same_revision;
      now = e.now;
      there = e.there;
      is_exported = e.is_exported;
      in_batch = e.in_batch;
      number = e.number;
      found =
          sym (
            ap
              (λ x.
                if x then some (exported_item host batch b item) else lookup c.posting_key items)
              k)
          ∙ sym (lookup-insert c.posting_key b.posting_key _ items)
          ∙ e.found;
    }
  ]

  export_items-IsExported :
      (bs : List ImportBatchItem) (items after : Dict VoucherStatusItem)
      → export_items host batch bs items ≡ ok after
      → All (IsExported batch items after) bs
  unfolding export_items
  export_items-IsExported [] items after h = tt
  export_items-IsExported (b ∷ bs) items after h =
      let (before, there, h₁) =
        or_raise-eq-ok (lookup b.posting_key items) (not_found b.posting_key) _ h in
      let (approved_test, h₂) =
        raise_if-eq-ok (not (state_eq before.status approved)) not_approved _ h₁ in
      let (revision_test, h₃) =
        raise_if-eq-ok (not (str_eq before.approved_revision_hash b.proposal_revision_hash))
          revision_changed _ h₂ in
      let (status, in_batch, number) = exported_item_status b before in
      (
        record {
          before = before;
          found = there;
          was_approved = state_eq→eq before.status approved (not-false _ approved_test);
          same_revision = str_eq→eq _ _ (not-false _ revision_test);
          now = exported_item host batch b before;
          there =
              export_items-exported bs _ after b.posting_key _ h₃
                (lookup-insert_self b.posting_key _ items) status;
          is_exported = status;
          in_batch = in_batch;
          number = number;
        },
        All-map (λ c e. before_insert b c before items after e) bs
            (export_items-IsExported bs _ after h₃),
      )

-- The batch was registered before, or its vouchers are exported now.
abbrev pub Registers : ImportBatch → VoucherStatusStore → VoucherStatusStore → ImportBatch → Type 0
Registers batch current after registered =
    (lookup batch.batch_id current.batches ≡ some registered)
      × (registered.file_sha256 ≡ batch.file_sha256)
      × (after ≡ current)
    ⊎ (lookup batch.batch_id after.batches ≡ some batch)
      × All (IsExported batch current.items after.items) batch.items

register_from-Registers :
    (host : BatchHost) (batch : ImportBatch) (current : VoucherStatusStore)
    (recorded : Option ImportBatch) (changed : Change × ImportBatch)
    → lookup batch.batch_id current.batches ≡ recorded
    → register_from host batch current recorded ≡ ok changed
    → let r = commit host.base current changed in Registers batch current r.0 r.1
unfolding register_from write_store
register_from-Registers host batch current (some existing) changed found h =
    let (matches, h₁) =
      raise_if-eq-ok (not (str_eq existing.file_sha256 batch.file_sha256)) hash_conflict _ h in
    subst
      (λ c. Registers batch current (commit host.base current c).0 (commit host.base current c).1)
      (ok-injective h₁) (inl (found, str_eq→eq _ _ (not-false _ matches), refl))
register_from-Registers host batch current none changed found h =
    let (items, made, h₁) = >>=-eq-ok (export_items host batch batch.items current.items) _ h in
    subst
      (λ c. Registers batch current (commit host.base current c).0 (commit host.base current c).1)
      (ok-injective h₁)
      (inr (
        lookup-insert_self batch.batch_id batch current.batches,
        export_items-IsExported host batch batch.items current.items items made,
      ))

-- A registration that returned found the batch registered, with the same file, and changed nothing;
-- or it stored the batch, and each voucher of it was approved in the revision that the batch holds
-- and is exported now.
pub register_export_batch-Registers :
    (host : BatchHost) (batch : ImportBatch) (expected_revision : ℕ)
    (current after : VoucherStatusStore) (registered : ImportBatch)
    → register_export_batch host batch expected_revision current ≡ ok (after, registered)
    → Registers batch current after registered
unfolding register_export_batch register
register_export_batch-Registers host batch expected_revision current after registered h =
    let (changed, _, _, made, committed) =
      mutate-eq-ok host.base (register host batch) (some expected_revision) current h in
    subst (λ r. Registers batch current r.0 r.1) committed
      (register_from-Registers host batch current _ changed refl made)
