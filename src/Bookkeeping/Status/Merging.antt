-- ===== src/Bookkeeping/Status/Merging.antt =====
-- A merge of drafts leaves every voucher alone that is locked or under review.
use invoice_hub.Bookkeeping.Status.Table.{is_locked}
use invoice_hub.Prelude.Text.{is_empty_text}
use invoice_hub.Bookkeeping.Result.{
  identity_locked, migration_required, ok, ok-injective, raise_if-eq-ok,
}
use invoice_hub.Bookkeeping.Status.Merge.{
  has_locked_item, identity_changed, is_kept, merge_draft, merge_drafts, merge_voucher_drafts,
  resolved_company, snapshot_for,
}
use invoice_hub.Domain.{VoucherDraft, VoucherStatusItem}
use invoice_hub.Bookkeeping.Status.Store.{
  Host, Overrides, VoucherStatusStore, needs_migration, write_store, given_or,
}
use invoice_hub.Prelude.Dict.{Dict, insert, lookup, lookup-insert}
use invoice_hub.Prelude.{
  Bool-cases, List, String, [], ap, false, inl, inr, refl, str_eq, str_eq→eq, sym, true, true_false,
  ◌&&◌, ◌+◌, ◌∙◌, ◌∷◌, ◌≡◌, Bool, arith, not, ◌||◌, ◌⊎◌, All,
}

-- A round of the merge leaves every item where it writes none.
insert_kept :
    (key : String) (item : VoucherStatusItem) (items : Dict VoucherStatusItem) (j : String)
    → is_kept (lookup key items) ≡ false
    → is_kept (lookup j items) ≡ true
    → lookup j (insert key item items) ≡ lookup j items
insert_kept key item items j open_item kept = elim (Bool-cases (str_eq key j)) [
  | inl e ↦
      true_false
        (sym kept ∙ ap (λ k. is_kept (lookup k items)) (sym (str_eq→eq key j e)) ∙ open_item)
  | inr e ↦ rw (lookup-insert j key item items) (rw e refl)
]

-- A round of the merge keeps the item of `j` where that is locked or under review.
merge_draft-is_kept :
    (host : Host) (actor company_id : String) (d : VoucherDraft) (items : Dict VoucherStatusItem)
    (j : String)
    → is_kept (lookup j items) ≡ true
    → lookup j (merge_draft host actor company_id d items) ≡ lookup j items
unfolding merge_draft
merge_draft-is_kept host actor company_id d items j h =
    let key = (snapshot_for host d company_id).posting_key in
    elim (Bool-cases (is_kept (lookup key items))) [
      | inl kept ↦ rw kept refl
      | inr open_item ↦ rw open_item (insert_kept key _ items j open_item h)
    ]

merge_drafts-is_kept :
    (host : Host) (actor company_id : String) (ds : List VoucherDraft)
    (items : Dict VoucherStatusItem) (j : String)
    → is_kept (lookup j items) ≡ true
    → lookup j (merge_drafts host actor company_id ds items) ≡ lookup j items
unfolding merge_drafts
merge_drafts-is_kept host actor company_id [] items j h = refl
merge_drafts-is_kept host actor company_id (d ∷ ds) items j h =
    let step = merge_draft-is_kept host actor company_id d items j h in
    merge_drafts-is_kept host actor company_id ds (merge_draft host actor company_id d items) j
      (ap is_kept step ∙ h)
    ∙ step

-- The ledger of a store is kept: unless no voucher is locked, or one of the identities is not
-- known, the environment and the identity are those that were there.
abbrev pub IsLedgerKept : VoucherStatusStore → VoucherStatusStore → Type 0
IsLedgerKept current after =
    All (λ e. is_locked e.1.status ≡ false) current.items
    ⊎ (is_empty_text current.ledger_identity_sha256 ≡ true)
    ⊎ (is_empty_text after.ledger_identity_sha256 ≡ true)
    ⊎ (after.ledger_environment ≡ current.ledger_environment)
      × (after.ledger_identity_sha256 ≡ current.ledger_identity_sha256)

both_false : (a b : Bool) → a || b ≡ false → (a ≡ false) × (b ≡ false)
both_false a b h = (ground arith, ground arith)

has_locked_item-All :
    (items : Dict VoucherStatusItem)
    → has_locked_item items ≡ false
    → All (λ e. is_locked e.1.status ≡ false) items
unfolding has_locked_item
has_locked_item-All [] h = tt
has_locked_item-All ((key, item) ∷ items) h =
    let (first, rest) = both_false (is_locked item.status) (has_locked_item items) h in
    (first, has_locked_item-All items rest)

both_same :
    (e₁ e₂ same_environment same_identity is_moved : Bool)
    → (not e₁ && not e₂ && (not same_environment || not same_identity)) && is_moved ≡ false
    → is_moved ≡ true
    → e₁ ≡ false
    → e₂ ≡ false
    → (same_environment ≡ true) × (same_identity ≡ true)
both_same e₁ e₂ same_environment same_identity is_moved h l k₁ k₂ = (ground arith, ground arith)

-- What the guard on the ledger says of a store that takes the ledger that is given.
unmoved-IsLedgerKept :
    (o : Overrides) (current after : VoucherStatusStore)
    → identity_changed o current && has_locked_item current.items ≡ false
    → after.ledger_environment ≡ given_or o.ledger_environment current.ledger_environment
    → after.ledger_identity_sha256
      ≡ given_or o.ledger_identity_sha256 current.ledger_identity_sha256
    → IsLedgerKept current after
unfolding identity_changed
unmoved-IsLedgerKept o current after h environment identity =
    let next_environment = given_or o.ledger_environment current.ledger_environment in
    let next_identity = given_or o.ledger_identity_sha256 current.ledger_identity_sha256 in
    elim (Bool-cases (has_locked_item current.items)) [
      | inr e ↦ inl (has_locked_item-All current.items e)
      | inl e ↦ elim (Bool-cases (is_empty_text current.ledger_identity_sha256)) [
        | inl e₁ ↦ inr (inl e₁)
        | inr e₁ ↦ elim (Bool-cases (is_empty_text next_identity)) [
          | inl e₂ ↦ inr (inr (inl (ap is_empty_text identity ∙ e₂)))
          | inr e₂ ↦
              let (same_environment, same_identity) =
                both_same (is_empty_text current.ledger_identity_sha256)
                  (is_empty_text next_identity) (str_eq current.ledger_environment next_environment)
                  (str_eq current.ledger_identity_sha256 next_identity)
                  (has_locked_item current.items) h e e₁ e₂ in
              inr (
                inr (
                  inr (
                    environment ∙ sym (str_eq→eq _ _ same_environment),
                    identity ∙ sym (str_eq→eq _ _ same_identity),
                  )))
        ]
      ]
    ]

-- A merge that returned leaves every locked voucher, every voucher under review and every batch as
-- it was, and counts one revision of the store. Where a voucher is locked, the store keeps its
-- ledger environment and identity, unless the identity was empty before or is empty after.
pub merge_voucher_drafts-keeps :
    (host : Host) (drafts : List VoucherDraft) (actor : String) (o : Overrides)
    (current after : VoucherStatusStore)
    → merge_voucher_drafts host drafts actor o current ≡ ok after
    → ((j : String)
        → (is_kept (lookup j current.items) ≡ false)
          ⊎ (lookup j after.items ≡ lookup j current.items))
      × (after.batches ≡ current.batches)
      × (after.revision ≡ current.revision + 1)
      × IsLedgerKept current after
unfolding merge_voucher_drafts write_store
merge_voucher_drafts-keeps host drafts actor o current after h =
    let (_, h₁) = raise_if-eq-ok (needs_migration current) migration_required _ h in
    let (unmoved, h₂) =
      raise_if-eq-ok (identity_changed o current && has_locked_item current.items) identity_locked _
        h₁ in
    let written = sym (ok-injective h₂) in
    (
      λ j. elim (Bool-cases (is_kept (lookup j current.items))) [
        | inr e ↦ inl e
        | inl kept ↦ inr (
            ap (λ s. lookup j s.items) written
            ∙ merge_drafts-is_kept host actor (resolved_company host o current) drafts current.items
                j kept)
      ],
      ap (λ s. s.batches) written,
      ap (λ s. s.revision) written,
      unmoved-IsLedgerKept o current after unmoved (ap (λ s. s.ledger_environment) written)
          (ap (λ s. s.ledger_identity_sha256) written),
    )
