-- ===== src/Bookkeeping/Batches/Imports.antt =====
-- What a finalize takes from its payload to make a voucher imported.
use invoice_hub.Bookkeeping.Batches.Observed.{read_observed}
use invoice_hub.Bookkeeping.Status.Transactions.{mutate-eq-ok}
use invoice_hub.Prelude.Text.{is_blank, strip}
use invoice_hub.Bookkeeping.Mapping.Match.{given}
use invoice_hub.Bookkeeping.Result.{
  duplicate_item, item_without_key, not_found, ok, ok-injective, or_raise-eq-ok, raise_if-eq-ok,
}
use invoice_hub.Bookkeeping.Batches.Imported.{commit_result}
use invoice_hub.Bookkeeping.Status.Store.{commit}
use invoice_hub.Bookkeeping.Batches.Inversion.{IsFinalized, finalize_new-IsFinalized}
use invoice_hub.Domain.{ImportBatch, ImportBatchItem, Receipt, VoucherStatusItem, imported}
use invoice_hub.Bookkeeping.Batches.Evidence.{HasEvidence, IsObserved, settle_items-HasEvidence}
use invoice_hub.Bookkeeping.Batches.Finalize.{
  Finalized, finalize, finalize_from, finalize_import_batch, finalized_batch,
}
use invoice_hub.Prelude.Dict.{Dict, contains, insert, lookup, lookup-insert}
use invoice_hub.Bookkeeping.Status.{Change, VoucherStatusStore, write_store}
use invoice_hub.Bookkeeping.Batches.Shared.{BatchHost, FinalizePayload, ObservedItem}
use invoice_hub.Prelude.{
  Any, Any-map, Bool-cases, List, Option, String, [], ap, at_head, if◌then◌else◌, in_tail, inl, inr,
  none, some, some-injective, str_eq, str_eq→eq, subst, sym, true_false, ◌∙◌, ◌∷◌, ◌≡◌, ◌⊎◌,
}

-- An entry that the loop over the payload adds comes from the payload.
read_observed-lookup :
    (raws : List (Option ObservedItem)) (earlier_entries entries : Dict ObservedItem) (j : String)
    (o : ObservedItem)
    → read_observed raws earlier_entries ≡ ok entries
    → lookup j entries ≡ some o
    → (lookup j earlier_entries ≡ some o)
      ⊎ (Any (λ raw. raw ≡ some o) raws × (strip o.posting_key ≡ j))
unfolding read_observed
read_observed-lookup [] earlier_entries entries j o h found =
    inl (ap (lookup j) (ok-injective h) ∙ found)
read_observed-lookup (raw ∷ raws) earlier_entries entries j o h found =
    let (item, given, h₁) = or_raise-eq-ok raw item_without_key _ h in
    let (_, h₂) = raise_if-eq-ok (is_blank item.posting_key) item_without_key _ h₁ in
    let key = strip item.posting_key in
    let (_, h₃) = raise_if-eq-ok (contains key earlier_entries) duplicate_item _ h₂ in
    elim (read_observed-lookup raws (insert key item earlier_entries) entries j o h₃ found) [
      | inl earlier ↦ elim (Bool-cases (str_eq key j)) [
        | inl e ↦
            let same_item : item ≡ o = some-injective (
              sym (ap (λ x. if x then some item else lookup j earlier_entries) e)
              ∙ sym (lookup-insert j key item earlier_entries)
              ∙ earlier) in
            inr (
              at_head (given ∙ ap some same_item),
              ap (λ x. strip x.posting_key) (sym same_item) ∙ str_eq→eq key j e,
            )
        | inr e ↦ inl (
            sym (ap (λ x. if x then some item else lookup j earlier_entries) e)
            ∙ sym (lookup-insert j key item earlier_entries)
            ∙ earlier)
      ]
      | inr (given_later, named) ↦ inr (in_tail given_later, named)
    ]

evidence_of_payload :
    (raws : List (Option ObservedItem)) (entries : Dict ObservedItem) (j : String)
    (b : ImportBatchItem)
    → read_observed raws [] ≡ ok entries
    → HasEvidence entries j b
    → IsObserved raws j b
unfolding lookup
evidence_of_payload raws entries j b h e =
    elim (read_observed-lookup raws [] entries b.posting_key e.observation h e.found) [
      | inl absent ↦ true_false cc
      | inr (given, named) ↦ record {
        key = e.key;
        observation = e.observation;
        given = given;
        named = named ∙ e.key;
        signature = e.signature;
        number = e.number;
      }
    ]

-- What the store that a finalize writes says of a voucher that is imported in it.
abbrev pub Imports :
    FinalizePayload
    → String
    → VoucherStatusItem
    → VoucherStatusStore
    → List ImportBatchItem
    → Type 0
Imports payload j item current bs =
    (lookup j current.items ≡ some item)
    ⊎ (raws : List (Option ObservedItem)) × (payload.items ≡ some raws) × Any (IsObserved raws j) bs

IsFinalized-Imports :
    (host : BatchHost) (batch_id : String) (payload : FinalizePayload) (batch : ImportBatch)
    (current : VoucherStatusStore) (changed : Change × Finalized) (j : String)
    (item : VoucherStatusItem)
    → IsFinalized host batch_id payload batch current changed
    → lookup j (commit host.base current changed).0.items ≡ some item
    → item.status ≡ imported
    → Imports payload j item current changed.1.batch.items
unfolding finalized_batch write_store
IsFinalized-Imports host batch_id payload batch current changed j item f there t =
    let moved = f.change in
    subst (λ c. Imports payload j item current c.1.batch.items) (sym moved)
      (elim (settle_items-HasEvidence host batch_id (host.observation_sha256 payload) f.outcome
        f.entries batch.items current.items f.settled j item f.settles
        (ap (λ c. lookup j (commit host.base current c).0.items) (sym moved) ∙ there) t) [
          | inl unchanged ↦ inl unchanged
          | inr evidence ↦ inr (
            f.raws,
            f.listed,
            Any-map (λ b e. evidence_of_payload f.raws f.entries j b f.read e) evidence,
          )
        ])

finalize_from-Imports :
    (host : BatchHost) (batch_id : String) (payload : FinalizePayload) (batch : ImportBatch)
    (current : VoucherStatusStore) (recorded : Option Receipt) (changed : Change × Finalized)
    (j : String) (item : VoucherStatusItem)
    → finalize_from host batch_id payload batch current recorded ≡ ok changed
    → lookup j (commit host.base current changed).0.items ≡ some item
    → item.status ≡ imported
    → Imports payload j item current changed.1.batch.items
unfolding finalize_from
finalize_from-Imports host batch_id payload batch current (some r) changed j item h there t =
    inl (ap (λ c. lookup j (commit host.base current c).0.items) (ok-injective h) ∙ there)
finalize_from-Imports host batch_id payload batch current none changed j item h there t =
    IsFinalized-Imports host batch_id payload batch current changed j item
      (finalize_new-IsFinalized host batch_id payload batch current changed h) there t

-- A voucher that is imported after a finalize was so before, unchanged, or it belongs to the batch
-- and the payload observes it with the signature of its batch item and a voucher number that is
-- not blank.
pub finalize_import_batch-Imports :
    (host : BatchHost) (batch_id : String) (payload : FinalizePayload)
    (current after : VoucherStatusStore) (done : Finalized) (j : String) (item : VoucherStatusItem)
    → finalize_import_batch host batch_id payload current ≡ ok (after, done)
    → lookup j after.items ≡ some item
    → item.status ≡ imported
    → Imports payload j item current done.batch.items
unfolding finalize_import_batch finalize
finalize_import_batch-Imports host batch_id payload current after done j item h there t =
    let (changed, fresh, _, made, committed) =
      mutate-eq-ok host.base (finalize host batch_id payload) none current h in
    let (batch, _, h₁) =
      or_raise-eq-ok (lookup batch_id current.batches) (not_found batch_id) _ made in
    let result = sym (commit_result host.base current changed) ∙ ap (λ r. r.1) committed in
    subst (λ d. Imports payload j item current d.batch.items) result
      (finalize_from-Imports host batch_id payload batch current _ changed j item h₁
        (ap (λ r. lookup j r.0.items) committed ∙ there) t)
