-- ===== src/Bookkeeping/Batches/Results.antt =====
-- What `settled_batch_state` makes of the states of the items.
use invoice_hub.Bookkeeping.Batches.Finalize.{one_state, settled_batch_state}
use invoice_hub.Bookkeeping.Batches.Settle.{is_imported}
use invoice_hub.Prelude.{
  Bool, Bool-cases, List, [], all, any, ap, arith, false, if◌then◌else◌, inl, inr, refl, subst, sym,
  true, ◌&&◌, ◌||◌, ◌∙◌, ◌∷◌, ◌≡◌, ◌⊎◌,
}
use invoice_hub.Domain.{
  BatchState, VoucherState, failed_before_commit, import_failed_confirmed, import_unknown, imported,
  partial, reconciled, state_eq, state_eq→eq, unknown,
}

-- All states of a list are `s`.
abbrev pub is_all : VoucherState → List VoucherState → Bool
is_all s states = all (state_eq s) states

-- The state of a batch whose items are all imported, all confirmed failures or all unknown, or none
-- of these.
abbrev IsResultOf : Bool → Bool → Bool → BatchState → Type 0
IsResultOf all_imported all_failed all_unknown state =
    (all_imported ≡ true) × (state ≡ reconciled)
    ⊎ (all_failed ≡ true) × (state ≡ failed_before_commit)
    ⊎ (all_unknown ≡ true) × (state ≡ unknown)
    ⊎ (all_imported ≡ false) × (all_failed ≡ false) × (all_unknown ≡ false) × (state ≡ partial)

-- The state of a batch, by what its items have in common.
abbrev pub IsResult : List VoucherState → BatchState → Type 0
IsResult states state =
    IsResultOf (is_all imported states) (is_all import_failed_confirmed states)
      (is_all import_unknown states) state

is_imported_lem : (s : VoucherState) → is_imported s ≡ state_eq imported s
is_imported_lem imported = refl
is_imported_lem _ = refl

all-is_imported : (states : List VoucherState) → all is_imported states ≡ is_all imported states
all-is_imported [] = refl
all-is_imported (s ∷ states) =
    ap (λ b. b && all is_imported states) (is_imported_lem s)
    ∙ ap (λ b. state_eq imported s && b) (all-is_imported states)

-- A state that is not `import_unknown`, at the head of equal states: none of them is unknown.
apart :
    (s : VoucherState) (states : List VoucherState)
    → state_eq import_unknown s ≡ false
    → any (state_eq import_unknown) states && is_all s states ≡ false
apart s [] e = refl
apart s (t ∷ states) e = elim (Bool-cases (state_eq s t)) [
  | inl same_state ↦
      drop_head (state_eq import_unknown t) (any (state_eq import_unknown) states) (state_eq s t)
        (is_all s states) (ap (state_eq import_unknown) (sym (state_eq→eq s t same_state)) ∙ e)
        (apart s states e)
  | inr other_state ↦
      no_tail (state_eq import_unknown t || any (state_eq import_unknown) states) (state_eq s t)
        (is_all s states) other_state
]
  where
    drop_head : (a b c d : Bool) → a ≡ false → b && d ≡ false → (a || b) && (c && d) ≡ false
    drop_head a b c d h k = ground arith

    no_tail : (a c d : Bool) → c ≡ false → a && (c && d) ≡ false
    no_tail a c d h = ground arith

one_unknown :
    (s : VoucherState) (states : List VoucherState)
    → any (state_eq import_unknown) (s ∷ states) && one_state (s ∷ states)
      ≡ is_all import_unknown (s ∷ states)
one_unknown s states = elim (Bool-cases (state_eq import_unknown s)) [
  | inl e ↦
      same_head (state_eq import_unknown s) (any (state_eq import_unknown) states) (is_all s states)
        (is_all import_unknown states) e
        (ap (λ x. is_all x states) (sym (state_eq→eq import_unknown s e)))
  | inr e ↦
      other_head (state_eq import_unknown s) (any (state_eq import_unknown) states)
        (is_all s states) (is_all import_unknown states) e (apart s states e)
]
  where
    same_head : (a b c d : Bool) → a ≡ true → c ≡ d → (a || b) && c ≡ a && d
    same_head a b c d h k = ground arith

    other_head : (a b c d : Bool) → a ≡ false → b && c ≡ false → (a || b) && c ≡ a && d
    other_head a b c d h k = ground arith

choose :
    (a b c : Bool)
    → IsResultOf a b c (
        if a
        then reconciled
        else if b
        then failed_before_commit
        else if c
        then unknown
        else partial)
choose true b c = inl (refl, refl)
choose false true c = inr (inl (refl, refl))
choose false false true = inr (inr (inl (refl, refl)))
choose false false false = inr (inr (inr (refl, refl, refl, refl)))

-- The state that a finalize computes is the one that the items have in common, or `partial`.
pub settled_batch_state-IsResult :
    (states : List VoucherState) → IsResult states (settled_batch_state states)
unfolding settled_batch_state
settled_batch_state-IsResult [] = inl (refl, refl)
settled_batch_state-IsResult (s ∷ states) =
    let chosen =
      choose (all is_imported (s ∷ states)) (is_all import_failed_confirmed (s ∷ states))
        (any (state_eq import_unknown) (s ∷ states) && one_state (s ∷ states)) in
    subst
      (λ a.
        IsResultOf a (is_all import_failed_confirmed (s ∷ states))
          (is_all import_unknown (s ∷ states)) (settled_batch_state (s ∷ states)))
      (all-is_imported (s ∷ states))
      (subst
        (λ c.
          IsResultOf (all is_imported (s ∷ states)) (is_all import_failed_confirmed (s ∷ states)) c
            (settled_batch_state (s ∷ states)))
        (one_unknown s states) chosen)
