-- ===== src/Bookkeeping/Mapping/Best.antt =====
-- A matched rule applies, and no rule that applies ranks above it.
use invoice_hub.Bookkeeping.Result.{>>=-eq-ok, Error, err, ok, ok-injective}
use invoice_hub.Bookkeeping.Mapping.Match.{
  Rank, best_rank, first_by_id, rank_eq, rank_lt, rule_rank, Context, applicable_rules, chosen_rule,
  finalists, listed, match_account_rule, normalized_rules, rule_applies_to_context, rules_of,
  same_target,
}
use invoice_hub.Prelude.{
  All, Any, Bool, Bool-cases, List, [], arith, at_head, false, inl, inr, refl, select, true, ◌∷◌,
  ◌≡◌, all, ap, if◌then◌else◌, in_tail, some, some-injective, subst, sym, text_lt, ◌∙◌, ◌⊎◌,
}
use invoice_hub.Bookkeeping.Mapping.Rule.{AccountMappingRule, MappingHost}

rank_lt-upper : (b r m : Rank) → rank_lt b r ≡ true → rank_lt m r ≡ false → rank_lt m b ≡ false
unfolding rank_lt
rank_lt-upper b r m h k = ground arith

rank_lt-lower : (b r m : Rank) → rank_lt b r ≡ false → rank_lt m b ≡ false → rank_lt m r ≡ false
unfolding rank_lt
rank_lt-lower b r m h k = ground arith

rank_lt-irreflexive : (b : Rank) → rank_lt b b ≡ false
unfolding rank_lt
rank_lt-irreflexive b = ground arith

rank_eq→eq : (a b : Rank) → rank_eq a b ≡ true → a ≡ b
unfolding rank_eq
rank_eq→eq a b h = ground arith

-- No rule of a list ranks above `b`.
abbrev pub IsTop : Rank → List AccountMappingRule → Type 0
IsTop b = All (λ x. rank_lt b (rule_rank x) ≡ false)

best_rank-IsTop :
    (b : Rank) (rs : List AccountMappingRule)
    → (rank_lt (best_rank b rs) b ≡ false) × IsTop (best_rank b rs) rs
unfolding best_rank
best_rank-IsTop b [] = (rank_lt-irreflexive b, tt)
best_rank-IsTop b (r ∷ rs) =
    let higher = best_rank (rule_rank r) rs in
    let kept = best_rank b rs in
    let chosen = (λ (t : Bool). if t then higher else kept) in
    let holds = (λ (m : Rank). (rank_lt m b ≡ false) × IsTop m (r ∷ rs)) in
    elim (Bool-cases (rank_lt b (rule_rank r))) [
      | inl t ↦
          let (first, rest) = best_rank-IsTop (rule_rank r) rs in
          subst holds (sym (ap chosen t))
            (rank_lt-upper b (rule_rank r) higher t first, (first, rest))
      | inr t ↦
          let (first, rest) = best_rank-IsTop b rs in
          subst holds (sym (ap chosen t))
            (first, (rank_lt-lower b (rule_rank r) kept t first, rest))
    ]

Any-if {ℓ κ} :
    {A : Type ℓ} {Q : A → Type κ} (b : Bool) (x : A) (rest : List A)
    → Any Q (if b then x ∷ rest else rest)
    → (Q x × (b ≡ true)) ⊎ Any Q rest
Any-if true x rest (at_head q) = inl (q, refl)
Any-if true x rest (in_tail a) = inr a
Any-if false x rest a = inr a

select-Any {ℓ} :
    {A : Type ℓ} (p : A → Bool) (xs : List A) (y : A)
    → Any (λ x. x ≡ y) (select p xs)
    → Any (λ x. x ≡ y) xs × (p y ≡ true)
select-Any p [] y a = elim a [ ]
select-Any p (x ∷ xs) y a = elim (Any-if (p x) x (select p xs) a) [
  | inl (e, h) ↦ (at_head e, ap p (sym e) ∙ h)
  | inr later ↦ let (there, h) = select-Any p xs y later in (in_tail there, h)
]

either_in {ℓ} :
    {A : Type ℓ} (b : Bool) {u v : A} {xs : List A}
    → Any (λ x. x ≡ u) xs
    → Any (λ x. x ≡ v) xs
    → Any (λ x. x ≡ (if b then u else v)) xs
either_in true a c = a
either_in false a c = c

skip_second {ℓ κ} :
    {A : Type ℓ} {Q : A → Type κ} {x y : A} {xs : List A} → Any Q (x ∷ xs) → Any Q (x ∷ y ∷ xs)
skip_second (at_head q) = at_head q
skip_second (in_tail a) = in_tail (in_tail a)

first_by_id-Any :
    (least : AccountMappingRule) (rs : List AccountMappingRule)
    → Any (λ x. x ≡ first_by_id least rs) (least ∷ rs)
unfolding first_by_id
first_by_id-Any least [] = at_head refl
first_by_id-Any least (r ∷ rs) =
    either_in (text_lt r.rule_id least.rule_id) (in_tail (first_by_id-Any r rs))
      (skip_second (first_by_id-Any least rs))

chosen_if :
    (b : Bool) (rules : List AccountMappingRule) (least chosen : AccountMappingRule) (e : Error)
    → Any (λ x. x ≡ least) rules
    → (if b then ok (some least) else err e) ≡ ok (some chosen)
    → Any (λ x. x ≡ chosen) rules
chosen_if true rules least chosen e a h =
    subst (λ c. Any (λ x. x ≡ c) rules) (some-injective (ok-injective h)) a
chosen_if false rules least chosen e a h = cc

chosen_rule-Any :
    (rules : List AccountMappingRule) (chosen : AccountMappingRule)
    → chosen_rule rules ≡ ok (some chosen)
    → Any (λ x. x ≡ chosen) rules
unfolding chosen_rule
chosen_rule-Any [] chosen h = cc
chosen_rule-Any (r ∷ rs) chosen h =
    chosen_if (all (same_target r) rs) (r ∷ rs) (first_by_id r rs) chosen _ (first_by_id-Any r rs) h

-- The chosen rule is among the rules of a best rank, which no rule exceeds.
finalists-IsTop :
    (rules : List AccountMappingRule) (chosen : AccountMappingRule)
    → Any (λ x. x ≡ chosen) (finalists rules)
    → Any (λ x. x ≡ chosen) rules × IsTop (rule_rank chosen) rules
unfolding finalists
finalists-IsTop [] chosen a = elim a [ ]
finalists-IsTop (r ∷ rs) chosen a =
    let best = best_rank (rule_rank r) rs in
    let (there, h) = select-Any (λ x. rank_eq (rule_rank x) best) (r ∷ rs) chosen a in
    (
      there,
      subst (λ b. IsTop b (r ∷ rs)) (sym (rank_eq→eq (rule_rank chosen) best h))
          (best_rank-IsTop (rule_rank r) rs),
    )

-- Of the rules that apply, each applies to the context in its normalized form.
applicable_rules-applies :
    (host : MappingHost) (context : Context) (rules applicable : List AccountMappingRule)
    (chosen : AccountMappingRule)
    → applicable_rules host context rules ≡ ok applicable
    → Any (λ x. x ≡ chosen) applicable
    → rule_applies_to_context host chosen context ≡ ok true
unfolding applicable_rules
applicable_rules-applies host context [] applicable chosen h a =
    elim (subst (Any (λ x. x ≡ chosen)) (sym (ok-injective h)) a) [ ]
applicable_rules-applies host context (rule ∷ rules) applicable chosen h a =
    let (applies, made, h₁) = >>=-eq-ok (rule_applies_to_context host rule context) _ h in
    let (rest, rested, h₂) = >>=-eq-ok (applicable_rules host context rules) _ h₁ in
    elim (Any-if applies rule rest (subst (Any (λ x. x ≡ chosen)) (sym (ok-injective h₂)) a)) [
      | inl (e, t) ↦ ap (λ r. rule_applies_to_context host r context) (sym e) ∙ made ∙ ap ok t
      | inr later ↦ applicable_rules-applies host context rules rest chosen rested later
    ]

-- What a matched rule is: one of the rules that apply, none of which ranks above it.
pub record IsBest (host : MappingHost) (rules : List AccountMappingRule) (context : Context)
    (chosen : AccountMappingRule) : Type 0 where
  pub normalized : List AccountMappingRule
  pub applicable : List AccountMappingRule
  pub normalizes : normalized_rules host rules ≡ ok normalized
  pub applies : applicable_rules host context normalized ≡ ok applicable
  pub among : Any (λ x. x ≡ chosen) applicable
  pub fits : rule_applies_to_context host chosen context ≡ ok true
  pub top : IsTop (rule_rank chosen) applicable

-- A rule that a list of rules is matched with applies, in its normalized form, and no rule of the
-- list that applies ranks above it: manual rules before suggested ones, then the more specific
-- scope, then the higher priority.
pub match_account_rule-IsBest :
    (host : MappingHost) (rules : List AccountMappingRule) (context : Context)
    (chosen : AccountMappingRule)
    → match_account_rule host (listed rules) context false ≡ ok (some chosen)
    → IsBest host rules context chosen
unfolding match_account_rule rules_of
match_account_rule-IsBest host rules context chosen h =
    let (normalized, normalizes, h₁) = >>=-eq-ok (normalized_rules host rules) _ h in
    let (applicable, applies, h₂) = >>=-eq-ok (applicable_rules host context normalized) _ h₁ in
    let (among, top) =
      finalists-IsTop applicable chosen (chosen_rule-Any (finalists applicable) chosen h₂) in
    record {
      normalized = normalized;
      applicable = applicable;
      normalizes = normalizes;
      applies = applies;
      among = among;
      fits = applicable_rules-applies host context normalized applicable chosen applies among;
      top = top;
    }
