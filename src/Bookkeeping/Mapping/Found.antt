-- ===== src/Bookkeeping/Mapping/Found.antt =====
-- Rules that are found by their id, and rules that a list keeps.
use invoice_hub.Bookkeeping.Mapping.Append.{find_rule, id_list, is_manual}
use invoice_hub.Bookkeeping.Mapping.Store.{AccountMappingStore}
use invoice_hub.Bookkeeping.Mapping.Match.{normalized_rules, rule_ids}
use invoice_hub.Prelude.{
  Any, Bool, Bool-cases, List, Option, String, [], ap, arith, at_head, elem, eq_refl, false,
  if◌then◌else◌, in_tail, inl, inr, none, refl, select, some, some-injective, str_eq, str_eq→eq,
  subst, sym, true, true_false, ◌++◌, ◌||◌, ◌∙◌, ◌∷◌, ◌≡◌, ◌⊎◌,
}
use invoice_hub.Bookkeeping.Mapping.Rule.{
  AccountMappingRule, MappingHost, normalize_match_text, normalized_rule,
}
use invoice_hub.Bookkeeping.Result.{>>=-eq-ok, Error, ok, ok-injective, raise_if}
use invoice_hub.Bookkeeping.Decisions.Allocations.{has_duplicates}

not_raised : (t : Bool) (e : Error) {u : Unit {0}} → raise_if t e ≡ ok u → t ≡ false
not_raised true e h = cc
not_raised false e h = refl

first_or_later :
    (host : MappingHost) (r : AccountMappingRule) (rs : List AccountMappingRule)
    (n : AccountMappingRule) (rest : List AccountMappingRule) (x : AccountMappingRule)
    → normalized_rule host r ≡ ok n
    → Any (λ y. y ≡ x) (r ∷ rs)
    → (Any (λ y. y ≡ x) rs → Any (λ y. normalized_rule host x ≡ ok y) rest)
    → Any (λ y. normalized_rule host x ≡ ok y) (n ∷ rest)
first_or_later host r rs n rest x made (at_head e) later =
    at_head (ap (normalized_rule host) (sym e) ∙ made)
first_or_later host r rs n rest x made (in_tail a) later = in_tail (later a)

either_true : (a b : Bool) → a ≡ true → a || b ≡ true
either_true a b h = ground arith

other_true : (a b : Bool) → b ≡ true → a || b ≡ true
other_true a b h = ground arith

neither_true : (a b : Bool) → a || b ≡ false → (a ≡ false) × (b ≡ false)
neither_true a b h = (ground arith, ground arith)

only_first : (a : Bool) → a || false ≡ true → a ≡ true
only_first a h = ground arith

keep_head {ℓ} :
    {A : Type ℓ} (b : Bool) (y : A) (rest : List A) {x : A}
    → y ≡ x
    → b ≡ true
    → Any (λ z. z ≡ x) (if b then y ∷ rest else rest)
keep_head true y rest e h = at_head e
keep_head false y rest e h = true_false (sym h)

keep_tail {ℓ κ} :
    {A : Type ℓ} {P : A → Type κ} (b : Bool) (y : A) (rest : List A)
    → Any P rest
    → Any P (if b then y ∷ rest else rest)
keep_tail true y rest a = in_tail a
keep_tail false y rest a = a

pub normalized_rules-Any :
    (host : MappingHost) (rules normalized : List AccountMappingRule) (x : AccountMappingRule)
    → normalized_rules host rules ≡ ok normalized
    → Any (λ r. r ≡ x) rules
    → Any (λ y. normalized_rule host x ≡ ok y) normalized
unfolding normalized_rules
normalized_rules-Any host [] normalized x h a = elim a [ ]
normalized_rules-Any host (r ∷ rs) normalized x h a =
    let (n, made, h₁) = >>=-eq-ok (normalized_rule host r) _ h in
    let (rest, rested, h₂) = >>=-eq-ok (normalized_rules host rs) _ h₁ in
    subst (Any (λ y. normalized_rule host x ≡ ok y)) (ok-injective h₂)
      (first_or_later host r rs n rest x made a (normalized_rules-Any host rs rest x rested))

found_first :
    (t : Bool) (i : String) (x r : AccountMappingRule) (later : Option AccountMappingRule)
    → (t ≡ true → x.rule_id ≡ i)
    → (later ≡ some r → r.rule_id ≡ i)
    → (if t then some x else later) ≡ some r
    → r.rule_id ≡ i
found_first true i x r later f g h = ap (λ y. y.rule_id) (sym (some-injective h)) ∙ f refl
found_first false i x r later f g h = g h

pub find_rule-id :
    (i : String) (rules : List AccountMappingRule) (r : AccountMappingRule)
    → find_rule i rules ≡ some r
    → r.rule_id ≡ i
unfolding find_rule
find_rule-id i [] r h = cc
find_rule-id i (x ∷ rules) r h =
    found_first (str_eq x.rule_id i) i x r (find_rule i rules) (str_eq→eq x.rule_id i)
      (find_rule-id i rules r) h

rule_ids-elem :
    (rules : List AccountMappingRule) (x : AccountMappingRule)
    → Any (λ y. y ≡ x) rules
    → elem x.rule_id (rule_ids rules) ≡ true
rule_ids-elem [] x a = elim a [ ]
rule_ids-elem (y ∷ rules) x (at_head e) =
    either_true (str_eq y.rule_id x.rule_id) _
      (subst (λ z. str_eq y.rule_id z ≡ true) (ap (λ r. r.rule_id) e) (eq_refl y.rule_id))
rule_ids-elem (y ∷ rules) x (in_tail a) =
    other_true (str_eq y.rule_id x.rule_id) _ (rule_ids-elem rules x a)

-- Where no id comes twice, a rule with an id is the one that is found by it.
pub find_rule_unique :
    (i : String) (rules : List AccountMappingRule) (x r : AccountMappingRule)
    → has_duplicates (rule_ids rules) ≡ false
    → Any (λ y. y ≡ x) rules
    → x.rule_id ≡ i
    → find_rule i rules ≡ some r
    → x ≡ r
unfolding find_rule has_duplicates
find_rule_unique i [] x r d a e h = elim a [ ]
find_rule_unique i (y ∷ rules) x r d (at_head p) e h =
    let same_id =
      subst (λ z. str_eq y.rule_id z ≡ true) (ap (λ q. q.rule_id) p ∙ e) (eq_refl y.rule_id) in
    sym p ∙ some-injective (sym (ap (λ t. if t then some y else find_rule i rules) same_id) ∙ h)
find_rule_unique i (y ∷ rules) x r d (in_tail a) e h =
    let (fresh, distinct) = neither_true (elem y.rule_id (rule_ids rules)) _ d in
    elim (Bool-cases (str_eq y.rule_id i)) [
      | inl t ↦
          let same_id = str_eq→eq y.rule_id i t ∙ sym e in
          true_false (
            sym (rule_ids-elem rules x a) ∙ ap (λ z. elem z (rule_ids rules)) (sym same_id) ∙ fresh)
      | inr f ↦
          find_rule_unique i rules x r distinct a e
            (sym (ap (λ t. if t then some y else find_rule i rules) f) ∙ h)
    ]

pub select-keeps {ℓ} :
    {A : Type ℓ} (p : A → Bool) (xs : List A) (x : A)
    → Any (λ y. y ≡ x) xs
    → p x ≡ true
    → Any (λ y. y ≡ x) (select p xs)
select-keeps p [] x a h = elim a [ ]
select-keeps p (y ∷ xs) x (at_head e) h = keep_head (p y) y (select p xs) e (ap p e ∙ h)
select-keeps p (y ∷ xs) x (in_tail a) h = keep_tail (p y) y (select p xs) (select-keeps p xs x a h)

pub Any-append {ℓ κ} :
    {A : Type ℓ} {P : A → Type κ} {xs : List A} (ys : List A) → Any P xs → Any P (xs ++ ys)
Any-append ys (at_head q) = at_head q
Any-append ys (in_tail a) = in_tail (Any-append ys a)

-- The id of a rule that is replaced is that of the rule that stands in its place, or the one that
-- the caller names.
pub removed_by :
    (i : String) (a b : Option AccountMappingRule)
    → elem i (id_list a ++ id_list b) ≡ true
    → ((r : AccountMappingRule) × (a ≡ some r) × (i ≡ r.rule_id))
      ⊎ ((r : AccountMappingRule) × (b ≡ some r) × (i ≡ r.rule_id))
removed_by i none none h = true_false (sym h)
removed_by i none (some r) h = inr (r, refl, sym (str_eq→eq r.rule_id i (only_first _ h)))
removed_by i (some r) none h = inl (r, refl, sym (str_eq→eq r.rule_id i (only_first _ h)))
removed_by i (some r) (some q) h = elim (Bool-cases (str_eq r.rule_id i)) [
  | inl t ↦ inl (r, refl, sym (str_eq→eq r.rule_id i t))
  | inr f ↦ inr (
    q,
    refl,
    sym (
        str_eq→eq q.rule_id i
          (only_first _ (sym (ap (λ t. t || (str_eq q.rule_id i || false)) f) ∙ h))),
  )
]

-- What holds of a rule of the store that a person confirmed.
abbrev pub IsProtected :
    MappingHost → String → AccountMappingRule → AccountMappingStore → AccountMappingRule → Type 0
IsProtected host replaces_rule_id x after stored =
    Any (λ y. normalized_rule host x ≡ ok y) after.rules
    ⊎ ((x.rule_id ≡ normalize_match_text replaces_rule_id) × (is_manual stored.source ≡ true))
