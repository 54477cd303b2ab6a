-- ===== src/Monitoring/Reported.antt =====
-- The paths that the observer reports are those whose files changed.
use invoice_hub.Prelude.Sorting.{sorted-elem}
use invoice_hub.Prelude.Dict.{contains, lookup}
use invoice_hub.Monitoring.Polling.{
  Snapshot, appeared, gone_or_changed, stat_same, changed_paths, polls,
}
use invoice_hub.Prelude.{
  List, String, [], arith, elem, none, not, refl, ◌&&◌, ◌++◌, ◌||◌, ◌∷◌, ◌≡◌, All, Bool, Bool-cases,
  Option, ap, false, if◌then◌else◌, inl, inr, is_some, some, str_eq, str_eq→eq, sym, true, ℕ, ◌∙◌,
  Any, at_head, in_tail, ◌≢◌,
}

-- The keys of a snapshot are distinct, as those of every dictionary are.
abbrev pub AreKeysDistinct : Snapshot → Type 0
AreKeysDistinct [] = Unit
AreKeysDistinct ((path, stat) ∷ rest) = (lookup path rest ≡ none) × AreKeysDistinct rest

elem-append : (p : String) (xs ys : List String) → elem p (xs ++ ys) ≡ elem p xs || elem p ys
elem-append p [] ys = refl
elem-append p (x ∷ xs) ys = ground (arith, elem-append p xs ys)

elem-if :
    (p j : String) (xs : List String) (b : Bool)
    → elem p (if b then xs else j ∷ xs) ≡ elem p xs || not b && str_eq j p
elem-if p j xs true = ground arith
elem-if p j xs false = ground arith

-- The element that is put in front, or not, when it is the one that is asked for.
met : (x c b : Bool) → x ≡ c && not b → x || not b && true ≡ true && not b
met x c b h = ground arith

unmet : (x c b : Bool) → x ≡ c → x || not b && false ≡ c
unmet x c b h = ground arith

met_once : (x b : Bool) → x ≡ false → x || not b && true ≡ true && not b
met_once x b h = ground arith

elem-appeared :
    (p : String) (previous current : Snapshot)
    → elem p (appeared previous current) ≡ contains p current && not (contains p previous)
unfolding appeared lookup
elem-appeared p previous [] = refl
elem-appeared p previous ((j, s) ∷ current) =
    elem-if p j (appeared previous current) (contains j previous) ∙ elim (Bool-cases (str_eq j p)) [
      | inl e ↦
          rw e
            (rw (str_eq→eq j p e) (met _ (contains p current) _ (elem-appeared p previous current)))
      | inr e ↦ rw e (unmet _ _ (contains j previous) (elem-appeared p previous current))
    ]

elem-gone_or_changed :
    (p : String) (previous current : Snapshot)
    → AreKeysDistinct previous
    → elem p (gone_or_changed previous current)
      ≡ contains p previous && not (stat_same (lookup p previous) (lookup p current))
unfolding gone_or_changed lookup
elem-gone_or_changed p [] current d = refl
elem-gone_or_changed p ((j, s) ∷ previous) current (fresh, d) =
    elem-if p j (gone_or_changed previous current) (stat_same (some s) (lookup j current))
    ∙ elim (Bool-cases (str_eq j p)) [
      | inl e ↦ rw e (
          rw (str_eq→eq j p e) (
            met_once _ _ (
              elem-gone_or_changed p previous current d
              ∙ ap (λ o. is_some o && not (stat_same o (lookup p current)))
                  (ap (λ k. lookup k previous) (sym (str_eq→eq j p e)) ∙ fresh))))
      | inr e ↦ rw e (
          unmet _ _ (stat_same (some s) (lookup j current))
            (elem-gone_or_changed p previous current d))
    ]

-- Which of the two lists a path is in.
either_list :
    (a b : Option (ℕ × ℕ × ℕ))
    → is_some a && not (stat_same a b) || is_some b && not (is_some a) ≡ not (stat_same a b)
either_list none none = refl
either_list none (some b) = refl
either_list (some a) none = refl
either_list (some a) (some b) = ground arith

-- A poll reports a path if and only if its file is new, gone or changed.
pub changed_paths-elem :
    (p : String) (previous current : Snapshot)
    → AreKeysDistinct previous
    → elem p (changed_paths previous current)
      ≡ not (stat_same (lookup p previous) (lookup p current))
unfolding changed_paths
changed_paths-elem p previous current d =
    sorted-elem p (gone_or_changed previous current ++ appeared previous current)
    ∙ (elem-append p (gone_or_changed previous current) (appeared previous current)
        ∙ (rw (elem-gone_or_changed p previous current d, elem-appeared p previous current)
            (either_list (lookup p previous) (lookup p current))))

abbrev pub AllKeysDistinct : List Snapshot → Type 0
AllKeysDistinct taken = All AreKeysDistinct taken

stat_same→eq : (a b : Option (ℕ × ℕ × ℕ)) → stat_same a b ≡ true → a ≡ b
stat_same→eq none none h = refl
stat_same→eq none (some b) h = cc
stat_same→eq (some a) none h = cc
stat_same→eq (some (a, b, c)) (some (d, e, f)) h = ground arith

not-true : (b : Bool) → not b ≡ false → b ≡ true
not-true b h = ground arith

-- A change that lasts is reported: a path whose file differs between the first and the last snapshot
-- is among the paths of some poll.
pub polls-elem :
    (p : String) (previous : Snapshot) (taken : List Snapshot)
    → AreKeysDistinct previous
    → AllKeysDistinct taken
    → lookup p (polls previous taken).1 ≢ lookup p previous
    → Any (λ reported. elem p reported ≡ true) (polls previous taken).0
unfolding polls
polls-elem p previous [] d ds u = elim (u refl) [ ]
polls-elem p previous (current ∷ later) d (e, ds) u =
    elim (Bool-cases (elem p (changed_paths previous current))) [
      | inl found ↦ at_head found
      | inr missed ↦
          let same_file =
            stat_same→eq (lookup p previous) (lookup p current)
              (not-true _ (sym (changed_paths-elem p previous current d) ∙ missed)) in
          in_tail (polls-elem p current later e ds (λ h. u (h ∙ sym same_file)))
    ]
