-- ===== src/Prelude/Sorting.antt =====
-- `sorted` on texts, and what it keeps.
use Prim.Native.String.{String}
use mathlib.Core.Path.{◌≡◌, refl, ap, ◌∙◌}
use mathlib.Core.Bool.{false, ◌||◌}
use mathlib.Core.List.{List, [], ◌∷◌}
use native.Mathlib.Omega.{arith}
use invoice_hub.Prelude.Tests.{str_eq, if◌then◌else◌, text_lt}
use invoice_hub.Prelude.Lists.{elem, is_empty}

abbrev pub put_sorted : String → List String → List String
put_sorted x [] = x ∷ []
put_sorted x (y ∷ ys) = if text_lt y x then y ∷ put_sorted x ys else x ∷ y ∷ ys

unfoldable pub sorted : List String → List String
sorted [] = []
sorted (x ∷ xs) = put_sorted x (sorted xs)

-- Sorting keeps the elements.
put_sorted-elem :
    (k x : String) (xs : List String) → elem k (put_sorted x xs) ≡ str_eq x k || elem k xs
put_sorted-elem k x [] = refl
put_sorted-elem k x (y ∷ ys) = ground (arith, put_sorted-elem k x ys)

pub sorted-elem : (k : String) (xs : List String) → elem k (sorted xs) ≡ elem k xs
unfolding sorted
sorted-elem k [] = refl
sorted-elem k (x ∷ xs) =
    put_sorted-elem k x (sorted xs) ∙ ap (λ b. str_eq x k || b) (sorted-elem k xs)

put_sorted-is_empty : (x : String) (xs : List String) → is_empty (put_sorted x xs) ≡ false
put_sorted-is_empty x [] = refl
put_sorted-is_empty x (y ∷ ys) = ground arith

pub sorted-is_empty : (xs : List String) → is_empty (sorted xs) ≡ is_empty xs
unfolding sorted
sorted-is_empty [] = refl
sorted-is_empty (x ∷ xs) = put_sorted-is_empty x (sorted xs)
