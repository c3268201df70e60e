-- ===== src/Base/Lists.antt =====
-- Lists measured by native numbers, and lists of texts.
use Prim.Native.Nat.{ℕ, suc, ◌+◌, ◌≤◌}
use Prim.Native.String.{String}
use mathlib.Core.Path.{◌≡◌, refl}
use mathlib.Core.Bool.{Bool, true, false, ◌&&◌, ◌||◌}
use mathlib.Core.List.{List, [], ◌∷◌, ◌++◌}
use native.Mathlib.Omega.{arith}
use text.Mathlib.Text.{◌==◌ as str_eq}
use text.Mathlib.TextEquality.{eq_iff}
use josemar_assistente.Base.Tests.{if◌then◌else◌, ltb, ◌==◌}

module _ {ℓ} {A : Type ℓ} where
  abbrev pub length : List A → ℕ
  length [] = 0
  length (x ∷ xs) = suc (length xs)

  pub length-append : (xs ys : List A) → length (xs ++ ys) ≡ length xs + length ys
  length-append [] ys = omega arith
  length-append (x ∷ xs) ys = omega (arith, length-append xs ys)

  -- `all(test(x) for x in xs)` and `any(test(x) for x in xs)`
  abbrev pub all : (A → Bool) → List A → Bool
  all test [] = true
  all test (x ∷ xs) = test x && all test xs

  abbrev pub any : (A → Bool) → List A → Bool
  any test [] = false
  any test (x ∷ xs) = test x || any test xs

  -- `[x for x in xs if test(x)]`
  abbrev pub keep_if : (A → Bool) → List A → List A
  keep_if test [] = []
  keep_if test (x ∷ xs) = let rest = keep_if test xs in if test x then x ∷ rest else rest

-- `tuple(sorted(set(ns)))`
abbrev pub insert_sorted : ℕ → List ℕ → List ℕ
insert_sorted n [] = n ∷ []
insert_sorted n (m ∷ ms) =
    let later = insert_sorted n ms in
    if ltb n m then n ∷ m ∷ ms else if n == m then m ∷ ms else m ∷ later

abbrev pub sorted_unique : List ℕ → List ℕ
sorted_unique [] = []
sorted_unique (n ∷ ns) = insert_sorted n (sorted_unique ns)

-- Every element satisfies a predicate.
abbrev pub All {ℓ κ} : {A : Type ℓ} → (A → Type κ) → List A → Type κ
All P [] = Unit
All P (x ∷ xs) = P x × All P xs

-- `x in xs` on texts
abbrev pub contains : String → List String → Bool
contains x [] = false
contains x (y ∷ ys) = str_eq y x || contains x ys

-- `xs.remove(x)` on texts: the first occurrence goes; an absent element changes nothing.
abbrev pub remove_first : String → List String → List String
remove_first x [] = []
remove_first x (y ∷ ys) = let rest = remove_first x ys in if str_eq y x then ys else y ∷ rest

-- No text stands twice.
abbrev pub distinct : List String → Bool
distinct [] = true
distinct (x ∷ xs) = (if contains x xs then false else true) && distinct xs

pub length-remove_first-le :
    (x : String) (xs : List String) → length (remove_first x xs) ≤ length xs
length-remove_first-le x [] = omega arith
length-remove_first-le x (y ∷ ys) = ground (arith, length-remove_first-le x ys)

pub contains-append_one :
    (x y : String) (xs : List String) → contains x (xs ++ y ∷ []) ≡ (contains x xs || str_eq y x)
contains-append_one x y [] = ground arith
contains-append_one x y (z ∷ zs) = ground (arith, contains-append_one x y zs)

-- In a list with no repetition, removal takes the element away and keeps the others.
pub contains-remove_first :
    (x y : String) (ys : List String)
    → distinct ys ≡ true
    → contains y (remove_first x ys) ≡ (if str_eq x y then false else contains y ys)
contains-remove_first x y [] d = ground arith
contains-remove_first x y (z ∷ zs) d =
    ground (arith, contains-remove_first x y zs, eq_iff x y, eq_iff z y, eq_iff z x)

pub distinct-remove_first :
    (x : String) (ys : List String) → distinct ys ≡ true → distinct (remove_first x ys) ≡ true
distinct-remove_first x [] d = refl
distinct-remove_first x (z ∷ zs) d =
    ground (arith, distinct-remove_first x zs, contains-remove_first x z zs, eq_iff x z)

pub distinct-append_one :
    (x : String) (ys : List String)
    → distinct ys ≡ true
    → contains x ys ≡ false
    → distinct (ys ++ x ∷ []) ≡ true
distinct-append_one x [] d n = refl
distinct-append_one x (z ∷ zs) d n =
    ground (arith, distinct-append_one x zs, contains-append_one z x zs, eq_iff z x, eq_iff x z)
