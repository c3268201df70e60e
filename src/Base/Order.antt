-- ===== src/Base/Order.antt =====
-- The order of texts that `sorted` goes by, and `sorted` itself.
use Prim.Native.Nat.{ℕ, Ordering, compare as compare_ℕ}
use Prim.Native.Char.{code}
use Prim.Native.String.compare
use Prim.Native.String.{String, compare, then as chain}
use mathlib.Core.Path.{◌≡◌, refl, sym, ap, ◌∙◌}
use mathlib.Core.Bool.{Bool, true, false, ◌&&◌, ◌||◌, false≢true}
use mathlib.Core.List.{List, [], ◌∷◌}
use native.Mathlib.Omega.{arith}
use text.Mathlib.Text.{◌==◌ as str_eq, is_lt}
use text.Mathlib.TextEquality.{eq_iff, path_by_compare}
use text.Mathlib.TextPositions.{compare_refl}
use josemar_assistente.Base.Tests.{if◌then◌else◌}
use josemar_assistente.Base.Lists.{all, contains, distinct}

-- `s < t`
abbrev pub lt_text : String → String → Bool
lt_text s t = is_lt (compare s t)

abbrev flip : Ordering → Ordering
flip Ordering.lt = Ordering.gt
flip Ordering.eq = Ordering.eq
flip Ordering.gt = Ordering.lt

flip-compare_ℕ : (m n : ℕ) → compare_ℕ n m ≡ flip (compare_ℕ m n)
flip-compare_ℕ m n = ground arith

flip-chain : (o p : Ordering) → flip (chain o p) ≡ chain (flip o) (flip p)
flip-chain Ordering.lt p = refl
flip-chain Ordering.eq p = refl
flip-chain Ordering.gt p = refl

flip-compare : (s t : String) → compare t s ≡ flip (compare s t)
flip-compare String.[] String.[] = compare.nil-nil ∙ ap flip (sym compare.nil-nil)
flip-compare String.[] (String.◌∷◌ d t) =
    compare.cons-nil d t ∙ ap flip (sym (compare.nil-cons d t))
flip-compare (String.◌∷◌ c s) String.[] =
    compare.nil-cons c s ∙ ap flip (sym (compare.cons-nil c s))
flip-compare (String.◌∷◌ c s) (String.◌∷◌ d t) =
    compare.cons-cons d c t s
    ∙ (ap (λ (o : Ordering). chain o (compare t s)) (flip-compare_ℕ (code c) (code d))
        ∙ (ap (λ (o : Ordering). chain (flip (compare_ℕ (code c) (code d))) o) (flip-compare s t)
            ∙ (sym (flip-chain (compare_ℕ (code c) (code d)) (compare s t))
                ∙ ap flip (sym (compare.cons-cons c d s t)))))

chain_trans :
    (a b c : ℕ) (o p q : Ordering)
    → (is_lt o ≡ true → is_lt p ≡ true → is_lt q ≡ true)
    → is_lt (chain (compare_ℕ a b) o) ≡ true
    → is_lt (chain (compare_ℕ b c) p) ≡ true
    → is_lt (chain (compare_ℕ a c) q) ≡ true
chain_trans a b c o p q tails = ground arith

not_lt_nil : (s : String) → lt_text s "" ≡ false
not_lt_nil String.[] = ap is_lt compare.nil-nil
not_lt_nil (String.◌∷◌ c s) = ap is_lt (compare.cons-nil c s)

pub lt_text_trans : (s t u : String) → lt_text s t ≡ true → lt_text t u ≡ true → lt_text s u ≡ true
lt_text_trans s t String.[] = λ h k. absurd (false≢true (sym (not_lt_nil t) ∙ k))
lt_text_trans String.[] t (String.◌∷◌ e u) = λ h k. ap is_lt (compare.nil-cons e u)
lt_text_trans (String.◌∷◌ c s) String.[] (String.◌∷◌ e u) =
    λ h k. absurd (false≢true (sym (not_lt_nil (String.◌∷◌ c s)) ∙ h))
lt_text_trans (String.◌∷◌ c s) (String.◌∷◌ d t) (String.◌∷◌ e u) = λ h k.
    ap is_lt (compare.cons-cons c e s u)
    ∙ chain_trans (code c) (code d) (code e) (compare s t) (compare t u) (compare s u)
        (lt_text_trans s t u) (ap is_lt (sym (compare.cons-cons c d s t)) ∙ h)
        (ap is_lt (sym (compare.cons-cons d e t u)) ∙ k)

-- Two different texts are in one order or the other.
lt_text_of_not :
    (o : Ordering) (s t : String)
    → compare s t ≡ o
    → is_lt o ≡ false
    → str_eq s t ≡ false
    → lt_text t s ≡ true
lt_text_of_not Ordering.lt s t e n d = ground arith
lt_text_of_not Ordering.eq s t e n d = ground (arith, eq_iff s t, path_by_compare s t e)
lt_text_of_not Ordering.gt s t e n d = ap is_lt (flip-compare s t) ∙ rw e refl

pub lt_text_total : (s t : String) → lt_text s t ≡ false → str_eq s t ≡ false → lt_text t s ≡ true
lt_text_total s t = lt_text_of_not (compare s t) s t refl

is_lt-flip : (o : Ordering) → is_lt o ≡ true → is_lt (flip o) ≡ false
is_lt-flip Ordering.lt e = refl
is_lt-flip Ordering.eq e = refl
is_lt-flip Ordering.gt e = ground arith

pub lt_text_asym : (s t : String) → lt_text s t ≡ true → lt_text t s ≡ false
lt_text_asym s t e = ap is_lt (flip-compare s t) ∙ is_lt-flip (compare s t) e

pub lt_text_irrefl : (s : String) → lt_text s s ≡ false
lt_text_irrefl s = ap is_lt (compare_refl s)

-- `sorted(xs)`
unfoldable pub insert_text : String → List String → List String
insert_text x [] = x ∷ []
insert_text x (y ∷ ys) =
    let later = insert_text x ys in if lt_text y x then y ∷ later else x ∷ y ∷ ys

unfoldable pub sort : List String → List String
sort [] = []
sort (x ∷ xs) = insert_text x (sort xs)

-- Each element comes before all later ones, so none stands twice.
abbrev pub ascending : List String → Bool
ascending [] = true
ascending (x ∷ xs) = all (lt_text x) xs && ascending xs

pub sort-ascending_self : (xs : List String) → ascending xs ≡ true → sort xs ≡ xs
unfolding sort insert_text
sort-ascending_self [] a = refl
sort-ascending_self (x ∷ []) a = refl
sort-ascending_self (x ∷ y ∷ ys) a =
    ap (insert_text x) (sort-ascending_self (y ∷ ys) (ground arith))
    ∙ ground (arith, lt_text_asym x y)

pub contains-insert_text :
    (x z : String) (ys : List String)
    → contains z (insert_text x ys) ≡ (str_eq x z || contains z ys)
unfolding insert_text
contains-insert_text x z [] = refl
contains-insert_text x z (y ∷ ys) = ground (arith, contains-insert_text x z ys)

pub contains-sort : (z : String) (xs : List String) → contains z (sort xs) ≡ contains z xs
unfolding sort
contains-sort z [] = refl
contains-sort z (x ∷ xs) =
    contains-insert_text x z (sort xs) ∙ ap (λ (b : Bool). str_eq x z || b) (contains-sort z xs)

pub all-insert_text :
    (test : String → Bool) (x : String) (ys : List String)
    → all test (insert_text x ys) ≡ (test x && all test ys)
unfolding insert_text
all-insert_text test x [] = refl
all-insert_text test x (y ∷ ys) = ground (arith, all-insert_text test x ys)

pub all-sort : (test : String → Bool) (xs : List String) → all test (sort xs) ≡ all test xs
unfolding sort
all-sort test [] = refl
all-sort test (x ∷ xs) =
    all-insert_text test x (sort xs) ∙ ap (λ (b : Bool). test x && b) (all-sort test xs)

all-lt_text :
    (x y : String) (zs : List String)
    → lt_text x y ≡ true
    → all (lt_text y) zs ≡ true
    → all (lt_text x) zs ≡ true
all-lt_text x y [] e a = refl
all-lt_text x y (z ∷ zs) e a = ground (arith, lt_text_trans x y z e, all-lt_text x y zs e)

ascending-insert_text :
    (x : String) (ys : List String)
    → ascending ys ≡ true
    → contains x ys ≡ false
    → ascending (insert_text x ys) ≡ true
unfolding insert_text
ascending-insert_text x [] a n = refl
ascending-insert_text x (y ∷ ys) a n = ground (
  arith,
  ascending-insert_text x ys,
  all-insert_text (lt_text y) x ys,
  lt_text_total y x,
  all-lt_text x y ys,
)

pub ascending-sort : (xs : List String) → distinct xs ≡ true → ascending (sort xs) ≡ true
unfolding sort
ascending-sort [] d = refl
ascending-sort (x ∷ xs) d =
    ascending-insert_text x (sort xs) (ascending-sort xs (ground arith))
      (contains-sort x xs ∙ ground arith)

-- An element of an ascending list is not among the later ones.
pub contains-above :
    (x : String) (xs : List String) → all (lt_text x) xs ≡ true → contains x xs ≡ false
contains-above x [] a = refl
contains-above x (y ∷ ys) a = ground (arith, contains-above x ys, eq_iff y x, lt_text_irrefl x)
