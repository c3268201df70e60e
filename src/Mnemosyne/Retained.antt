-- ===== src/Mnemosyne/Retained.antt =====
-- What the pruning of generations may remove (`_prune_staging` of
-- scripts/mnemosyne_backup_core.py).
use josemar_assistente.Base.{
  ℕ, ◌-◌, ◌+◌, ◌≤◌, String, ◌≡◌, refl, sym, ap, ◌∙◌, Bool, true, false, ◌&&◌, ◌||◌, Option, List,
  [], ◌∷◌, length, leb, all, contains, distinct, keep_if, str_eq, eq_iff, ◌==◌, arith, Bool-cases,
  inl, inr,
}
use josemar_assistente.Base.Order.{lt_text, lt_text_trans, lt_text_total}
use josemar_assistente.Base.Fields.{of_bool}
use josemar_assistente.Mnemosyne.Prune.{
  StagingEntry, generations, insert_newest, newest_first, beyond, is_name, is_deletable,
  prune_staging,
}

-- How many of the generations are newer
unfoldable pub count_newer : String → List String → ℕ
count_newer name [] = 0
count_newer name (x ∷ xs) = of_bool (lt_text name x) + count_newer name xs

abbrev descending : List String → Bool
descending [] = true
descending (x ∷ xs) = all (λ y. lt_text y x) xs && descending xs

contains-insert_newest :
    (x z : String) (ys : List String)
    → contains z (insert_newest x ys) ≡ (str_eq x z || contains z ys)
unfolding insert_newest
contains-insert_newest x z [] = refl
contains-insert_newest x z (y ∷ ys) = ground (arith, contains-insert_newest x z ys)

contains-newest_first :
    (z : String) (xs : List String) → contains z (newest_first xs) ≡ contains z xs
unfolding newest_first
contains-newest_first z [] = refl
contains-newest_first z (x ∷ xs) =
    contains-insert_newest x z (newest_first xs)
    ∙ ap (λ (b : Bool). str_eq x z || b) (contains-newest_first z xs)

count_newer-insert_newest :
    (name x : String) (ys : List String)
    → count_newer name (insert_newest x ys) ≡ of_bool (lt_text name x) + count_newer name ys
unfolding insert_newest count_newer
count_newer-insert_newest name x [] = refl
count_newer-insert_newest name x (y ∷ ys) = elim (Bool-cases (lt_text x y)) [
  | inl older ↦ let later = count_newer-insert_newest name x ys in rw older (omega arith)
  | inr newer ↦ rw newer refl
]

count_newer-newest_first :
    (name : String) (xs : List String) → count_newer name (newest_first xs) ≡ count_newer name xs
unfolding newest_first count_newer
count_newer-newest_first name [] = refl
count_newer-newest_first name (x ∷ xs) =
    count_newer-insert_newest name x (newest_first xs)
    ∙ ap (λ (n : ℕ). of_bool (lt_text name x) + n) (count_newer-newest_first name xs)

all-older :
    (x y : String) (zs : List String)
    → lt_text y x ≡ true
    → all (λ z. lt_text z y) zs ≡ true
    → all (λ z. lt_text z x) zs ≡ true
all-older x y [] e a = refl
all-older x y (z ∷ zs) e a = ground (arith, lt_text_trans z y x, all-older x y zs e)

all-insert_newest :
    (test : String → Bool) (x : String) (ys : List String)
    → all test (insert_newest x ys) ≡ (test x && all test ys)
unfolding insert_newest
all-insert_newest test x [] = refl
all-insert_newest test x (y ∷ ys) = ground (arith, all-insert_newest test x ys)

descending-insert_newest :
    (x : String) (ys : List String)
    → descending ys ≡ true
    → contains x ys ≡ false
    → descending (insert_newest x ys) ≡ true
unfolding insert_newest
descending-insert_newest x [] a n = refl
descending-insert_newest x (y ∷ ys) a n = ground (
  arith,
  descending-insert_newest x ys,
  all-insert_newest (λ z. lt_text z y) x ys,
  lt_text_total x y,
  all-older x y ys,
  eq_iff x y,
  eq_iff y x,
  eq_iff x y,
  eq_iff y x,
)

descending-newest_first :
    (xs : List String) → distinct xs ≡ true → descending (newest_first xs) ≡ true
unfolding newest_first
descending-newest_first [] d = refl
descending-newest_first (x ∷ xs) d =
    descending-insert_newest x (newest_first xs) (descending-newest_first xs (ground arith))
      (contains-newest_first x xs ∙ ground arith)

contains-all :
    (test : String → Bool) (name : String) (xs : List String)
    → all test xs ≡ true
    → contains name xs ≡ true
    → test name ≡ true
contains-all test name [] a c = ground arith
contains-all test name (x ∷ xs) a c = elim (Bool-cases (str_eq x name)) [
  | inl own ↦ ap test (sym ((eq_iff x name).0 own)) ∙ ground arith
  | inr other ↦ contains-all test name xs (ground arith) (ground arith)
]

contains-beyond :
    (name : String) (xs : List String) (keep : ℕ)
    → contains name (beyond xs keep) ≡ true
    → contains name xs ≡ true
unfolding beyond
contains-beyond name [] keep c = c
contains-beyond name (x ∷ xs) keep c = ground (arith, contains-beyond name xs (keep - 1))

-- Beyond the retained ones, at least as many are newer.
beyond-count_newer :
    (name : String) (xs : List String) (keep : ℕ)
    → descending xs ≡ true
    → contains name (beyond xs keep) ≡ true
    → keep ≤ count_newer name xs
unfolding beyond count_newer
beyond-count_newer name [] keep d c = ground arith
beyond-count_newer name (x ∷ xs) keep d c = elim (Bool-cases (keep == 0)) [
  | inl none_kept ↦ ground arith
  | inr some_kept ↦
      let later : contains name (beyond xs (keep - 1)) ≡ true = (rw some_kept at c) in
      let older : lt_text name x ≡ true =
        contains-all (λ y. lt_text y x) name xs (ground arith)
          (contains-beyond name xs (keep - 1) later) in
      let rest = beyond-count_newer name xs (keep - 1) (ground arith) later in
      rw older (omega (arith, rest))
]

contains-keep_if :
    (test : String → Bool) (name : String) (xs : List String)
    → contains name (keep_if test xs) ≡ true
    → (contains name xs ≡ true) × (test name ≡ true)
contains-keep_if test name [] c = ground arith
contains-keep_if test name (x ∷ xs) c = elim (Bool-cases (test x)) [
  | inr dropped ↦
      let later = contains-keep_if test name xs (rw dropped at c) in (ground arith, later.1)
  | inl passed ↦
      let here : (str_eq x name || contains name (keep_if test xs)) ≡ true = (rw passed at c) in
      elim (Bool-cases (str_eq x name)) [
        | inl own ↦ (ground arith, ap test (sym ((eq_iff x name).0 own)) ∙ passed)
        | inr other ↦
            let later = contains-keep_if test name xs (ground arith) in (ground arith, later.1)
      ]
]

-- Where the names of a directory are distinct, a removed generation is one of the directory, it is
-- acknowledged, it is neither the current nor the latest one, and at least `keep` generations are
-- newer.
pub prune_staging_safe :
    (is_valid : String → Bool) (entries : List StagingEntry) (keep : ℕ) (acked : List String)
    (latest current : Option String) (name : String)
    → distinct (generations is_valid entries) ≡ true
    → contains name (prune_staging is_valid entries keep acked latest current) ≡ true
    → (contains name (generations is_valid entries) ≡ true)
      × (contains name acked ≡ true)
      × (is_name name current ≡ false)
      × (is_name name latest ≡ false)
      × (keep ≤ count_newer name (generations is_valid entries))
unfolding prune_staging
prune_staging_safe is_valid entries keep acked latest current name d c =
    let gens : List String = generations is_valid entries in
    elim (Bool-cases (keep == 0 || leb (length gens) keep)) [
      | inl few ↦ let nothing = (rw few at c) in ground arith
      | inr many ↦
          let parts =
            contains-keep_if (is_deletable acked latest current) name
              (beyond (newest_first gens) keep) (rw many at c) in
          let inside = contains-beyond name (newest_first gens) keep parts.0 in
          let newer =
            beyond-count_newer name (newest_first gens) keep (descending-newest_first gens d)
              parts.0 in
          (
            sym (contains-newest_first name gens) ∙ inside,
            ground arith,
            ground arith,
            ground arith,
            omega (arith, newer, count_newer-newest_first name gens),
          )
    ]
