-- ===== src/SkillState/Allowed.antt =====
-- What the allowlist's validation accepts and gives (`_canonical_allowlist_items` and its callers in
-- scripts/josemar_skill_state.py).
use mathlib.Core.Path.{subst}
use josemar_assistente.Base.{
  ℕ, suc, String, ◌≡◌, refl, ◌∙◌, Bool, true, false, not, ◌&&◌, ◌||◌, List, [], ◌∷◌, ◌++◌, arith,
  str_eq, eq_iff, all, contains, contains-append_one, distinct, distinct-append_one, Bool-cases,
  inl, inr,
}
use josemar_assistente.Base.Order.{sort, ascending, ascending-sort, all-sort, contains-sort}
use josemar_assistente.Base.Json.{null, bool, num, str, arr, obj, Items, nil, cons}
use josemar_assistente.Base.Result.{Result, ok, err, Result-cases}
use josemar_assistente.SkillState.Normalize.{ValueError}
use josemar_assistente.SkillState.Allowlist.{canonical_items, canonical_allowlist_items}

-- The text stands in the list.
abbrev pub lists : String → Items → Bool
lists z nil = false
lists z (cons (str s) items) = str_eq s z || lists z items
lists z (cons item items) = lists z items

-- No error was raised.
abbrev pub accepted {ℓ} : {A : Type ℓ} → Result ValueError A → Bool
accepted (ok a) = true
accepted (err e) = false

module _ (strip : String → String) where
  abbrev pub is_shown : String → Bool
  is_shown s = not (str_eq (strip s) "")

  -- Sorted, none twice, none blank
  abbrev pub is_allowed_list : List String → Bool
  is_allowed_list xs = ascending xs && all is_shown xs

  -- The result holds the texts of the list and of `out`, none twice and none blank.
  abbrev Gathers : Items → List String → List String → Type 0
  Gathers items out xs =
      (distinct xs ≡ true)
      × (all is_shown xs ≡ true)
      × ((z : String) → contains z xs ≡ (contains z out || lists z items))

  -- A text that is there already, and one that is new.
  Gathers-old :
      (s : String) (items : Items) (out xs : List String)
      → contains s out ≡ true
      → Gathers items out xs
      → Gathers (cons (str s) items) out xs
  Gathers-old s items out xs old g = (g.0, g.1, λ z. g.2 z ∙ ground (arith, eq_iff s z))

  Gathers-new :
      (s : String) (items : Items) (out xs : List String)
      → Gathers items (out ++ s ∷ []) xs
      → Gathers (cons (str s) items) out xs
  Gathers-new s items out xs g =
      (g.0, g.1, λ z. g.2 z ∙ ground (arith, contains-append_one z s out))

  all-append_one :
      (test : String → Bool) (x : String) (xs : List String)
      → all test (xs ++ x ∷ []) ≡ (all test xs && test x)
  all-append_one test x [] = ground arith
  all-append_one test x (y ∷ ys) = ground (arith, all-append_one test x ys)

  canonical_items-Gathers :
      (idx : ℕ) (items : Items) (out xs : List String)
      → distinct out ≡ true
      → all is_shown out ≡ true
      → canonical_items strip idx items out ≡ ok xs
      → Gathers items out xs
  unfolding canonical_items
  canonical_items-Gathers idx nil out xs d a e =
      let given : out ≡ xs = cc in
      subst (λ (ys : List String). Gathers nil out ys) given (d, a, λ z. ground arith)
  canonical_items-Gathers idx (cons (str s) items) out xs d a e =
      elim (Bool-cases (str_eq (strip s) "")) [
        | inl blank ↦ ground arith
        | inr shown ↦ elim (Bool-cases (contains s out)) [
          | inl old ↦
              Gathers-old s items out xs old
                (canonical_items-Gathers (suc idx) items out xs d a (ground arith))
          | inr new ↦ Gathers-new s items out xs (
              canonical_items-Gathers (suc idx) items (out ++ s ∷ []) xs
                (distinct-append_one s out d new) (all-append_one is_shown s out ∙ ground arith)
                (ground arith))
        ]
      ]
  canonical_items-Gathers idx (cons null items) out xs d a e = ground arith
  canonical_items-Gathers idx (cons (bool b) items) out xs d a e = ground arith
  canonical_items-Gathers idx (cons (num n) items) out xs d a e = ground arith
  canonical_items-Gathers idx (cons (arr ys) items) out xs d a e = ground arith
  canonical_items-Gathers idx (cons (obj fs) items) out xs d a e = ground arith

  -- Whenever a list of values is accepted, the result is sorted, with no text twice and none blank,
  -- and holds exactly the texts of the list.
  pub canonical_allowlist_items-exact :
      (items : Items) (xs : List String)
      → canonical_allowlist_items strip (arr items) ≡ ok xs
      → (is_allowed_list xs ≡ true) × ((z : String) → contains z xs ≡ lists z items)
  unfolding canonical_allowlist_items
  canonical_allowlist_items-exact items xs e =
      elim (Result-cases (canonical_items strip 0 items [])) [
        | inl (x, failed) ↦ ground arith
        | inr (ys, done) ↦
            let g : Gathers items [] ys = canonical_items-Gathers 0 items [] ys refl refl done in
            let given : sort ys ≡ xs = ground arith in
            subst
              (λ (zs : List String).
                (is_allowed_list zs ≡ true) × ((z : String) → contains z zs ≡ lists z items))
              given
              (
                ground (arith, ascending-sort ys g.0, all-sort is_shown ys, g.1),
                λ z. contains-sort z ys ∙ g.2 z,
              )
      ]

  abbrev pub shown_items : Items → Bool
  shown_items nil = true
  shown_items (cons (str s) items) = is_shown s && shown_items items
  shown_items (cons item items) = false

  -- A list is accepted exactly when each element is a text that is not blank.
  pub canonical_items_accepts :
      (idx : ℕ) (items : Items) (out : List String)
      → accepted (canonical_items strip idx items out) ≡ shown_items items
  unfolding canonical_items
  canonical_items_accepts idx nil out = refl
  canonical_items_accepts idx (cons (str s) items) out = elim (Bool-cases (str_eq (strip s) "")) [
    | inl blank ↦ rw blank refl
    | inr shown ↦ rw shown (canonical_items_accepts (suc idx) items _)
  ]
  canonical_items_accepts idx (cons null items) out = refl
  canonical_items_accepts idx (cons (bool b) items) out = refl
  canonical_items_accepts idx (cons (num n) items) out = refl
  canonical_items_accepts idx (cons (arr ys) items) out = refl
  canonical_items_accepts idx (cons (obj fs) items) out = refl
