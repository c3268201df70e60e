-- ===== src/SkillState/Normal.antt =====
-- The results of normalizing are canonical (`normalize_state` of scripts/josemar_skill_state.py).
use mathlib.Core.Path.{subst}
use josemar_assistente.Base.{
  String, ◌≡◌, refl, ap, Bool, true, false, ◌&&◌, List, [], ◌∷◌, ◌++◌, arith, str_eq, eq_iff, all,
  distinct, distinct-append_one, Bool-cases, inl, inr,
}
use josemar_assistente.Base.Order.{sort, ascending-sort, all-sort}
use josemar_assistente.Base.Dict.{Dict, insert, keys}
use josemar_assistente.Base.Json.{
  Json, null, bool, num, str, arr, obj, Items, nil, cons, Fields, end, field,
}
use josemar_assistente.Base.Result.{Result, ok, err, Result-cases}
use josemar_assistente.SkillState.Normalize.{
  ValueError, Toggles, add_text, add_item, add_items, normalize_string_list, add_platforms,
  normalize_platform_disabled, normalize_state,
}
use josemar_assistente.SkillState.Sorted.{
  values_all, keys-sort_dict, values_all-sort_dict, distinct-keys-insert, all-keys-insert,
  values_all-insert,
}
use josemar_assistente.SkillState.Canonical.{
  is_clean, is_canonical_list, is_canonical_dict, is_canonical,
}

-- A result, if there is one, passes the test.
abbrev holds {ℓ} : {A : Type ℓ} → (A → Bool) → Result ValueError A → Bool
holds test (ok a) = test a
holds test (err e) = true

module _ (text_of : Json → String) (strip : String → String)
    (strip_idem : (s : String) → strip (strip s) ≡ strip s) where
  -- The texts gathered so far: none twice, each clean.
  abbrev is_gathered : List String → Bool
  is_gathered out = distinct out && all (is_clean text_of strip) out

  is_clean-strip :
      (s : String) → str_eq (strip s) "" ≡ false → is_clean text_of strip (strip s) ≡ true
  is_clean-strip s e = ground (arith, strip_idem s, eq_iff (strip (strip s)) (strip s))

  all-append_one :
      (test : String → Bool) (x : String) (xs : List String)
      → all test (xs ++ x ∷ []) ≡ (all test xs && test x)
  all-append_one test x [] = ground arith
  all-append_one test x (y ∷ ys) = ground (arith, all-append_one test x ys)

  add_text-gathered :
      (s : String) (out : List String)
      → is_gathered out ≡ true
      → is_gathered (add_text text_of strip (strip s) out) ≡ true
  unfolding add_text
  add_text-gathered s out g = ground (
    arith,
    is_clean-strip s,
    distinct-append_one (strip s) out,
    all-append_one (is_clean text_of strip) (strip s) out,
  )

  add_items-gathered :
      (items : Items) (out : List String)
      → is_gathered out ≡ true
      → is_gathered (add_items text_of strip items out) ≡ true
  unfolding add_items add_item
  add_items-gathered nil out g = g
  add_items-gathered (cons null items) out g = add_items-gathered items out g
  add_items-gathered (cons (bool b) items) out g =
      add_items-gathered items _ (add_text-gathered (text_of (bool b)) out g)
  add_items-gathered (cons (num n) items) out g =
      add_items-gathered items _ (add_text-gathered (text_of (num n)) out g)
  add_items-gathered (cons (str s) items) out g =
      add_items-gathered items _ (add_text-gathered (text_of (str s)) out g)
  add_items-gathered (cons (arr xs) items) out g =
      add_items-gathered items _ (add_text-gathered (text_of (arr xs)) out g)
  add_items-gathered (cons (obj fs) items) out g =
      add_items-gathered items _ (add_text-gathered (text_of (obj fs)) out g)

  is_canonical_list-sort :
      (xs : List String) → is_gathered xs ≡ true → is_canonical_list text_of strip (sort xs) ≡ true
  is_canonical_list-sort xs g =
      ground (arith, ascending-sort xs, all-sort (is_clean text_of strip) xs)

  normalize_string_list-holds :
      (value : Json)
      → holds (is_canonical_list text_of strip) (normalize_string_list text_of strip value) ≡ true
  unfolding normalize_string_list
  normalize_string_list-holds null = refl
  normalize_string_list-holds (bool b) = refl
  normalize_string_list-holds (num n) = refl
  normalize_string_list-holds (str s) =
      is_canonical_list-sort _ (add_items-gathered (cons (str s) nil) [] refl)
  normalize_string_list-holds (arr xs) = is_canonical_list-sort _ (add_items-gathered xs [] refl)
  normalize_string_list-holds (obj fs) = refl

  -- The platforms so far.
  abbrev is_built : Dict (List String) → Bool
  is_built d = is_gathered (keys d) && values_all (is_canonical_list text_of strip) d

  add_platforms-holds :
      (fs : Fields) (out : Dict (List String))
      → is_built out ≡ true
      → holds is_built (add_platforms text_of strip fs out) ≡ true
  unfolding add_platforms
  add_platforms-holds end out b = b
  add_platforms-holds (field platform items rest) out b =
      elim (Bool-cases (str_eq (strip platform) "")) [
        | inl blank ↦ rw blank refl
        | inr filled ↦ rw filled (elim (Result-cases (normalize_string_list text_of strip items)) [
          | inl (e, failed) ↦ rw failed refl
          | inr (texts, done) ↦
              let canonical : is_canonical_list text_of strip texts ≡ true =
                subst
                  (λ (r : Result ValueError (List String)).
                    holds (is_canonical_list text_of strip) r ≡ true)
                  done (normalize_string_list-holds items) in
              rw done (
                add_platforms-holds rest (insert (strip platform) texts out) (
                  ground (
                    arith,
                    is_clean-strip platform filled,
                    distinct-keys-insert (strip platform) texts out,
                    all-keys-insert (is_clean text_of strip) (strip platform) texts out,
                    values_all-insert (is_canonical_list text_of strip) (strip platform) texts out,
                  )))
        ])
      ]

  normalize_platform_disabled-holds :
      (value : Json)
      → holds (is_canonical_dict text_of strip) (normalize_platform_disabled text_of strip value)
        ≡ true
  unfolding normalize_platform_disabled keys
  normalize_platform_disabled-holds null = refl
  normalize_platform_disabled-holds (bool b) = refl
  normalize_platform_disabled-holds (num n) = refl
  normalize_platform_disabled-holds (str s) = refl
  normalize_platform_disabled-holds (arr xs) = refl
  normalize_platform_disabled-holds (obj fs) =
      elim (Result-cases (add_platforms text_of strip fs [])) [
        | inl (e, failed) ↦ rw failed refl
        | inr (d, done) ↦
            let built : is_built d ≡ true =
              subst (λ (r : Result ValueError (Dict (List String))). holds is_built r ≡ true) done
                (add_platforms-holds fs [] refl) in
            rw done (
              ground (
                arith,
                keys-sort_dict d,
                ascending-sort (keys d),
                all-sort (is_clean text_of strip) (keys d),
                values_all-sort_dict (is_canonical_list text_of strip) d,
              ))
      ]

  -- Let stripping a stripped text change nothing. Whenever values are normalized, every list of the
  -- result is sorted, with no text twice, and each of its texts is stripped and not empty; so are
  -- the platforms' names.
  pub normalize_state-canonical_result :
      (disabled platform_disabled : Json) (t : Toggles)
      → normalize_state text_of strip disabled platform_disabled ≡ ok t
      → is_canonical text_of strip t ≡ true
  unfolding normalize_state
  normalize_state-canonical_result disabled platform_disabled t e =
      elim (Result-cases (normalize_string_list text_of strip disabled)) [
        | inl (x, failed) ↦ ground (arith)
        | inr (texts, done) ↦
            elim (Result-cases (normalize_platform_disabled text_of strip platform_disabled)) [
              | inl (x, failed) ↦ ground (arith)
              | inr (platforms, built) ↦ ground (
                arith,
                ap (holds (is_canonical_list text_of strip)) done,
                ap (holds (is_canonical_dict text_of strip)) built,
                normalize_string_list-holds disabled,
                normalize_platform_disabled-holds platform_disabled,
              )
            ]
      ]
