-- ===== src/SkillState/Canonical.antt =====
-- Canonical skill toggles, and what normalizing does to them (scripts/josemar_skill_state.py).
use mathlib.Core.List.{append-nil, append_assoc}
use josemar_assistente.Base.{
  String, ◌≡◌, refl, sym, ap, ◌∙◌, Bool, true, false, not, ◌&&◌, List, [], ◌∷◌, ◌++◌, arith, str_eq,
  eq_iff, all, contains, contains-append_one,
}
use josemar_assistente.Base.Order.{lt_text, sort, ascending, sort-ascending_self, contains-above}
use josemar_assistente.Base.Dict.{Dict, keys}
use josemar_assistente.Base.Json.{Json, str, arr, obj, Items, nil, cons, Fields, end, field}
use josemar_assistente.Base.Result.{ok}
use josemar_assistente.SkillState.Normalize.{
  Toggles, add_text, add_item, add_items, normalize_string_list, add_platforms,
  normalize_platform_disabled, normalize_state,
}
use josemar_assistente.SkillState.Sorted.{
  values_all, sort_dict-ascending_self, insert-new, keys-append,
}

-- `list(xs)` as a value, and `{k: list(v) ...}`
abbrev pub items_of : List String → Items
items_of [] = nil
items_of (x ∷ xs) = cons (str x) (items_of xs)

abbrev pub fields_of : Dict (List String) → Fields
fields_of [] = end
fields_of (e ∷ es) = field e.0 (arr (items_of e.1)) (fields_of es)

-- Every element of the one list is absent from the other.
abbrev pub fresh : List String → List String → Bool
fresh xs out = all (λ x. not (contains x out)) xs

pub fresh-append_one :
    (x : String) (ys out : List String)
    → all (lt_text x) ys ≡ true
    → fresh ys out ≡ true
    → fresh ys (out ++ x ∷ []) ≡ true
fresh-append_one x [] out a f = refl
fresh-append_one x (y ∷ ys) out a f = ground (
  arith,
  fresh-append_one x ys out,
  contains-append_one y x out,
  contains-above x (y ∷ ys),
  eq_iff y x,
  eq_iff x y,
)

pub fresh_nil : (xs : List String) → fresh xs [] ≡ true
fresh_nil [] = refl
fresh_nil (x ∷ xs) = fresh_nil xs

module _ (text_of : Json → String) (strip : String → String) where
  -- A text that is its own stripped form, and not empty.
  abbrev pub is_clean : String → Bool
  is_clean s = str_eq (strip s) s && not (str_eq s "")

  abbrev pub is_canonical_list : List String → Bool
  is_canonical_list xs = ascending xs && all is_clean xs

  abbrev pub is_canonical_dict : Dict (List String) → Bool
  is_canonical_dict d = is_canonical_list (keys d) && values_all is_canonical_list d

  -- Sorted lists of clean texts, at sorted clean keys.
  abbrev pub is_canonical : Toggles → Bool
  is_canonical t = is_canonical_list t.disabled && is_canonical_dict t.platform_disabled

  add_item-clean :
      (x : String) (out : List String)
      → text_of (str x) ≡ x
      → is_clean x ≡ true
      → contains x out ≡ false
      → add_item text_of strip (str x) out ≡ out ++ x ∷ []
  unfolding add_item add_text
  add_item-clean x out t c n = rw t (ground (arith, eq_iff (strip x) x))

  add_items-canonical :
      ((s : String) → text_of (str s) ≡ s)
      → (xs out : List String) → is_canonical_list xs ≡ true
      → fresh xs out ≡ true
      → add_items text_of strip (items_of xs) out ≡ out ++ xs
  unfolding add_items
  add_items-canonical t [] out c f = sym (append-nil out)
  add_items-canonical t (x ∷ xs) out c f =
      ap (add_items text_of strip (items_of xs))
        (add_item-clean x out (t x) (ground arith) (ground arith))
      ∙ (add_items-canonical t xs (out ++ x ∷ []) (ground arith)
            (fresh-append_one x xs out (ground arith) (ground arith))
          ∙ append_assoc out (x ∷ []) xs)

  pub normalize_string_list-canonical :
      ((s : String) → text_of (str s) ≡ s)
      → (xs : List String) → is_canonical_list xs ≡ true
      → normalize_string_list text_of strip (arr (items_of xs)) ≡ ok xs
  unfolding normalize_string_list
  normalize_string_list-canonical t xs c =
      ap (λ (ys : List String). ok (sort ys)) (add_items-canonical t xs [] c (fresh_nil xs))
      ∙ ap (λ (ys : List String). ok ys) (sort-ascending_self xs (ground arith))

  add_platforms-canonical :
      ((s : String) → text_of (str s) ≡ s)
      → (es out : Dict (List String)) → is_canonical_dict es ≡ true
      → fresh (keys es) (keys out) ≡ true
      → add_platforms text_of strip (fields_of es) out ≡ ok (out ++ es)
  unfolding add_platforms keys
  add_platforms-canonical t [] out c f =
      ap (λ (d : Dict (List String)). ok d) (sym (append-nil out))
  add_platforms-canonical t (e ∷ es) out c f =
      let stripped : strip e.0 ≡ e.0 = ground (arith, eq_iff (strip e.0) e.0) in
      let filled : str_eq e.0 "" ≡ false = ground arith in
      rw
        (
          stripped,
          filled,
          normalize_string_list-canonical t e.1 (ground arith),
          insert-new e.0 e.1 out (ground arith),
        )
        (add_platforms-canonical t es (out ++ e ∷ []) (ground arith) (
            rw (keys-append out (e ∷ []))
              (fresh-append_one e.0 (keys es) (keys out) (ground arith) (ground arith)))
          ∙ ap (λ (d : Dict (List String)). ok d) (append_assoc out (e ∷ []) es))

  normalize_platform_disabled-canonical :
      ((s : String) → text_of (str s) ≡ s)
      → (d : Dict (List String)) → is_canonical_dict d ≡ true
      → normalize_platform_disabled text_of strip (obj (fields_of d)) ≡ ok d
  unfolding normalize_platform_disabled keys
  normalize_platform_disabled-canonical t d c =
      rw (add_platforms-canonical t d [] c (fresh_nil (keys d)))
        (ap (λ (e : Dict (List String)). ok e) (sort_dict-ascending_self d (ground arith)))

  -- A canonical state is its own normal form.
  pub normalize_state-canonical :
      ((s : String) → text_of (str s) ≡ s)
      → (t : Toggles) → is_canonical t ≡ true
      → normalize_state text_of strip
          (arr (items_of t.disabled))
          (obj (fields_of t.platform_disabled))
        ≡ ok t
  unfolding normalize_state
  normalize_state-canonical texts t c =
      rw
        (
          normalize_string_list-canonical texts t.disabled (ground arith),
          normalize_platform_disabled-canonical texts t.platform_disabled (ground arith),
        )
        refl
