-- ===== src/SkillState/Sorted.antt =====
-- Dictionaries as `dict(sorted(d.items()))` and item assignment leave them
-- (scripts/josemar_skill_state.py).
use josemar_assistente.Base.{
  String, ◌≡◌, refl, ap, ◌∙◌, Bool, true, false, ◌&&◌, ◌||◌, List, [], ◌∷◌, ◌++◌, arith, str_eq,
  eq_iff, all, contains, distinct,
}
use josemar_assistente.Base.Order.{lt_text_asym, insert_text, sort, ascending}
use josemar_assistente.Base.Dict.{Dict, insert, keys}
use josemar_assistente.SkillState.Normalize.{insert_entry, sort_dict}

-- The keys and the values of a sorted dictionary.
module _ {ℓ} {V : Type ℓ} where
  abbrev pub values_all : (V → Bool) → Dict V → Bool
  values_all test [] = true
  values_all test (e ∷ es) = test e.1 && values_all test es

  keys-insert_entry :
      (e : String × V) (es : Dict V) → keys (insert_entry e es) ≡ insert_text e.0 (keys es)
  unfolding keys insert_entry insert_text
  keys-insert_entry e [] = refl
  keys-insert_entry e (f ∷ fs) = ground (arith, keys-insert_entry e fs)

  pub keys-sort_dict : (es : Dict V) → keys (sort_dict es) ≡ sort (keys es)
  unfolding keys sort_dict sort
  keys-sort_dict [] = refl
  keys-sort_dict (e ∷ es) =
      keys-insert_entry e (sort_dict es) ∙ ap (insert_text e.0) (keys-sort_dict es)

  values_all-insert_entry :
      (test : V → Bool) (e : String × V) (es : Dict V)
      → values_all test (insert_entry e es) ≡ (test e.1 && values_all test es)
  unfolding insert_entry
  values_all-insert_entry test e [] = refl
  values_all-insert_entry test e (f ∷ fs) = ground (arith, values_all-insert_entry test e fs)

  pub values_all-sort_dict :
      (test : V → Bool) (es : Dict V) → values_all test (sort_dict es) ≡ values_all test es
  unfolding sort_dict
  values_all-sort_dict test [] = refl
  values_all-sort_dict test (e ∷ es) =
      values_all-insert_entry test e (sort_dict es)
      ∙ ap (λ (b : Bool). test e.1 && b) (values_all-sort_dict test es)

  pub sort_dict-ascending_self : (es : Dict V) → ascending (keys es) ≡ true → sort_dict es ≡ es
  unfolding sort_dict insert_entry keys
  sort_dict-ascending_self [] a = refl
  sort_dict-ascending_self (e ∷ []) a = refl
  sort_dict-ascending_self (e ∷ f ∷ fs) a =
      ap (insert_entry e) (sort_dict-ascending_self (f ∷ fs) (ground arith))
      ∙ ground (arith, lt_text_asym e.0 f.0)

  pub insert-new :
      (key : String) (value : V) (es : Dict V)
      → contains key (keys es) ≡ false
      → insert key value es ≡ es ++ (key, value) ∷ []
  unfolding insert keys
  insert-new key value [] n = refl
  insert-new key value (e ∷ es) n = ground (arith, insert-new key value es)

  pub keys-append : (es fs : Dict V) → keys (es ++ fs) ≡ keys es ++ keys fs
  unfolding keys
  keys-append [] fs = refl
  keys-append (e ∷ es) fs = ap (λ (ks : List String). e.0 ∷ ks) (keys-append es fs)

  contains-keys-insert :
      (key other : String) (value : V) (es : Dict V)
      → contains other (keys (insert key value es)) ≡ (str_eq key other || contains other (keys es))
  unfolding insert keys
  contains-keys-insert key other value [] = refl
  contains-keys-insert key other value (e ∷ es) =
      ground (arith, contains-keys-insert key other value es, eq_iff e.0 key, eq_iff e.0 other)

  pub distinct-keys-insert :
      (key : String) (value : V) (es : Dict V)
      → distinct (keys es) ≡ true
      → distinct (keys (insert key value es)) ≡ true
  unfolding insert keys
  distinct-keys-insert key value [] d = refl
  distinct-keys-insert key value (e ∷ es) d = ground (
    arith,
    distinct-keys-insert key value es,
    contains-keys-insert key e.0 value es,
    eq_iff e.0 key,
    eq_iff key e.0,
  )

  pub all-keys-insert :
      (test : String → Bool) (key : String) (value : V) (es : Dict V)
      → test key ≡ true
      → all test (keys es) ≡ true
      → all test (keys (insert key value es)) ≡ true
  unfolding insert keys
  all-keys-insert test key value [] t a = ground arith
  all-keys-insert test key value (e ∷ es) t a = ground (arith, all-keys-insert test key value es)

  pub values_all-insert :
      (test : V → Bool) (key : String) (value : V) (es : Dict V)
      → test value ≡ true
      → values_all test es ≡ true
      → values_all test (insert key value es) ≡ true
  unfolding insert
  values_all-insert test key value [] t a = ground arith
  values_all-insert test key value (e ∷ es) t a =
      ground (arith, values_all-insert test key value es)
