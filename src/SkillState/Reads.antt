-- ===== src/SkillState/Reads.antt =====
-- Reading at one path after writing at another (`_set_nested` and `_del_nested` of
-- scripts/josemar_skill_state.py).
use mathlib.Core.Bool.{false≢true}
use josemar_assistente.Base.{
  String, ◌≡◌, refl, sym, ap, ◌∙◌, true, false, not, Option, none, some, List, [], ◌∷◌, arith,
  str_eq, eq_iff, Bool-cases, inl, inr,
}
use josemar_assistente.Base.Fields.{get, put, same, get-put, put_self}
use josemar_assistente.Base.Json.{Json, null, bool, num, str, arr, obj, Fields, end}
use josemar_assistente.SkillState.Config.{or_default, get_or}
use josemar_assistente.SkillState.Nested.{child_of, differs, put_nested, get_nested, diverges}

-- Only the value at the first key counts.
pub get_nested-cong :
    (b : String) (q : List String) (m n : Fields)
    → get b m ≡ get b n
    → get_nested (b ∷ q) m ≡ get_nested (b ∷ q) n
unfolding get_nested
get_nested-cong b [] m n e = e
get_nested-cong b (c ∷ q) m n e = ap (λ (o : Option Json). get_nested (c ∷ q) (child_of o)) e

pub get_nested-put_other :
    (k b : String) (q : List String) (value : Json) (node : Fields)
    → str_eq k b ≡ false
    → get_nested (b ∷ q) (put k value node) ≡ get_nested (b ∷ q) node
get_nested-put_other k b q value node e =
    get_nested-cong b q (put k value node) node (get-put k b value node ∙ rw e refl)

get-put_own :
    (k b : String) (value : Json) (node : Fields)
    → str_eq k b ≡ true
    → get b (put k value node) ≡ some value
get-put_own k b value node e = get-put k b value node ∙ rw e refl

pub child_of-put :
    (k b : String) (fs node : Fields)
    → str_eq k b ≡ true
    → child_of (get b (put k (obj fs) node)) ≡ fs
child_of-put k b fs node e = ap child_of (get-put_own k b (obj fs) node e)

-- Writing at one path leaves what is at a diverging one.
pub get_nested-put_nested_other :
    (p q : List String) (value : Json) (node : Fields)
    → diverges p q ≡ true
    → get_nested q (put_nested p value node) ≡ get_nested q node
unfolding put_nested get_nested
get_nested-put_nested_other [] q value node d = ground arith
get_nested-put_nested_other (k ∷ p) [] value node d = ground arith
get_nested-put_nested_other (k ∷ []) (b ∷ q) value node d = elim (Bool-cases (str_eq k b)) [
  | inl own ↦ ground arith
  | inr apart ↦ elim (Bool-cases (same (get_or k null node) value)) [
    | inl kept ↦ rw kept refl
    | inr changed ↦ rw changed (get_nested-put_other k b q value node apart)
  ]
]
get_nested-put_nested_other (k ∷ j ∷ p) (b ∷ []) value node d = elim (Bool-cases (str_eq k b)) [
  | inl own ↦ ground arith
  | inr apart ↦ get_nested-put_other k b [] _ node apart
]
get_nested-put_nested_other (k ∷ j ∷ p) (b ∷ c ∷ q) value node d = elim (Bool-cases (str_eq k b)) [
  | inl own ↦
      let here : get k node ≡ get b node = ap (λ (x : String). get x node) ((eq_iff k b).0 own) in
      let below : diverges (j ∷ p) (c ∷ q) ≡ true = ground arith in
      ap (get_nested (c ∷ q))
        (child_of-put k b (put_nested (j ∷ p) value (child_of (get k node))) node own)
      ∙ (get_nested-put_nested_other (j ∷ p) (c ∷ q) value (child_of (get k node)) below
          ∙ ap (λ (o : Option Json). get_nested (c ∷ q) (child_of o)) here)
  | inr apart ↦ get_nested-put_other k b (c ∷ q) _ node apart
]

same_text_value :
    (o : Option Json) (s : String) → same (or_default null o) (str s) ≡ true → o ≡ some (str s)
unfolding same
same_text_value none s e = ground arith
same_text_value (some null) s e = ground arith
same_text_value (some (bool b)) s e = ground arith
same_text_value (some (num n)) s e = ground arith
same_text_value (some (str t)) s e = ap (λ (x : String). some (str x)) ((eq_iff t s).0 e)
same_text_value (some (arr xs)) s e = ground arith
same_text_value (some (obj fs)) s e = ground arith

-- A text that is written is read back.
pub get_nested-put_nested_text :
    (k : String) (p : List String) (s : String) (node : Fields)
    → get_nested (k ∷ p) (put_nested (k ∷ p) (str s) node) ≡ some (str s)
unfolding put_nested get_nested
get_nested-put_nested_text k [] s node = elim (Bool-cases (same (get_or k null node) (str s))) [
  | inl kept ↦ rw kept (same_text_value (get k node) s kept)
  | inr changed ↦ rw changed (get-put_own k k (str s) node ((eq_iff k k).1 refl))
]
get_nested-put_nested_text k (j ∷ p) s node =
    ap (get_nested (j ∷ p)) (
      child_of-put k k (put_nested (j ∷ p) (str s) (child_of (get k node))) node
        ((eq_iff k k).1 refl))
    ∙ get_nested-put_nested_text j p s (child_of (get k node))

-- What has been written differs no more, if the value equals itself.
pub differs-put_nested_self :
    (p : List String) (value : Json) (node : Fields)
    → same value value ≡ true
    → differs p value (put_nested p value node) ≡ false
unfolding differs put_nested
differs-put_nested_self [] value node e = refl
differs-put_nested_self (k ∷ []) value node e =
    elim (Bool-cases (same (get_or k null node) value)) [
      | inl kept ↦ rw kept (rw kept refl)
      | inr changed ↦ rw changed (
          ap (λ (o : Option Json). not (same (or_default null o) value))
            (get-put_own k k value node ((eq_iff k k).1 refl))
          ∙ rw e refl)
    ]
differs-put_nested_self (k ∷ j ∷ p) value node e =
    ap (differs (j ∷ p) value) (
      child_of-put k k (put_nested (j ∷ p) value (child_of (get k node))) node
        ((eq_iff k k).1 refl))
    ∙ differs-put_nested_self (j ∷ p) value (child_of (get k node)) e

-- The difference at a path is read off what is there.
pub differs-get_nested :
    (k : String) (p : List String) (value : Json) (node : Fields)
    → differs (k ∷ p) value node ≡ not (same (or_default null (get_nested (k ∷ p) node)) value)
unfolding differs get_nested
differs-get_nested k [] value node = refl
differs-get_nested k (j ∷ p) value node = differs-get_nested j p value (child_of (get k node))

-- Where nothing differs from a value other than None, writing changes nothing.
differs_end :
    (k : String) (p : List String) (value : Json)
    → same null value ≡ false
    → differs (k ∷ p) value end ≡ true
unfolding differs get
differs_end k [] value e = rw e refl
differs_end k (j ∷ p) value e = differs_end j p value e

-- Only a mapping can hold such a value.
is_child :
    (j : String) (p : List String) (value : Json) (o : Option Json)
    → same null value ≡ false
    → differs (j ∷ p) value (child_of o) ≡ false
    → o ≡ some (obj (child_of o))
is_child j p value (some (obj fs)) e d = refl
is_child j p value none e d = absurd (false≢true (sym d ∙ differs_end j p value e))
is_child j p value (some null) e d = absurd (false≢true (sym d ∙ differs_end j p value e))
is_child j p value (some (bool b)) e d = absurd (false≢true (sym d ∙ differs_end j p value e))
is_child j p value (some (num n)) e d = absurd (false≢true (sym d ∙ differs_end j p value e))
is_child j p value (some (str s)) e d = absurd (false≢true (sym d ∙ differs_end j p value e))
is_child j p value (some (arr xs)) e d = absurd (false≢true (sym d ∙ differs_end j p value e))

pub put_nested-same :
    (p : List String) (value : Json) (node : Fields)
    → same null value ≡ false
    → differs p value node ≡ false
    → put_nested p value node ≡ node
unfolding put_nested differs
put_nested-same [] value node e d = refl
put_nested-same (k ∷ []) value node e d = ground arith
put_nested-same (k ∷ j ∷ p) value node e d =
    ap (λ (fs : Fields). put k (obj fs) node)
      (put_nested-same (j ∷ p) value (child_of (get k node)) e d)
    ∙ put_self k (obj (child_of (get k node))) node (is_child j p value (get k node) e d)
