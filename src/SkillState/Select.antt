-- ===== src/SkillState/Select.antt =====
-- What the merge of the fallback chain takes from an existing entry, and what from the entry of the
-- state (`_merge_fallback_by_provider` of scripts/josemar_skill_state.py).
use josemar_assistente.Base.{
  String, ◌≡◌, refl, sym, ap, ◌∙◌, ◌⊎◌, inl, inr, true, false, Option, none, some, List, [], ◌∷◌,
  arith, str_eq, eq_iff, Bool-cases,
}
use josemar_assistente.Base.Fields.{get, same, get-put, put_self}
use josemar_assistente.Base.Json.{Json, null, bool, num, str, arr, obj, Fields, end}
use josemar_assistente.SkillState.Config.{or_default}
use josemar_assistente.SkillState.Fallback.{
  provider_of, keep_first, take_match, put_if_there, select_fallback, merge_entry,
}

-- The entry is one of the list.
abbrev pub Among : Fields → List Fields → Type 0
Among e [] = ⊥
Among e (x ∷ xs) = (e ≡ x) ⊎ Among e xs

-- A matching entry comes from the list, with the provider, and so do the others.
abbrev pub Taken : Json → List Fields → Option (Fields × List Fields) → Type 0
Taken provider es none = Unit
Taken provider es (some r) =
    (same (provider_of r.0) provider ≡ true)
    × Among r.0 es
    × ((x : Fields) → Among x r.1 → Among x es)

Taken-keep_first :
    (provider : Json) (e : Fields) (es : List Fields) (o : Option (Fields × List Fields))
    → Taken provider es o
    → Taken provider (e ∷ es) (keep_first e o)
Taken-keep_first provider e es none t = tt
Taken-keep_first provider e es (some r) t =
    (t.0, inr t.1, λ x m. elim m [ inl here ↦ inl here | inr there ↦ inr (t.2 x there) ])

pub take_match-Taken :
    (provider : Json) (es : List Fields) → Taken provider es (take_match provider es)
unfolding take_match
take_match-Taken provider [] = tt
take_match-Taken provider (e ∷ es) = elim (Bool-cases (same (provider_of e) provider)) [
  | inl matches ↦ rw matches (matches, inl refl, λ x m. inr m)
  | inr other ↦ rw other (Taken-keep_first provider e es _ (take_match-Taken provider es))
]

get-put_if_there :
    (key other : String) (value : Option Json) (fs : Fields)
    → str_eq key other ≡ false
    → get other (put_if_there key value fs) ≡ get other fs
unfolding put_if_there
get-put_if_there key other none fs e = refl
get-put_if_there key other (some value) fs e = get-put key other value fs ∙ rw e refl

pub get-select_fallback :
    (key : String) (s e : Fields)
    → str_eq "provider" key ≡ false
    → str_eq "model" key ≡ false
    → get key (select_fallback s e) ≡ get key e
unfolding select_fallback
get-select_fallback key s e p m =
    get-put_if_there "model" key (get "model" s) _ m
    ∙ get-put_if_there "provider" key (get "provider" s) e p

same_null : (value : Json) → same value null ≡ true → value ≡ null
unfolding same
same_null null e = refl
same_null (bool b) e = ground arith
same_null (num n) e = ground arith
same_null (str s) e = ground arith
same_null (arr xs) e = ground arith
same_null (obj fs) e = ground arith

-- The first value, or the second where there is none
unfoldable other_or : Option Json → Option Json → Option Json
other_or none other = other
other_or (some value) other = some value

get-put_if_there_self :
    (key : String) (o : Option Json) (fs : Fields)
    → get key (put_if_there key o fs) ≡ other_or o (get key fs)
unfolding put_if_there other_or
get-put_if_there_self key none fs = refl
get-put_if_there_self key (some value) fs =
    get-put key key value fs ∙ rw ((eq_iff key key).1 refl) refl

or_default_other :
    (o other : Option Json)
    → same (or_default null other) (or_default null o) ≡ true
    → or_default null (other_or o other) ≡ or_default null o
unfolding other_or
or_default_other none other m = same_null (or_default null other) m
or_default_other (some value) other m = refl

get-select_fallback_provider :
    (s e : Fields)
    → get "provider" (select_fallback s e) ≡ other_or (get "provider" s) (get "provider" e)
unfolding select_fallback
get-select_fallback_provider s e =
    get-put_if_there "model" "provider" (get "model" s) _ refl
    ∙ get-put_if_there_self "provider" (get "provider" s) e

get-select_fallback_model :
    (s e : Fields) → get "model" (select_fallback s e) ≡ other_or (get "model" s) (get "model" e)
unfolding select_fallback
get-select_fallback_model s e =
    get-put_if_there_self "model" (get "model" s) _
    ∙ ap (other_or (get "model" s)) (get-put_if_there "provider" "model" (get "provider" s) e refl)

-- A merged entry has the provider of its state entry.
pub provider_of-select_fallback :
    (s e : Fields)
    → same (provider_of e) (provider_of s) ≡ true
    → provider_of (select_fallback s e) ≡ provider_of s
provider_of-select_fallback s e m =
    ap (or_default null) (get-select_fallback_provider s e)
    ∙ or_default_other (get "provider" s) (get "provider" e) m

none_other : (o : Option Json) → or_default null (other_or o none) ≡ or_default null o
unfolding other_or
none_other none = refl
none_other (some value) = refl

provider_of-select_fallback_end : (s : Fields) → provider_of (select_fallback s end) ≡ provider_of s
unfolding get
provider_of-select_fallback_end s =
    ap (or_default null) (get-select_fallback_provider s end) ∙ none_other (get "provider" s)

pub provider_of-merge_entry :
    (s : Fields) (o : Option (Fields × List Fields)) (c : List Fields)
    → Taken (provider_of s) c o
    → provider_of (merge_entry s o c).0 ≡ provider_of s
unfolding merge_entry
provider_of-merge_entry s none c t = provider_of-select_fallback_end s
provider_of-merge_entry s (some r) c t = provider_of-select_fallback s r.0 t.0

put_if_there_self :
    (key : String) (o : Option Json) (fs : Fields)
    → other_or o (get key fs) ≡ get key fs
    → put_if_there key o fs ≡ fs
unfolding put_if_there other_or
put_if_there_self key none fs e = refl
put_if_there_self key (some value) fs e = put_self key value fs (sym e)

other_or_twice : (o other : Option Json) → other_or o (other_or o other) ≡ other_or o other
unfolding other_or
other_or_twice none other = refl
other_or_twice (some value) other = refl

-- Selecting twice is selecting once.
pub select_fallback_twice :
    (s e : Fields) → select_fallback s (select_fallback s e) ≡ select_fallback s e
unfolding select_fallback
select_fallback_twice s e =
    let chosen : Fields = select_fallback s e in
    ap (put_if_there "model" (get "model" s)) (
      put_if_there_self "provider" (get "provider" s) chosen (
        ap (other_or (get "provider" s)) (get-select_fallback_provider s e)
        ∙ (other_or_twice (get "provider" s) (get "provider" e)
            ∙ sym (get-select_fallback_provider s e))))
    ∙ put_if_there_self "model" (get "model" s) chosen (
        ap (other_or (get "model" s)) (get-select_fallback_model s e)
        ∙ (other_or_twice (get "model" s) (get "model" e) ∙ sym (get-select_fallback_model s e)))
