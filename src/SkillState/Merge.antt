-- ===== src/SkillState/Merge.antt =====
-- The merged fallback chain as a whole (`_merge_fallback_by_provider` of
-- scripts/josemar_skill_state.py).
use josemar_assistente.Base.{
  ℕ, ◌+◌, ◌≤◌, String, ◌≡◌, refl, sym, ap, ◌∙◌, ◌⊎◌, inl, inr, Bool, true, false, Option, none,
  some, List, [], ◌∷◌, arith, All, str_eq, Bool-cases,
}
use josemar_assistente.Base.Fields.{get, same, of_bool}
use josemar_assistente.Base.Json.{Json, Fields, end}
use josemar_assistente.SkillState.Fallback.{
  provider_of, keep_first, take_match, select_fallback, merge_entry, merge_fallback_by_provider,
}
use josemar_assistente.SkillState.Select.{
  Among, Taken, take_match-Taken, get-select_fallback, provider_of-select_fallback,
  provider_of-merge_entry, select_fallback_twice,
}

-- The field is absent, or that of an entry of the list with the same provider.
abbrev pub FromMatch : String → List Fields → Fields → Type 0
FromMatch key existing r =
    (get key r ≡ none)
    ⊎ ((e : Fields) × Among e existing
        × (same (provider_of e) (provider_of r) ≡ true)
        × (get key r ≡ get key e))

FromMatch-Among :
    (key : String) (xs ys : List Fields) (r : Fields)
    → ((x : Fields) → Among x xs → Among x ys)
    → FromMatch key xs r
    → FromMatch key ys r
FromMatch-Among key xs ys r sub (inl e) = inl e
FromMatch-Among key xs ys r sub (inr f) = inr (f.0, sub f.0 f.1, f.2, f.3)

All-Among :
    (key : String) (xs ys rs : List Fields)
    → ((x : Fields) → Among x xs → Among x ys)
    → All (FromMatch key xs) rs
    → All (FromMatch key ys) rs
All-Among key xs ys [] sub a = tt
All-Among key xs ys (r ∷ rs) sub a =
    (FromMatch-Among key xs ys r sub a.0, All-Among key xs ys rs sub a.1)

left_over :
    (s : Fields) (o : Option (Fields × List Fields)) (c : List Fields)
    → Taken (provider_of s) c o
    → (x : Fields) → Among x (merge_entry s o c).1
    → Among x c
unfolding merge_entry
left_over s none c t x m = m
left_over s (some r) c t x m = t.2 x m

FromMatch-merge_entry :
    (key : String) (s : Fields) (o : Option (Fields × List Fields)) (c : List Fields)
    → str_eq "provider" key ≡ false
    → str_eq "model" key ≡ false
    → Taken (provider_of s) c o
    → FromMatch key c (merge_entry s o c).0
unfolding merge_entry get
FromMatch-merge_entry key s none c p m t = inl (get-select_fallback key s end p m)
FromMatch-merge_entry key s (some r) c p m t = inr (
  r.0,
  t.1,
  ap (same (provider_of r.0)) (provider_of-select_fallback s r.0 t.0) ∙ t.0,
  get-select_fallback key s r.0 p m,
)

-- Every field of the merged chain other than provider and model is absent, or that of an existing
-- entry with the same provider.
pub merge_fallback_siblings :
    (key : String) (state existing : List Fields)
    → str_eq "provider" key ≡ false
    → str_eq "model" key ≡ false
    → All (FromMatch key existing) (merge_fallback_by_provider state existing)
unfolding merge_fallback_by_provider
merge_fallback_siblings key [] c p m = tt
merge_fallback_siblings key (s ∷ ss) c p m =
    let t = take_match-Taken (provider_of s) c in
    let step = merge_entry s (take_match (provider_of s) c) c in
    (
      FromMatch-merge_entry key s _ c p m t,
      All-Among key step.1 c _ (left_over s _ c t) (merge_fallback_siblings key ss step.1 p m),
    )

-- How many entries have a value of some kind at the key
unfoldable pub count_with : (Option Json → Bool) → String → List Fields → ℕ
count_with p key [] = 0
count_with p key (e ∷ es) = of_bool (p (get key e)) + count_with p key es

-- A matching entry and the others are counted together.
abbrev Counted :
    (Option Json → Bool) → String → List Fields → Option (Fields × List Fields) → Type 0
Counted p key es none = Unit
Counted p key es (some r) = count_with p key es ≡ of_bool (p (get key r.0)) + count_with p key r.1

count-keep_first :
    (p : Option Json → Bool) (key : String) (e : Fields) (es : List Fields)
    (o : Option (Fields × List Fields))
    → Counted p key es o
    → Counted p key (e ∷ es) (keep_first e o)
unfolding count_with
count-keep_first p key e es none h = tt
count-keep_first p key e es (some r) h = omega arith

count-take_match :
    (p : Option Json → Bool) (key : String) (provider : Json) (es : List Fields)
    → Counted p key es (take_match provider es)
unfolding take_match count_with
count-take_match p key provider [] = tt
count-take_match p key provider (e ∷ es) = elim (Bool-cases (same (provider_of e) provider)) [
  | inl matches ↦ rw matches refl
  | inr other ↦ rw other (count-keep_first p key e es _ (count-take_match p key provider es))
]

count-merge_entry :
    (p : Option Json → Bool) (key : String) (s : Fields) (o : Option (Fields × List Fields))
    (c : List Fields)
    → p none ≡ false
    → str_eq "provider" key ≡ false
    → str_eq "model" key ≡ false
    → Counted p key c o
    → of_bool (p (get key (merge_entry s o c).0)) + count_with p key (merge_entry s o c).1
      ≡ count_with p key c
unfolding merge_entry get
count-merge_entry p key s none c q a b h =
    rw (get-select_fallback key s end a b) (rw q (omega arith))
count-merge_entry p key s (some r) c q a b h = rw (get-select_fallback key s r.0 a b) (sym h)

-- A field other than provider and model is in no more merged entries than existing ones, whatever
-- the test of its value, as long as an absent field fails it.
pub merge_fallback_consumes :
    (p : Option Json → Bool) (key : String) (state existing : List Fields)
    → p none ≡ false
    → str_eq "provider" key ≡ false
    → str_eq "model" key ≡ false
    → count_with p key (merge_fallback_by_provider state existing) ≤ count_with p key existing
unfolding merge_fallback_by_provider count_with
merge_fallback_consumes p key [] c q a b = omega arith
merge_fallback_consumes p key (s ∷ ss) c q a b =
    let step = merge_entry s (take_match (provider_of s) c) c in
    let first = count-merge_entry p key s _ c q a b (count-take_match p key (provider_of s) c) in
    let others = merge_fallback_consumes p key ss step.1 q a b in omega arith

select_fallback-merge_entry :
    (s : Fields) (o : Option (Fields × List Fields)) (c : List Fields)
    → select_fallback s (merge_entry s o c).0 ≡ (merge_entry s o c).0
unfolding merge_entry
select_fallback-merge_entry s none c = select_fallback_twice s end
select_fallback-merge_entry s (some r) c = select_fallback_twice s r.0

-- An entry whose provider equals itself
abbrev pub HasPlainProvider : Fields → Type 0
HasPlainProvider s = same (provider_of s) (provider_of s) ≡ true

-- Merging the same entries into the merged chain again gives the same chain, for providers that
-- equal themselves, as texts and None do.
pub merge_fallback_again :
    (state existing : List Fields)
    → All HasPlainProvider state
    → merge_fallback_by_provider state (merge_fallback_by_provider state existing)
      ≡ merge_fallback_by_provider state existing
unfolding merge_fallback_by_provider merge_entry take_match
merge_fallback_again [] c a = refl
merge_fallback_again (s ∷ ss) c a =
    let step = merge_entry s (take_match (provider_of s) c) c in
    let own : provider_of step.0 ≡ provider_of s =
      provider_of-merge_entry s _ c (take_match-Taken (provider_of s) c) in
    let matches : same (provider_of step.0) (provider_of s) ≡ true =
      ap (λ v. same v (provider_of s)) own ∙ a.0 in
    rw matches (
      ap (λ (e : Fields). e ∷ merge_fallback_by_provider ss (merge_fallback_by_provider ss step.1))
        (select_fallback-merge_entry s (take_match (provider_of s) c) c)
      ∙ ap (λ (es : List Fields). step.0 ∷ es) (merge_fallback_again ss step.1 a.1))
