-- ===== src/SkillState/Owned.antt =====
-- The state-owned paths of a configuration, and the loops over them (`MODEL_SELECTION_KEYS`,
-- `ALLOWED_AUXILIARY_TASKS` and `CRON_SELECTION_KEYS` of scripts/josemar_skill_state.py).
use josemar_assistente.Base.{
  String, ◌≡◌, refl, sym, ap, ◌∙◌, ◌⊎◌, inl, inr, Bool, true, false, ◌&&◌, ◌||◌, Option, List, [],
  ◌∷◌, all, any, arith, Bool-cases,
}
use josemar_assistente.Base.Json.{Json, Fields}
use josemar_assistente.SkillState.Nested.{get_nested, diverges}
use josemar_assistente.SkillState.Models.{
  model_paths, auxiliary_paths, cron_paths, each_path, chain_path,
}
use josemar_assistente.SkillState.Writes.{
  same_path, is_apart, same_path-eq, get_nested-each_path_other, get_nested-each_path_own,
}

-- One of the state-owned paths other than the fallback chain
unfoldable pub is_selection : List String → Bool
is_selection q =
    any (λ p. same_path p q) model_paths
    || (any (λ p. same_path p q) auxiliary_paths || any (λ p. same_path p q) cron_paths)

-- A path apart from every state-owned path
unfoldable pub is_outside : List String → Bool
is_outside q =
    all (λ p. diverges p q) model_paths
    && (all (λ p. diverges p q) auxiliary_paths
        && (all (λ p. diverges p q) cron_paths && diverges chain_path q))

-- A loop over the paths sets each of them once.
abbrev sets_once : List (List String) → List String → Bool
sets_once ps q = all (λ p. is_apart p q) ps

-- Each state-owned path is set once, and not as a part of the fallback chain.
abbrev is_regular : List String → Bool
is_regular q =
    sets_once model_paths q
    && (sets_once auxiliary_paths q && (sets_once cron_paths q && diverges chain_path q))

abbrev pub Regular : List String → Type 0
Regular q =
    (sets_once model_paths q ≡ true)
    × (sets_once auxiliary_paths q ≡ true)
    × (sets_once cron_paths q ≡ true)
    × (diverges chain_path q ≡ true)

split_four :
    (a b c d : Bool)
    → a && (b && (c && d)) ≡ true
    → (a ≡ true) × (b ≡ true) × (c ≡ true) × (d ≡ true)
split_four a b c d e = (ground arith, ground arith, ground arith, ground arith)

and_first : (a b : Bool) → a && b ≡ true → a ≡ true
and_first a b e = ground arith

and_second : (a b : Bool) → a && b ≡ true → b ≡ true
and_second a b e = ground arith

pub or_second : (a b : Bool) → a ≡ false → a || b ≡ true → b ≡ true
or_second a b n e = ground arith

or_cases : (a b : Bool) → a || b ≡ true → (a ≡ true) ⊎ (b ≡ true)
or_cases a b e = elim (Bool-cases a) [ inl one ↦ inl one | inr other ↦ inr (or_second a b other e) ]

selected-Regular :
    (ps : List (List String)) (q : List String)
    → all is_regular ps ≡ true
    → any (λ p. same_path p q) ps ≡ true
    → Regular q
selected-Regular [] q a m = ground arith
selected-Regular (p ∷ ps) q a m = elim (Bool-cases (same_path p q)) [
  | inl same_one ↦
      split_four (sets_once model_paths q) (sets_once auxiliary_paths q) (sets_once cron_paths q)
        (diverges chain_path q)
        (ap is_regular (sym (same_path-eq p q same_one)) ∙ and_first (is_regular p) _ a)
  | inr other ↦ selected-Regular ps q (and_second (is_regular p) _ a) (or_second _ _ other m)
]

-- The part of the state-owned paths that a path is of
selection-cases :
    (q : List String)
    → is_selection q ≡ true
    → (any (λ p. same_path p q) model_paths ≡ true)
      ⊎ ((any (λ p. same_path p q) auxiliary_paths ≡ true)
          ⊎ (any (λ p. same_path p q) cron_paths ≡ true))
unfolding is_selection
selection-cases q m = elim (or_cases (any (λ p. same_path p q) model_paths) _ m) [
  | inl one ↦ inl one
  | inr others ↦ inr (or_cases (any (λ p. same_path p q) auxiliary_paths) _ others)
]

pub selection-Regular : (q : List String) → is_selection q ≡ true → Regular q
selection-Regular q m = elim (selection-cases q m) [
  | inl one ↦ selected-Regular model_paths q refl one
  | inr (inl one) ↦ selected-Regular auxiliary_paths q refl one
  | inr (inr one) ↦ selected-Regular cron_paths q refl one
]

abbrev pub IsElsewhere : List String → Type 0
IsElsewhere q =
    (all (λ p. diverges p q) model_paths ≡ true)
    × (all (λ p. diverges p q) auxiliary_paths ≡ true)
    × (all (λ p. diverges p q) cron_paths ≡ true)
    × (diverges chain_path q ≡ true)

pub outside-IsElsewhere : (q : List String) → is_outside q ≡ true → IsElsewhere q
unfolding is_outside
outside-IsElsewhere q e =
    split_four (all (λ p. diverges p q) model_paths) (all (λ p. diverges p q) auxiliary_paths)
      (all (λ p. diverges p q) cron_paths) (diverges chain_path q) e

-- The three loops and the step between the first two
module _ (step : List String → Fields × Bool → Fields × Bool)
    (other : (p q : List String) (s : Fields × Bool)
      → diverges p q ≡ true
      → get_nested q (step p s).0 ≡ get_nested q s.0) where
  pub get_nested-loops :
      (q : List String) (target : Option Json) (first second : Fields × Bool)
      → is_selection q ≡ true
      → ((s : Fields × Bool) → get_nested q (step q s).0 ≡ target)
      → get_nested q second.0 ≡ get_nested q (each_path step model_paths first).0
      → get_nested q (each_path step cron_paths (each_path step auxiliary_paths second)).0 ≡ target
  get_nested-loops q target first second m own kept =
      let regular = selection-Regular q m in
      let own_loop = get_nested-each_path_own step other q target own in
      elim (selection-cases q m) [
        | inl one ↦ own_loop cron_paths _ regular.2 (
            inr (
              own_loop auxiliary_paths second regular.1
                (inr (kept ∙ own_loop model_paths first regular.0 (inl one)))))
        | inr (inl one) ↦
            own_loop cron_paths _ regular.2
              (inr (own_loop auxiliary_paths second regular.1 (inl one)))
        | inr (inr one) ↦ own_loop cron_paths _ regular.2 (inl one)
      ]

  pub get_nested-loops_other :
      (q : List String) (first second : Fields × Bool)
      → IsElsewhere q
      → get_nested q second.0 ≡ get_nested q (each_path step model_paths first).0
      → get_nested q (each_path step cron_paths (each_path step auxiliary_paths second)).0
        ≡ get_nested q first.0
  get_nested-loops_other q first second e kept =
      get_nested-each_path_other step other cron_paths q _ e.2
      ∙ (get_nested-each_path_other step other auxiliary_paths q second e.1
          ∙ (kept ∙ get_nested-each_path_other step other model_paths q first e.0))
