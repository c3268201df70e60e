-- ===== src/SkillState/Overlay.antt =====
-- The overlay of a models.yaml state and its rollback as a whole: what is at each path of the
-- configuration afterwards (`apply_models_to_config` and `restore_template_models_defaults` of
-- scripts/josemar_skill_state.py).
use josemar_assistente.Base.{
  String, ◌≡◌, refl, sym, ap, ◌∙◌, inl, inr, Bool, true, false, Option, none, some, List, ◌∷◌, all,
  arith, Bool-cases,
}
use josemar_assistente.Base.Fields.{get}
use josemar_assistente.Base.Json.{Json, null, bool, num, str, arr, obj, Fields}
use josemar_assistente.SkillState.Nested.{set_nested, get_nested, unset_nested, diverges}
use josemar_assistente.SkillState.Reads.{get_nested-put_nested_other}
use josemar_assistente.SkillState.Deletes.{get_nested-delete_nested_other}
use josemar_assistente.SkillState.Models.{
  auxiliary_paths, cron_paths, write_value, write_selected, state_chain, chain_path, put_chain,
  apply_chain, apply_sections, apply_models_to_config, apply_checked, existing_chain,
}
use josemar_assistente.SkillState.Restore.{
  restore_value, restore_paths, put_restored, restore_chain, restore_rest,
  restore_template_models_defaults, restored_chain, is_hashable,
}
use josemar_assistente.SkillState.Writes.{
  get_nested-write_value_other, get_nested-write_value_own, get_nested-restore_value_other,
  is_text_or_none, get_nested-restore_value_own,
}
use josemar_assistente.SkillState.Fallback.{provider_of}
use josemar_assistente.SkillState.Owned.{
  is_selection, is_outside, selection-Regular, outside-IsElsewhere, get_nested-loops,
  get_nested-loops_other,
}

get_nested-put_chain :
    (chain : List Fields) (q : List String) (s : Fields × Bool)
    → diverges chain_path q ≡ true
    → get_nested q (put_chain chain s).0 ≡ get_nested q s.0
unfolding put_chain set_nested
get_nested-put_chain chain q s d = get_nested-put_nested_other chain_path q _ s.0 d

get_nested-apply_chain :
    (chain : Option (List Fields)) (q : List String) (s : Fields × Bool)
    → diverges chain_path q ≡ true
    → get_nested q (apply_chain chain s).0 ≡ get_nested q s.0
unfolding apply_chain
get_nested-apply_chain none q s d = refl
get_nested-apply_chain (some state) q s d = get_nested-put_chain _ q s d

-- A state that is applied writes its sections.
apply_checked-result :
    (chain : Option (Option (List Fields))) (well_formed : Bool) (config models : Fields)
    (r : Fields × Bool)
    → apply_checked chain well_formed config models ≡ some r
    → (c : Option (List Fields)) × (r ≡ apply_sections c models config)
unfolding apply_checked
apply_checked-result none well_formed config models r e = ground arith
apply_checked-result (some c) false config models r e = ground arith
apply_checked-result (some c) true config models r e = (c, grind arith)

-- Where the overlay gives a configuration, a text that the state selects is at the same path of it.
pub apply_models_selects :
    (config models : Fields) (r : Fields × Bool) (k : String) (path : List String) (text : String)
    → apply_models_to_config config models ≡ some r
    → is_selection (k ∷ path) ≡ true
    → get_nested (k ∷ path) models ≡ some (str text)
    → get_nested (k ∷ path) r.0 ≡ some (str text)
unfolding apply_models_to_config apply_sections write_selected
apply_models_selects config models r k path text e m there =
    let q : List String = k ∷ path in
    let applied =
      apply_checked-result (state_chain (get "fallback_providers" models)) _ config models r e in
    let step = λ (p : List String) (s : Fields × Bool). write_value p (get_nested p models) s in
    ap (λ (x : Fields × Bool). get_nested q x.0) applied.1
    ∙ get_nested-loops step (λ p x s d. get_nested-write_value_other (get_nested p models) p x s d)
        q (some (str text)) (config, false) _ m
        (λ s. get_nested-write_value_own k path text (get_nested q models) s there)
        (get_nested-apply_chain applied.0 q _ (selection-Regular q m).3)

get_nested-put_restored :
    (templates : Option (List Fields)) (q : List String) (s r : Fields × Bool)
    → diverges chain_path q ≡ true
    → put_restored templates s ≡ some r
    → get_nested q r.0 ≡ get_nested q s.0
unfolding put_restored
get_nested-put_restored none q s r d e = ground arith
get_nested-put_restored (some ts) q s r d e =
    elim (Bool-cases (all (λ te. is_hashable (provider_of te)) ts)) [
      | inl hashable ↦
          let chain = restored_chain ts (existing_chain (get "fallback_providers" s.0)) in
          let put : put_chain chain s ≡ r = grind arith in
          ap (λ (x : Fields × Bool). get_nested q x.0) (sym put) ∙ get_nested-put_chain chain q s d
      | inr other ↦ ground arith
    ]

get_nested-restore_chain :
    (chain : Json) (q : List String) (s r : Fields × Bool)
    → diverges chain_path q ≡ true
    → restore_chain chain s ≡ some r
    → get_nested q r.0 ≡ get_nested q s.0
unfolding restore_chain unset_nested
get_nested-restore_chain null q s r d e =
    let removed : unset_nested chain_path s ≡ r = grind arith in
    ap (λ (x : Fields × Bool). get_nested q x.0) (sym removed)
    ∙ get_nested-delete_nested_other chain_path q s.0 d
get_nested-restore_chain (bool b) q s r d e = get_nested-put_restored _ q s r d e
get_nested-restore_chain (num n) q s r d e = get_nested-put_restored _ q s r d e
get_nested-restore_chain (str t) q s r d e = get_nested-put_restored _ q s r d e
get_nested-restore_chain (arr xs) q s r d e = get_nested-put_restored _ q s r d e
get_nested-restore_chain (obj fs) q s r d e = get_nested-put_restored _ q s r d e

-- A template that is restored writes its sections.
restore_rest-result :
    (template : Fields) (o : Option (Fields × Bool)) (r : Fields × Bool)
    → restore_rest template o ≡ some r
    → (s : Fields × Bool) × (o ≡ some s)
      × (r ≡ restore_paths cron_paths template (restore_paths auxiliary_paths template s))
unfolding restore_rest
restore_rest-result template none r e = ground arith
restore_rest-result template (some s) r e = (s, refl, grind arith)

-- Where the rollback gives a configuration, a selection in it is the template's if that is a text, and
-- absent if the template has none.
pub restore_template_selects :
    (config template : Fields) (r : Fields × Bool) (k : String) (path : List String)
    → restore_template_models_defaults config template ≡ some r
    → is_selection (k ∷ path) ≡ true
    → is_text_or_none (get_nested (k ∷ path) template) ≡ true
    → get_nested (k ∷ path) r.0 ≡ get_nested (k ∷ path) template
unfolding restore_template_models_defaults restore_paths
restore_template_selects config template r k path e m text =
    let q : List String = k ∷ path in
    let restored = restore_rest-result template _ r e in
    let step = λ (p : List String) (s : Fields × Bool). restore_value p (get_nested p template) s in
    ap (λ (x : Fields × Bool). get_nested q x.0) restored.2
    ∙ get_nested-loops step
        (λ p x s d. get_nested-restore_value_other (get_nested p template) p x s d) q
        (get_nested q template) (config, false) restored.0 m
        (λ s. get_nested-restore_value_own k path (get_nested q template) s text)
        (get_nested-restore_chain _ q _ restored.0 (selection-Regular q m).3 restored.1)

-- Where the overlay gives a configuration, it leaves what is at a path apart from the state-owned
-- ones.
pub apply_models_others :
    (config models : Fields) (r : Fields × Bool) (q : List String)
    → apply_models_to_config config models ≡ some r
    → is_outside q ≡ true
    → get_nested q r.0 ≡ get_nested q config
unfolding apply_models_to_config apply_sections write_selected
apply_models_others config models r q e out =
    let applied =
      apply_checked-result (state_chain (get "fallback_providers" models)) _ config models r e in
    let apart = outside-IsElsewhere q out in
    let step = λ (p : List String) (s : Fields × Bool). write_value p (get_nested p models) s in
    ap (λ (x : Fields × Bool). get_nested q x.0) applied.1
    ∙ get_nested-loops_other step
        (λ p x s d. get_nested-write_value_other (get_nested p models) p x s d) q (config, false) _
        apart (get_nested-apply_chain applied.0 q _ apart.3)

-- Where the rollback gives a configuration, it leaves what is at a path apart from the state-owned
-- ones.
pub restore_template_others :
    (config template : Fields) (r : Fields × Bool) (q : List String)
    → restore_template_models_defaults config template ≡ some r
    → is_outside q ≡ true
    → get_nested q r.0 ≡ get_nested q config
unfolding restore_template_models_defaults restore_paths
restore_template_others config template r q e out =
    let restored = restore_rest-result template _ r e in
    let apart = outside-IsElsewhere q out in
    let step = λ (p : List String) (s : Fields × Bool). restore_value p (get_nested p template) s in
    ap (λ (x : Fields × Bool). get_nested q x.0) restored.2
    ∙ get_nested-loops_other step
        (λ p x s d. get_nested-restore_value_other (get_nested p template) p x s d) q
        (config, false) restored.0 apart
        (get_nested-restore_chain _ q _ restored.0 apart.3 restored.1)
