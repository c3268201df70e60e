-- ===== src/SkillState/Restore.antt =====
-- The rollback of the models to the template (`restore_template_models_defaults` of
-- scripts/josemar_skill_state.py). The result is nothing where the code raises on a template of
-- another form.
use josemar_assistente.Base.{
  String, Bool, true, false, not, ◌&&◌, ◌||◌, Option, none, some, List, [], ◌∷◌, map, all, any,
  if◌then◌else◌,
}
use josemar_assistente.Base.Fields.{get, delete, has_key, same}
use josemar_assistente.Base.Json.{Json, null, bool, num, arr, obj, Fields}
use josemar_assistente.SkillState.Config.{get_or}
use josemar_assistente.SkillState.Nested.{set_nested, get_nested, unset_nested}
use josemar_assistente.SkillState.Fallback.{mappings_of, provider_of, merge_fallback_by_provider}
use josemar_assistente.SkillState.Models.{
  fallback_selection_keys, model_paths, auxiliary_paths, cron_paths, each_path, existing_chain,
  chain_path, put_chain,
}

-- The template's value, or the key removed
unfoldable pub restore_value : List String → Option Json → Fields × Bool → Fields × Bool
restore_value path none s = unset_nested path s
restore_value path (some value) s = set_nested (path, value) s

unfoldable pub restore_paths : List (List String) → Fields → Fields × Bool → Fields × Bool
restore_paths ps template s = each_path (λ p. restore_value p (get_nested p template)) ps s

abbrev pub is_none : Json → Bool
is_none null = true
is_none value = false

-- A mapping or a list is no key of a dictionary.
abbrev pub is_hashable : Json → Bool
is_hashable (arr xs) = false
is_hashable (obj fs) = false
is_hashable value = true

-- `key in tmpl_key_sets.get(p, set(FALLBACK_SELECTION_KEYS))`
unfoldable pub is_allowed : String → Json → List Fields → Bool
is_allowed key p templates =
    not (any (λ te. same (provider_of te) p) templates)
    || any (λ te. same (provider_of te) p && has_key key te) templates

unfoldable pub remove_disallowed : List String → Json → List Fields → Fields → Fields
remove_disallowed [] p templates entry = entry
remove_disallowed (key ∷ keys) p templates entry =
    remove_disallowed keys p templates
      (if is_allowed key p templates then entry else delete key entry)

unfoldable pub remove_keys : List Fields → Fields → Fields
remove_keys templates entry =
    let p = provider_of entry in
    let removed = remove_disallowed fallback_selection_keys p templates entry in
    if is_none p then entry else removed

unfoldable pub restored_chain : List Fields → List Fields → List Fields
restored_chain templates existing =
    map (remove_keys templates) (merge_fallback_by_provider templates existing)

-- `[e for e in tmpl_fb if isinstance(e, dict)]`, with nothing where the value cannot be iterated
abbrev pub template_entries : Json → Option (List Fields)
template_entries (arr entries) = some (mappings_of entries)
template_entries (bool b) = none
template_entries (num n) = none
template_entries value = some []

unfoldable pub put_restored : Option (List Fields) → Fields × Bool → Option (Fields × Bool)
put_restored none s = none
put_restored (some templates) s =
    let existing = existing_chain (get "fallback_providers" s.0) in
    if all (λ te. is_hashable (provider_of te)) templates
    then some (put_chain (restored_chain templates existing) s)
    else none

unfoldable pub restore_chain : Json → Fields × Bool → Option (Fields × Bool)
restore_chain null s = some (unset_nested chain_path s)
restore_chain template_chain s = put_restored (template_entries template_chain) s

unfoldable pub restore_rest : Fields → Option (Fields × Bool) → Option (Fields × Bool)
restore_rest template none = none
restore_rest template (some s) =
    some (restore_paths cron_paths template (restore_paths auxiliary_paths template s))

unfoldable pub restore_template_models_defaults : Fields → Fields → Option (Fields × Bool)
restore_template_models_defaults config template = restore_rest template (
    restore_chain (get_or "fallback_providers" null template)
      (restore_paths model_paths template (config, false)))
