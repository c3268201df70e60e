-- ===== src/SkillState/Overlaid.antt =====
-- A small models.yaml state over a small configuration, and its rollback
-- (scripts/josemar_skill_state.py).
use josemar_assistente.Base.{String, ◌≡◌, refl, Bool, true, false, none, some, List, [], ◌∷◌, All}
use josemar_assistente.Base.Fields.{get, put, delete, same}
use josemar_assistente.Base.Json.{num, str, arr, obj, nil, cons, Fields, end, field}
use josemar_assistente.Base.Result.{ok}
use josemar_assistente.SkillState.Allowlist.{reject_unknown_keys}
use josemar_assistente.SkillState.Schema.{
  validate_models_state, validate_models_fields, validate_no_secret_keys, no_secret_fields,
  no_secret_items, is_secret_looking_key, validate_present, validate_root_model, validate_str,
  validate_fallback_providers, validate_entries, validate_fallback_entry, validate_auxiliary,
  validate_tasks, validate_auxiliary_task, validate_task_model, validate_cron,
}
use josemar_assistente.SkillState.Checks.{TaskState}
use josemar_assistente.SkillState.Secrets.{at_key, at_index, value_at}
use josemar_assistente.SkillState.Validated.{
  validated_secret_free, validated_task, validated_applies,
}
use josemar_assistente.SkillState.Nested.{
  get_nested, set_nested, put_nested, differs, unset_nested, delete_nested,
}
use josemar_assistente.SkillState.Fallback.{
  mappings_of, entries_of, merge_fallback_by_provider, merge_entry, take_match, select_fallback,
  put_if_there,
}
use josemar_assistente.SkillState.Merge.{FromMatch, merge_fallback_siblings}
use josemar_assistente.SkillState.Models.{
  apply_models_to_config, apply_checked, is_well_formed, apply_sections, write_selected,
  write_value, apply_chain, put_chain,
}
use josemar_assistente.SkillState.Restore.{
  restore_template_models_defaults, restore_rest, restore_chain, restore_paths, restore_value,
}
use josemar_assistente.SkillState.Owned.{is_selection}
use josemar_assistente.SkillState.Writes.{is_text_or_none}
use josemar_assistente.SkillState.Overlay.{apply_models_selects, restore_template_selects}

abbrev entry : String → String → Fields
entry provider model = field "provider" (str provider) (field "model" (str model) end)

-- An existing entry with a credential
abbrev keyed_entry : Fields
keyed_entry =
    field "provider" (str "a") (field "model" (str "old") (field "api_key" (str "secret") end))

abbrev chain : List Fields
chain = entry "b" "one" ∷ entry "a" "new" ∷ entry "a" "more" ∷ []

merged_chain : merge_fallback_by_provider chain (keyed_entry ∷ []) ≡ (
    entry "b" "one"
    ∷ field "provider" (str "a") (field "model" (str "new") (field "api_key" (str "secret") end))
    ∷ entry "a" "more"
    ∷ [])
unfolding merge_fallback_by_provider merge_entry take_match same get select_fallback put_if_there
    put
merged_chain = refl

merge_fallback_siblings_example :
    All
      (FromMatch "api_key" (keyed_entry ∷ []))
      (merge_fallback_by_provider chain (keyed_entry ∷ []))
merge_fallback_siblings_example =
    merge_fallback_siblings "api_key" chain (keyed_entry ∷ []) refl refl

abbrev config : Fields
config = field "model" (obj (field "provider" (str "x") (field "base_url" (str "u") end))) (
    field "fallback_providers" (arr (cons (obj keyed_entry) nil))
      (field "auxiliary" (obj (field "vision" (obj (field "timeout" (num 5) end)) end)) end))

abbrev models : Fields
models = field "version" (num 1) (
    field "model" (obj (field "provider" (str "y") (field "default" (str "m") end))) (
      field "fallback_providers" (arr (cons (obj (entry "a" "new")) nil))
        (field "auxiliary" (obj (field "vision" (obj (entry "auto" "")) end)) end)))

abbrev overlaid : Fields
overlaid =
    field "model"
      (obj
        (field "provider" (str "y") (field "base_url" (str "u") (field "default" (str "m") end))))
      (field "fallback_providers"
        (arr (
          cons
            (obj (
              field "provider" (str "a")
                (field "model" (str "new") (field "api_key" (str "secret") end))))
            nil))
        (field "auxiliary"
          (obj (
            field "vision"
              (obj (
                field "timeout" (num 5)
                  (field "provider" (str "auto") (field "model" (str "") end))))
              end))
          end))

applied : apply_models_to_config config models ≡ some (overlaid, true)
unfolding apply_models_to_config apply_checked is_well_formed apply_sections write_selected
    write_value get_nested set_nested put_nested differs apply_chain put_chain entries_of
    mappings_of merge_fallback_by_provider merge_entry take_match same get select_fallback
    put_if_there put
applied = refl

applied_again : apply_models_to_config overlaid models ≡ some (overlaid, false)
unfolding apply_models_to_config apply_checked is_well_formed apply_sections write_selected
    write_value get_nested set_nested put_nested differs apply_chain put_chain entries_of
    mappings_of merge_fallback_by_provider merge_entry take_match same get select_fallback
    put_if_there put
applied_again = refl

apply_models_selects_example :
    get_nested ("auxiliary" ∷ "vision" ∷ "provider" ∷ []) overlaid ≡ some (str "auto")
unfolding is_selection get_nested get
apply_models_selects_example =
    apply_models_selects config models (overlaid, true) "auxiliary" ("vision" ∷ "provider" ∷ [])
      "auto" applied refl refl

-- The template has a model, and no fallback chain.
abbrev template : Fields
template = field "model" (obj (field "provider" (str "x") end)) end

abbrev rolled_back : Fields
rolled_back =
    field "model" (obj (field "provider" (str "x") (field "base_url" (str "u") end)))
      (field "auxiliary" (obj (field "vision" (obj (field "timeout" (num 5) end)) end)) end)

restored : restore_template_models_defaults overlaid template ≡ some (rolled_back, true)
unfolding restore_template_models_defaults restore_rest restore_chain restore_paths restore_value
    get_nested set_nested put_nested differs unset_nested delete_nested get put delete same
restored = refl

restore_template_selects_example :
    get_nested ("model" ∷ "default" ∷ []) rolled_back
    ≡ get_nested ("model" ∷ "default" ∷ []) template
unfolding is_selection get_nested get is_text_or_none
restore_template_selects_example =
    restore_template_selects overlaid template (rolled_back, true) "model" ("default" ∷ []) restored
      refl refl

-- Texts without blanks, and no pattern for keys
abbrev strip : String → String
strip text = text

abbrev pattern : String → Bool
pattern key = false

validated : validate_models_state strip pattern (obj models) ≡ ok models
unfolding validate_models_state validate_models_fields reject_unknown_keys validate_no_secret_keys
    no_secret_fields no_secret_items is_secret_looking_key validate_present validate_root_model
    validate_str validate_fallback_providers validate_entries validate_fallback_entry
    validate_auxiliary validate_tasks validate_auxiliary_task validate_task_model validate_cron get
    same
validated = refl

validated_secret_free_example :
    value_at (at_key "fallback_providers" ∷ at_index 0 ∷ at_key "api_key" ∷ []) (obj models) ≡ none
unfolding is_secret_looking_key
validated_secret_free_example =
    validated_secret_free strip pattern models
      (at_key "fallback_providers" ∷ at_index 0 ∷ at_key "api_key" ∷ []) validated refl

validated_task_example : (node : Fields) × (obj (entry "auto" "") ≡ obj node) × TaskState strip node
unfolding get_nested get
validated_task_example =
    validated_task strip pattern models "vision" (obj (entry "auto" "")) validated refl refl

validated_applies_example : (r : Fields × Bool) × (apply_models_to_config config models ≡ some r)
validated_applies_example = validated_applies strip pattern config models validated
