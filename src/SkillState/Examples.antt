-- ===== src/SkillState/Examples.antt =====
-- Toggles, allowlists and policies of small configurations (scripts/josemar_skill_state.py).
use josemar_assistente.Base.{
  String, ◌≡◌, refl, ◌≢◌, ◌⊎◌, true, false, ◌&&◌, some, [], ◌∷◌, all, contains,
}
use josemar_assistente.Base.Fields.{get, put}
use josemar_assistente.Base.Json.{
  Json, null, bool, str, arr, obj, Items, nil, cons, Fields, end, field,
}
use josemar_assistente.Base.Result.{ok}
use josemar_assistente.Base.Order.{insert_text, sort}
use josemar_assistente.Base.Dict.{keys, insert}
use josemar_assistente.SkillState.Normalize.{
  Toggles, normalize_state, add_item, add_items, add_platforms, add_text, insert_entry,
  normalize_platform_disabled, normalize_string_list, sort_dict,
}
use josemar_assistente.SkillState.Canonical.{is_canonical}
use josemar_assistente.SkillState.Normal.{normalize_state-canonical_result}
use josemar_assistente.SkillState.Config.{
  apply_state_to_config, extract_state_from_config, serialize_sidecar, deserialize_sidecar,
  sidecar_document, get_or, as_mapping, put_toggles, skills_or_new,
}
use josemar_assistente.SkillState.RoundTrip.{
  extract_state_from_config-apply_state_to_config, deserialize_sidecar-serialize_sidecar,
}
use josemar_assistente.SkillState.Allowlist.{
  canonical_allowlist_items, validate_command_allowlist_state, field_names, is_version_one,
  allowlist_document, serialize_command_allowlist_state, validate_command_allowlist_state_from_text,
  canonical_items, reject_unknown_keys, required_items, validate_allowlist_fields,
}
use josemar_assistente.SkillState.Allowed.{
  accepted, is_allowed_list, lists, canonical_allowlist_items-exact,
}
use josemar_assistente.SkillState.Strict.{
  is_text_list, validate_command_allowlist_state_accepts, command_allowlist_round_trip,
}
use josemar_assistente.SkillState.Policy.{
  enforce_policy, policy_violations, policy_violations-enforce_policy, enforce_policy_flag,
}

-- `str` on texts
abbrev text_of : Json → String
text_of (str s) = s
text_of value = "value"

-- Text with no blanks at its ends is left as it is.
abbrev strip : String → String
strip s = s

abbrev toggles : Toggles
toggles = record {
  disabled = "browser" ∷ "weather" ∷ [];
  platform_disabled = ("telegram", "browser" ∷ []) ∷ [];
}

abbrev unsorted : Json
unsorted = arr (cons (str "weather") (cons null (cons (str "browser") (cons (str "weather") nil))))

abbrev platforms : Json
platforms = obj (field "telegram" (str "browser") end)

normalized : normalize_state text_of strip unsorted platforms ≡ ok toggles
unfolding normalize_state normalize_string_list normalize_platform_disabled add_platforms sort
    sort_dict add_items insert add_item insert_entry add_text insert_text
normalized = refl

normalize_state-canonical_result_example : is_canonical text_of strip toggles ≡ true
normalize_state-canonical_result_example =
    normalize_state-canonical_result text_of strip (λ s. refl) unsorted platforms toggles normalized

abbrev config : Fields
config = field "model" (str "small") (field "skills" (obj (field "dirs" (arr nil) end)) end)

abbrev changed_config : Fields
changed_config = field "model" (str "small") (
    field "skills"
      (obj (
        field "dirs" (arr nil) (
          field "disabled" (arr (cons (str "browser") (cons (str "weather") nil))) (
            field "platform_disabled" (obj (field "telegram" (arr (cons (str "browser") nil)) end))
              end))))
      end)

applied : apply_state_to_config config toggles ≡ ok changed_config
unfolding apply_state_to_config skills_or_new as_mapping get put put_toggles
applied = refl

extract_state_from_config-apply_state_to_config_example :
    extract_state_from_config text_of strip changed_config ≡ ok toggles
unfolding keys
extract_state_from_config-apply_state_to_config_example =
    extract_state_from_config-apply_state_to_config text_of strip (λ s. refl) config changed_config
      toggles refl applied

-- A printer and a parser that know one document.
abbrev dumps : Json → String
dumps j = "{}"

serialized : serialize_sidecar text_of strip dumps toggles ≡ ok "{}"
unfolding serialize_sidecar normalize_state normalize_string_list normalize_platform_disabled
    add_platforms
serialized = refl

deserialize_sidecar-serialize_sidecar_example :
    deserialize_sidecar text_of strip (λ text. some (sidecar_document toggles)) "{}" ≡ ok toggles
unfolding keys
deserialize_sidecar-serialize_sidecar_example =
    deserialize_sidecar-serialize_sidecar text_of strip (λ s. refl) dumps
      (λ text. some (sidecar_document toggles)) toggles "{}" refl refl refl serialized

abbrev commands : Items
commands = cons (str "ls") (cons (str "git") (cons (str "ls") nil))

allowed : canonical_allowlist_items strip (arr commands) ≡ ok ("git" ∷ "ls" ∷ [])
unfolding canonical_allowlist_items canonical_items sort insert_text
allowed = refl

canonical_allowlist_items-exact_example :
    (is_allowed_list strip ("git" ∷ "ls" ∷ []) ≡ true)
    × ((z : String) → contains z ("git" ∷ "ls" ∷ []) ≡ lists z commands)
canonical_allowlist_items-exact_example =
    canonical_allowlist_items-exact strip commands ("git" ∷ "ls" ∷ []) allowed

-- A Boolean version is refused.
abbrev boolean_version : Fields
boolean_version = field "version" (bool true) (field "command_allowlist" (arr commands) end)

validate_command_allowlist_state_accepts_example :
    accepted (validate_command_allowlist_state strip (obj boolean_version)) ≡ (
      is_version_one (get_or "version" null boolean_version)
      && (all
            (λ key. contains key ("version" ∷ "command_allowlist" ∷ []))
            (field_names boolean_version)
          && is_text_list strip (get "command_allowlist" boolean_version)))
validate_command_allowlist_state_accepts_example =
    validate_command_allowlist_state_accepts strip boolean_version

written :
    serialize_command_allowlist_state strip dumps (allowlist_document ("git" ∷ "ls" ∷ [])) ≡ ok "{}"
unfolding serialize_command_allowlist_state validate_command_allowlist_state allowlist_document
    validate_allowlist_fields is_version_one get reject_unknown_keys required_items
    canonical_allowlist_items canonical_items
written = refl

command_allowlist_round_trip_example :
    validate_command_allowlist_state_from_text strip
      (λ text. some (allowlist_document ("git" ∷ "ls" ∷ [])))
      "{}"
    ≡ ok ("git" ∷ "ls" ∷ [])
command_allowlist_round_trip_example =
    command_allowlist_round_trip strip dumps (λ text. some (allowlist_document ("git" ∷ "ls" ∷ [])))
      ("git" ∷ "ls" ∷ []) "{}" refl refl refl written

policy_violations-enforce_policy_example : policy_violations (enforce_policy config).0 ≡ []
policy_violations-enforce_policy_example = policy_violations-enforce_policy config

enforce_policy_flag_example :
    ((enforce_policy config).1 ≡ true) × (policy_violations config ≢ [])
    ⊎ ((enforce_policy config ≡ (config, false)) × (policy_violations config ≡ []))
enforce_policy_flag_example = enforce_policy_flag config
