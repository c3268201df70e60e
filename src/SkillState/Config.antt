-- ===== src/SkillState/Config.antt =====
-- The toggles, the command allowlist and the policy keys within a Hermes configuration, and the
-- sidecar documents (scripts/josemar_skill_state.py). A configuration is the mapping that the YAML
-- file holds; a function that changes it in place gives the new one. `loads` and `dumps` are those
-- of Python's `json`, the first giving nothing for text that is no JSON.
use josemar_assistente.Base.{String, Bool, ◌||◌, Option, none, some, str_eq, if◌then◌else◌}
use josemar_assistente.Base.Fields.{get, put, has_key, same}
use josemar_assistente.Base.Json.{Json, null, num, arr, obj, nil, Fields, end, field}
use josemar_assistente.Base.Result.{Result, ok, err, ◌>>=◌}
use josemar_assistente.SkillState.Normalize.{ValueError, value_error, Toggles, normalize_state}
use josemar_assistente.SkillState.Canonical.{items_of, fields_of}

-- `d.get(key, default)`
abbrev pub or_default : Json → Option Json → Json
or_default default none = default
or_default default (some value) = value

abbrev pub get_or : String → Json → Fields → Json
get_or key default fs = or_default default (get key fs)

unfoldable pub as_section : Json → Result ValueError Fields
as_section null = ok end
as_section (obj section) = ok section
as_section value = err (value_error "config 'skills' section must be a mapping")

unfoldable pub skills_section : Fields → Result ValueError Fields
skills_section config = as_section (get_or "skills" null config)

unfoldable pub config_has_toggle_keys : Fields → Result ValueError Bool
config_has_toggle_keys config = skills_section config >>= λ skills.
    ok (has_key "disabled" skills || has_key "platform_disabled" skills)

unfoldable pub as_mapping : Json → Result ValueError Fields
as_mapping (obj section) = ok section
as_mapping value = err (value_error "config 'skills' section must be a mapping")

-- `config.setdefault("skills", {})`, and the check
unfoldable pub skills_or_new : Fields → Result ValueError Fields
skills_or_new config = as_mapping (get_or "skills" (obj end) config)

unfoldable pub put_toggles : Toggles → Fields → Fields
put_toggles state skills =
    put "platform_disabled" (obj (fields_of state.platform_disabled))
      (put "disabled" (arr (items_of state.disabled)) skills)

unfoldable pub apply_state_to_config : Fields → Toggles → Result ValueError Fields
apply_state_to_config config state =
    skills_or_new config >>= λ skills. ok (put "skills" (obj (put_toggles state skills)) config)

-- `{"version": 1, "disabled": ..., "platform_disabled": ...}`
unfoldable pub sidecar_document : Toggles → Json
sidecar_document t = obj (
    field "version" (num 1) (
      field "disabled" (arr (items_of t.disabled))
        (field "platform_disabled" (obj (fields_of t.platform_disabled)) end)))

-- `if disabled is None: disabled = []`, and the check of the type
unfoldable pub list_or_empty : Json → Result ValueError Json
list_or_empty null = ok (arr nil)
list_or_empty (arr items) = ok (arr items)
list_or_empty _ = err (value_error "'disabled' must be a list")

unfoldable pub mapping_or_empty : Json → Result ValueError Json
mapping_or_empty null = ok (obj end)
mapping_or_empty (obj fs) = ok (obj fs)
mapping_or_empty _ = err (value_error "'platform_disabled' must be a mapping")

module _ (text_of : Json → String) (strip : String → String) where
  unfoldable pub extract_state_from_config : Fields → Result ValueError Toggles
  extract_state_from_config config = skills_section config >>= λ skills.
      normalize_state text_of strip (get_or "disabled" (arr nil) skills)
        (get_or "platform_disabled" (obj end) skills)

  unfoldable pub serialize_sidecar : (Json → String) → Toggles → Result ValueError String
  serialize_sidecar dumps state =
      normalize_state text_of strip (arr (items_of state.disabled))
        (obj (fields_of state.platform_disabled))
      >>= λ normalized. ok (dumps (sidecar_document normalized))

  -- The parsed document, past `json.loads`.
  unfoldable pub deserialize_document : Json → Result ValueError Toggles
  deserialize_document (obj document) =
      if same (get_or "version" null document) (num 1)
      then (list_or_empty (get_or "disabled" null document) >>= λ disabled.
          mapping_or_empty (get_or "platform_disabled" null document) >>= λ platform_disabled.
          normalize_state text_of strip disabled platform_disabled)
      else err (value_error "unsupported sidecar version")
  deserialize_document _ = err (value_error "sidecar root must be an object")

  unfoldable pub deserialize_sidecar : (String → Option Json) → String → Result ValueError Toggles
  deserialize_sidecar loads text =
      if str_eq (strip text) ""
      then err (value_error "empty sidecar content")
      else elim (loads text) [
        | none ↦ err (value_error "invalid sidecar JSON")
        | some document ↦ deserialize_document document
      ]
