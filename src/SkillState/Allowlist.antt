-- ===== src/SkillState/Allowlist.antt =====
-- The command allowlist and the migration marker (scripts/josemar_skill_state.py, the strict
-- schemas of version 1 and the key of the configuration). `strip`, `loads` and `dumps` are Python's.
use josemar_assistente.Base.{
  ℕ, suc, String, Bool, true, false, Option, none, some, List, [], ◌∷◌, ◌++◌, str_eq, ◌==◌,
  if◌then◌else◌, all, contains,
}
use josemar_assistente.Base.Order.{sort}
use josemar_assistente.Base.Fields.{put, delete, has_key}
use josemar_assistente.Base.Json.{
  Json, null, bool, num, str, arr, obj, Items, nil, cons, Fields, end, field,
}
use josemar_assistente.Base.Result.{Result, ok, err, ◌>>=◌, ◌>>◌}
use josemar_assistente.SkillState.Normalize.{ValueError, value_error, item_error}
use josemar_assistente.SkillState.Canonical.{items_of}
use josemar_assistente.SkillState.Config.{get_or}

-- `set(d.keys())`
abbrev pub field_names : Fields → List String
field_names end = []
field_names (field k v fs) = k ∷ field_names fs

abbrev pub guard : Bool → ValueError → Result ValueError (Unit {0})
guard true e = ok tt
guard false e = err e

unfoldable pub reject_unknown_keys : Fields → List String → String → Result ValueError (Unit {0})
reject_unknown_keys node allowed path =
    guard (all (λ key. contains key allowed) (field_names node)) (value_error path)

-- A version that is an integer, not a Boolean, and 1
unfoldable pub is_version_one : Json → Bool
is_version_one (num n) = n == 1
is_version_one value = false

unfoldable pub is_true : Json → Bool
is_true (bool b) = b
is_true value = false

-- The root-level key of the configuration
unfoldable pub config_has_command_allowlist : Fields → Bool
config_has_command_allowlist config = has_key "command_allowlist" config

unfoldable pub apply_command_allowlist_to_config : Fields → List String → Fields
apply_command_allowlist_to_config config items =
    put "command_allowlist" (arr (items_of items)) config

unfoldable pub remove_command_allowlist_from_config : Fields → Fields × Bool
remove_command_allowlist_from_config config =
    if has_key "command_allowlist" config
    then (delete "command_allowlist" config, true)
    else (config, false)

unfoldable pub allowlist_document : List String → Json
allowlist_document items =
    obj (field "version" (num 1) (field "command_allowlist" (arr (items_of items)) end))

unfoldable pub marker_document : Json
marker_document =
    obj (field "version" (num 1) (field "legacy_runtime_import_complete" (bool true) end))

unfoldable pub validate_marker_fields : Fields → Result ValueError (Unit {0})
validate_marker_fields document = do
  guard (is_version_one (get_or "version" null document))
      (value_error "unsupported migration marker version")
  reject_unknown_keys document ("version" ∷ "legacy_runtime_import_complete" ∷ [])
      "migration marker: unknown key(s) present"
  guard (has_key "legacy_runtime_import_complete" document)
      (value_error "migration marker must contain 'legacy_runtime_import_complete'")
  guard (is_true (get_or "legacy_runtime_import_complete" null document))
      (value_error "'legacy_runtime_import_complete' must be exactly true")

unfoldable pub validate_migration_marker : Json → Result ValueError (Unit {0})
validate_migration_marker (obj document) = validate_marker_fields document
validate_migration_marker value = err (value_error "migration marker root must be an object")

module _ (strip : String → String) where
  -- The loop from the index `idx`; `seen` and `out` hold the same texts.
  unfoldable pub canonical_items : ℕ → Items → List String → Result ValueError (List String)
  canonical_items idx nil out = ok out
  canonical_items idx (cons (str s) items) out =
      if str_eq (strip s) ""
      then err (item_error idx "must be a non-empty string")
      else canonical_items (suc idx) items (if contains s out then out else out ++ s ∷ [])
  canonical_items idx (cons item items) out = err (item_error idx "must be a string")

  unfoldable pub canonical_allowlist_items : Json → Result ValueError (List String)
  canonical_allowlist_items null = ok []
  canonical_allowlist_items (arr items) = canonical_items 0 items [] >>= λ out. ok (sort out)
  canonical_allowlist_items value =
      err (value_error "'command_allowlist' must be a list of strings")

  unfoldable pub extract_command_allowlist_from_config : Fields → Result ValueError (List String)
  extract_command_allowlist_from_config config =
      canonical_allowlist_items (get_or "command_allowlist" null config)

  -- `None` is no implicit empty list here.
  unfoldable pub required_items : Json → Result ValueError (List String)
  required_items null = err (value_error "'command_allowlist' must be a list of strings")
  required_items value = canonical_allowlist_items value

  unfoldable pub validate_allowlist_fields : Fields → Result ValueError (List String)
  validate_allowlist_fields document = do
    guard (is_version_one (get_or "version" null document))
        (value_error "unsupported command-allowlist sidecar version")
    reject_unknown_keys document ("version" ∷ "command_allowlist" ∷ [])
        "command-allowlist sidecar: unknown key(s)"
    guard (has_key "command_allowlist" document)
        (value_error "command-allowlist sidecar must contain 'command_allowlist'")
    required_items (get_or "command_allowlist" null document)

  unfoldable pub validate_command_allowlist_state : Json → Result ValueError (List String)
  validate_command_allowlist_state (obj document) = validate_allowlist_fields document
  validate_command_allowlist_state value =
      err (value_error "command-allowlist sidecar root must be an object")

  unfoldable pub serialize_command_allowlist_state :
      (Json → String) → Json → Result ValueError String
  serialize_command_allowlist_state dumps state =
      validate_command_allowlist_state state >>= λ items. ok (dumps (allowlist_document items))

  unfoldable pub validate_command_allowlist_state_from_text :
      (String → Option Json) → String → Result ValueError (List String)
  validate_command_allowlist_state_from_text loads text =
      if str_eq (strip text) ""
      then err (value_error "empty command-allowlist sidecar content")
      else elim (loads text) [
        | none ↦ err (value_error "invalid command-allowlist sidecar JSON")
        | some document ↦ validate_command_allowlist_state document
      ]

  unfoldable pub validate_command_allowlist_migration_marker_from_text :
      (String → Option Json) → String → Result ValueError (Unit {0})
  validate_command_allowlist_migration_marker_from_text loads text =
      if str_eq (strip text) ""
      then err (value_error "empty migration marker content")
      else elim (loads text) [
        | none ↦ err (value_error "invalid migration marker JSON")
        | some document ↦ validate_migration_marker document
      ]
