-- ===== src/SkillState/Schema.antt =====
-- The strict schema of models.yaml (`validate_models_state` of scripts/josemar_skill_state.py and
-- its helpers). `strip` is Python's `str.strip`, `pattern` whether some expression of
-- `_SECRET_KEY_RES` matches a key, and `loads` PyYAML's `safe_load`, which gives nothing for text that
-- is no YAML. The messages of the errors are shortened, and name no path.
use josemar_assistente.Base.{
  String, Bool, true, false, not, ◌||◌, Option, none, some, List, [], ◌∷◌, contains, str_eq,
  if◌then◌else◌,
}
use josemar_assistente.Base.Fields.{get, same}
use josemar_assistente.Base.Json.{
  Json, null, num, str, arr, obj, Items, nil, cons, Fields, end, field,
}
use josemar_assistente.Base.Result.{Result, ok, err, ◌>>=◌, ◌>>◌}
use josemar_assistente.SkillState.Normalize.{ValueError, value_error}
use josemar_assistente.SkillState.Config.{get_or}
use josemar_assistente.SkillState.Allowlist.{guard, reject_unknown_keys}
use josemar_assistente.SkillState.Models.{
  allowed_auxiliary_tasks, model_selection_keys, fallback_selection_keys, auxiliary_selection_keys,
  cron_selection_keys,
}

abbrev pub explicit_rejected_keys : List String
explicit_rejected_keys = "api_key" ∷ "key_env" ∷ "api_key_env" ∷ "apikey" ∷ "secret" ∷ "token" ∷ []

unfoldable pub is_secret_looking_key : (String → Bool) → String → Bool
is_secret_looking_key pattern key = contains key explicit_rejected_keys || pattern key

unfoldable mutual
  pub validate_no_secret_keys : (String → Bool) → Json → Result ValueError (Unit {0})
  validate_no_secret_keys pattern (obj fs) = no_secret_fields pattern fs
  validate_no_secret_keys pattern (arr xs) = no_secret_items pattern xs
  validate_no_secret_keys pattern value = ok tt

  pub no_secret_fields : (String → Bool) → Fields → Result ValueError (Unit {0})
  no_secret_fields pattern end = ok tt
  no_secret_fields pattern (field k v fs) =
      guard (not (is_secret_looking_key pattern k))
        (value_error "secret-looking key is not allowed")
      >> (validate_no_secret_keys pattern v >> no_secret_fields pattern fs)

  pub no_secret_items : (String → Bool) → Items → Result ValueError (Unit {0})
  no_secret_items pattern nil = ok tt
  no_secret_items pattern (cons x xs) =
      validate_no_secret_keys pattern x >> no_secret_items pattern xs

unfoldable pub validate_str : (String → String) → Bool → Json → Result ValueError String
validate_str strip required (str text) =
    guard (not required || not (str_eq (strip text) "")) (value_error "must be a non-empty string")
    >> ok text
validate_str strip required value = err (value_error "must be a string")

unfoldable pub validate_root_model : (String → String) → Json → Result ValueError (Unit {0})
validate_root_model strip (obj node) = do
  reject_unknown_keys node model_selection_keys "model: unknown key(s)"
  provider ← validate_str strip true (get_or "provider" null node)
  default ← validate_str strip true (get_or "default" null node)
  ok tt
validate_root_model strip value = err (value_error "model: must be a mapping")

unfoldable pub validate_fallback_entry : (String → String) → Json → Result ValueError (Unit {0})
validate_fallback_entry strip (obj node) = do
  reject_unknown_keys node fallback_selection_keys "fallback_providers: unknown key(s)"
  provider ← validate_str strip true (get_or "provider" null node)
  model ← validate_str strip true (get_or "model" null node)
  ok tt
validate_fallback_entry strip value = err (value_error "fallback_providers: must be a mapping")

unfoldable pub validate_entries : (String → String) → Items → Result ValueError (Unit {0})
validate_entries strip nil = ok tt
validate_entries strip (cons x xs) = validate_fallback_entry strip x >> validate_entries strip xs

unfoldable pub validate_fallback_providers : (String → String) → Json → Result ValueError (Unit {0})
validate_fallback_providers strip null = ok tt
validate_fallback_providers strip (arr entries) = validate_entries strip entries
validate_fallback_providers strip value = err (value_error "fallback_providers: must be a list")

-- The model of a task goes with its provider.
unfoldable pub validate_task_model :
    (String → String) → String → String → Result ValueError (Unit {0})
validate_task_model strip provider model =
    if str_eq provider "auto"
    then guard (str_eq model "") (value_error "model: must be exactly '' when provider is 'auto'")
    else (validate_str strip true (str model) >> ok tt)

unfoldable pub validate_auxiliary_task : (String → String) → Json → Result ValueError (Unit {0})
validate_auxiliary_task strip (obj node) = do
  reject_unknown_keys node auxiliary_selection_keys "auxiliary: unknown key(s)"
  provider ← validate_str strip true (get_or "provider" null node)
  model ← validate_str strip false (get_or "model" null node)
  validate_task_model strip provider model
validate_auxiliary_task strip value = err (value_error "auxiliary: must be a mapping")

-- A key that may be absent
unfoldable pub validate_present :
    (Json → Result ValueError (Unit {0})) → Option Json → Result ValueError (Unit {0})
validate_present check none = ok tt
validate_present check (some value) = check value

unfoldable pub validate_tasks :
    (String → String) → List String → Fields → Result ValueError (Unit {0})
validate_tasks strip [] node = ok tt
validate_tasks strip (task ∷ tasks) node =
    validate_present (validate_auxiliary_task strip) (get task node)
    >> validate_tasks strip tasks node

unfoldable pub validate_auxiliary : (String → String) → Json → Result ValueError (Unit {0})
validate_auxiliary strip null = ok tt
validate_auxiliary strip (obj node) =
    reject_unknown_keys node allowed_auxiliary_tasks "auxiliary: unknown key(s)"
    >> validate_tasks strip allowed_auxiliary_tasks node
validate_auxiliary strip value = err (value_error "auxiliary: must be a mapping")

unfoldable pub validate_cron : (String → String) → Json → Result ValueError (Unit {0})
validate_cron strip null = ok tt
validate_cron strip (obj node) = do
  reject_unknown_keys node cron_selection_keys "cron: unknown key(s)"
  validate_present (λ value. validate_str strip false value >> ok tt) (get "model" node)
  validate_present (λ value. validate_str strip false value >> ok tt) (get "model_provider" node)
validate_cron strip value = err (value_error "cron: must be a mapping")

abbrev pub document_keys : List String
document_keys = "version" ∷ "model" ∷ "fallback_providers" ∷ "auxiliary" ∷ "cron" ∷ []

-- `true` is a version of 1 too.
unfoldable pub validate_models_fields :
    (String → String) → (String → Bool) → Fields → Result ValueError (Unit {0})
validate_models_fields strip pattern models = do
  guard (same (get_or "version" null models) (num 1))
      (value_error "models.yaml: unsupported version")
  reject_unknown_keys models document_keys "models.yaml: unknown key(s)"
  validate_no_secret_keys pattern (obj models)
  validate_present (validate_root_model strip) (get "model" models)
  validate_fallback_providers strip (get_or "fallback_providers" null models)
  validate_auxiliary strip (get_or "auxiliary" null models)
  validate_cron strip (get_or "cron" null models)

unfoldable pub validate_models_state :
    (String → String) → (String → Bool) → Json → Result ValueError Fields
validate_models_state strip pattern (obj models) =
    validate_models_fields strip pattern models >> ok models
validate_models_state strip pattern value = err (value_error "models.yaml: must be a mapping")

unfoldable pub validate_document :
    (String → String) → (String → Bool) → Option Json → Result ValueError (Option Fields)
validate_document strip pattern none = err (value_error "models.yaml: invalid YAML")
validate_document strip pattern (some null) = ok none
validate_document strip pattern (some value) =
    validate_models_state strip pattern value >>= λ models. ok (some models)

unfoldable pub validate_models_state_from_text :
    (String → Option Json)
    → (String → String)
    → (String → Bool)
    → String
    → Result ValueError (Option Fields)
validate_models_state_from_text loads strip pattern text =
    validate_document strip pattern (loads text)
