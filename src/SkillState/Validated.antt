-- ===== src/SkillState/Validated.antt =====
-- Validated models.yaml documents: they hold no secret-looking key, each task's model goes with its
-- provider, and the overlay applies them without raising (`validate_models_state` and
-- `apply_models_to_config` of scripts/josemar_skill_state.py).
use josemar_assistente.Base.{
  String, ◌≡◌, refl, Bool, true, false, Option, none, some, List, [], ◌∷◌, any, contains, arith,
}
use josemar_assistente.Base.Fields.{get, same}
use josemar_assistente.Base.Json.{Json, null, bool, num, str, arr, obj, Fields}
use josemar_assistente.Base.Result.{ok}
use josemar_assistente.SkillState.Config.{or_default, get_or}
use josemar_assistente.SkillState.Nested.{child_of, get_nested}
use josemar_assistente.SkillState.Allowlist.{guard, reject_unknown_keys}
use josemar_assistente.SkillState.Models.{
  allowed_auxiliary_tasks, state_chain, is_well_formed, apply_checked, apply_models_to_config,
}
use josemar_assistente.SkillState.Schema.{
  validate_no_secret_keys, no_secret_fields, validate_root_model, validate_fallback_providers,
  validate_auxiliary_task, validate_present, validate_auxiliary, validate_cron,
  validate_models_fields, validate_models_state, document_keys,
}
use josemar_assistente.SkillState.Secrets.{PathStep, value_at, is_secret_step, no_secret_path}
use josemar_assistente.SkillState.Checks.{
  Passes, Passes->>=, validate_tasks-ok, validate_auxiliary_task-ok, TaskState,
}
use josemar_assistente.SkillState.Accepted.{
  is_some, validate_auxiliary-has_tasks, validate_cron-is_section,
  validate_fallback_providers-state_chain, validate_root_model-ok,
}

apply_checked-total :
    (chain : Option (Option (List Fields))) (well_formed : Bool) (config models : Fields)
    → is_some chain ≡ true
    → well_formed ≡ true
    → (r : Fields × Bool) × (apply_checked chain well_formed config models ≡ some r)
unfolding apply_checked
apply_checked-total none well_formed config models c w = ground arith
apply_checked-total (some chain) false config models c w = ground arith
apply_checked-total (some chain) true config models c w = (_, refl)

module _ (strip : String → String) (pattern : String → Bool) where
  -- The checks of the parts of a document
  abbrev Checked : Fields → Type 0
  Checked models =
      Passes (no_secret_fields pattern models)
      × Passes (validate_present (validate_root_model strip) (get "model" models))
      × Passes (validate_fallback_providers strip (get_or "fallback_providers" null models))
      × Passes (validate_auxiliary strip (get_or "auxiliary" null models))
      × Passes (validate_cron strip (get_or "cron" null models))

  document-Checked :
      (models : Fields) → Passes (validate_models_state strip pattern (obj models)) → Checked models
  unfolding validate_models_state validate_models_fields validate_no_secret_keys
  document-Checked models h =
      let fields = Passes->>= (validate_models_fields strip pattern models) (λ u. ok models) h in
      let version =
        Passes->>= (guard (same (get_or "version" null models) (num 1)) _) _ (fields.0, fields.1) in
      let known = Passes->>= (reject_unknown_keys models document_keys _) _ version.2 in
      let secrets = Passes->>= (no_secret_fields pattern models) _ known.2 in
      let root =
        Passes->>= (validate_present (validate_root_model strip) (get "model" models)) _
          secrets.2 in
      let chain =
        Passes->>= (validate_fallback_providers strip (get_or "fallback_providers" null models)) _
          root.2 in
      let tasks =
        Passes->>= (validate_auxiliary strip (get_or "auxiliary" null models)) _ chain.2 in
      ((secrets.0, secrets.1), (root.0, root.1), (chain.0, chain.1), (tasks.0, tasks.1), tasks.2)

  auxiliary_task-ok :
      (o : Option Json) (task : String) (value : Json)
      → Passes (validate_auxiliary strip (or_default null o))
      → contains task allowed_auxiliary_tasks ≡ true
      → get task (child_of o) ≡ some value
      → Passes (validate_auxiliary_task strip value)
  unfolding validate_auxiliary get
  auxiliary_task-ok none task value h m there = grind arith
  auxiliary_task-ok (some null) task value h m there = grind arith
  auxiliary_task-ok (some (bool b)) task value h m there = grind arith
  auxiliary_task-ok (some (num n)) task value h m there = grind arith
  auxiliary_task-ok (some (str t)) task value h m there = grind arith
  auxiliary_task-ok (some (arr xs)) task value h m there = grind arith
  auxiliary_task-ok (some (obj node)) task value h m there =
      let known = Passes->>= (reject_unknown_keys node allowed_auxiliary_tasks _) _ h in
      validate_tasks-ok strip allowed_auxiliary_tasks node task value known.2 m there

  -- In a validated document no path, through mappings and list items alike, that goes through a
  -- secret-looking key leads to a value.
  pub validated_secret_free :
      (models : Fields) (path : List PathStep)
      → validate_models_state strip pattern (obj models) ≡ ok models
      → any (is_secret_step pattern) path ≡ true
      → value_at path (obj models) ≡ none
  unfolding validate_no_secret_keys
  validated_secret_free models path e secret =
      no_secret_path pattern path (obj models) (document-Checked models (models, e)).0 secret

  -- In a validated document an allowed task that is there is a mapping of a provider, not blank, and a
  -- model, which is empty if the provider is `auto`, and not blank otherwise.
  pub validated_task :
      (models : Fields) (task : String) (value : Json)
      → validate_models_state strip pattern (obj models) ≡ ok models
      → contains task allowed_auxiliary_tasks ≡ true
      → get_nested ("auxiliary" ∷ task ∷ []) models ≡ some value
      → (node : Fields) × (value ≡ obj node) × TaskState strip node
  unfolding get_nested
  validated_task models task value e m there = validate_auxiliary_task-ok strip value (
      auxiliary_task-ok (get "auxiliary" models) task value (document-Checked models (models, e)).3
        m there)

  -- The overlay of a validated document gives a configuration.
  pub validated_applies :
      (config models : Fields)
      → validate_models_state strip pattern (obj models) ≡ ok models
      → (r : Fields × Bool) × (apply_models_to_config config models ≡ some r)
  unfolding apply_models_to_config is_well_formed
  validated_applies config models e =
      let parts = document-Checked models (models, e) in
      apply_checked-total (state_chain (get "fallback_providers" models)) _ config models
        (validate_fallback_providers-state_chain strip (get "fallback_providers" models) parts.2)
        (rw (validate_root_model-ok strip (get "model" models) parts.1) (
          rw (validate_auxiliary-has_tasks strip (get "auxiliary" models) parts.3)
            (validate_cron-is_section strip (get "cron" models) parts.4)))
