-- ===== src/SkillState/Models.antt =====
-- The overlay of a models.yaml state on a configuration (`apply_models_to_config` of
-- scripts/josemar_skill_state.py). A configuration that is changed goes with the flag `changed`. The
-- result is nothing where the code raises on a state of another form, and where a section is no
-- mapping, which the validation of a state rejects.
use josemar_assistente.Base.{
  String, Bool, true, false, ◌&&◌, Option, none, some, List, [], ◌∷◌, ◌++◌, map, all,
}
use josemar_assistente.Base.Fields.{get, has_key}
use josemar_assistente.Base.Json.{Json, null, arr, obj, Items, nil, cons, Fields}
use josemar_assistente.SkillState.Nested.{set_nested, get_nested}
use josemar_assistente.SkillState.Fallback.{mappings_of, entries_of, merge_fallback_by_provider}

abbrev pub allowed_auxiliary_tasks : List String
allowed_auxiliary_tasks =
    "vision" ∷ "compression" ∷ "skills_hub" ∷ "approval" ∷ "mcp" ∷ "title_generation" ∷ "review"
    ∷ "triage_specifier" ∷ "kanban_decomposer" ∷ "profile_describer" ∷ "curator" ∷ []

abbrev pub model_selection_keys : List String
model_selection_keys = "provider" ∷ "default" ∷ []

abbrev pub fallback_selection_keys : List String
fallback_selection_keys = "provider" ∷ "model" ∷ []

abbrev pub auxiliary_selection_keys : List String
auxiliary_selection_keys = "provider" ∷ "model" ∷ []

abbrev pub cron_selection_keys : List String
cron_selection_keys = "model" ∷ "model_provider" ∷ []

-- The state-owned paths, in the order in which the code walks them
abbrev pub model_paths : List (List String)
model_paths = map (λ key. "model" ∷ key ∷ []) model_selection_keys

abbrev pub auxiliary_paths_of : List String → List (List String)
auxiliary_paths_of [] = []
auxiliary_paths_of (task ∷ tasks) =
    map (λ key. "auxiliary" ∷ task ∷ key ∷ []) auxiliary_selection_keys ++ auxiliary_paths_of tasks

abbrev pub auxiliary_paths : List (List String)
auxiliary_paths = auxiliary_paths_of allowed_auxiliary_tasks

abbrev pub cron_paths : List (List String)
cron_paths = map (λ key. "cron" ∷ key ∷ []) cron_selection_keys

-- A loop over paths
abbrev pub each_path :
    (List String → Fields × Bool → Fields × Bool)
    → List (List String)
    → Fields × Bool
    → Fields × Bool
each_path step [] s = s
each_path step (p ∷ ps) s = each_path step ps (step p s)

-- A value is written, and nothing is where there is none.
unfoldable pub write_value : List String → Option Json → Fields × Bool → Fields × Bool
write_value path none s = s
write_value path (some value) s = set_nested (path, value) s

unfoldable pub write_selected : List (List String) → Fields → Fields × Bool → Fields × Bool
write_selected ps models s = each_path (λ p. write_value p (get_nested p models)) ps s

-- `section[key]` for each of the keys does not raise.
abbrev pub has_keys : List String → Option Json → Bool
has_keys keys none = true
has_keys keys (some (obj section)) = all (λ key. has_key key section) keys
has_keys keys (some value) = false

abbrev pub has_tasks : Option Json → Bool
has_tasks none = true
has_tasks (some null) = true
has_tasks (some (obj tasks)) =
    all (λ task. has_keys auxiliary_selection_keys (get task tasks)) allowed_auxiliary_tasks
has_tasks (some value) = false

abbrev pub is_section : Option Json → Bool
is_section none = true
is_section (some null) = true
is_section (some (obj section)) = true
is_section (some value) = false

abbrev pub with_first : Fields → Option (List Fields) → Option (List Fields)
with_first e none = none
with_first e (some es) = some (e ∷ es)

-- The entries of a list of mappings
abbrev pub mappings_only : Items → Option (List Fields)
mappings_only nil = some []
mappings_only (cons (obj e) entries) = with_first e (mappings_only entries)
mappings_only (cons value entries) = none

abbrev pub some_chain : Option (List Fields) → Option (Option (List Fields))
some_chain none = none
some_chain (some es) = some (some es)

-- The state's chain, where there is one
abbrev pub state_chain : Option Json → Option (Option (List Fields))
state_chain none = some none
state_chain (some null) = some (some [])
state_chain (some (arr entries)) = some_chain (mappings_only entries)
state_chain (some value) = none

-- `config.get("fallback_providers")`, or an empty list
abbrev pub existing_chain : Option Json → List Fields
existing_chain (some (arr entries)) = mappings_of entries
existing_chain value = []

abbrev pub chain_path : List String
chain_path = "fallback_providers" ∷ []

unfoldable pub put_chain : List Fields → Fields × Bool → Fields × Bool
put_chain chain s = set_nested (chain_path, arr (entries_of chain)) s

unfoldable pub apply_chain : Option (List Fields) → Fields × Bool → Fields × Bool
apply_chain none s = s
apply_chain (some state) s =
    put_chain (merge_fallback_by_provider state (existing_chain (get "fallback_providers" s.0))) s

-- No subscript and no call on an entry raises.
unfoldable pub is_well_formed : Fields → Bool
is_well_formed models =
    has_keys model_selection_keys (get "model" models)
    && (has_tasks (get "auxiliary" models) && is_section (get "cron" models))

unfoldable pub apply_sections : Option (List Fields) → Fields → Fields → Fields × Bool
apply_sections chain models config = write_selected cron_paths models (
    write_selected auxiliary_paths models
      (apply_chain chain (write_selected model_paths models (config, false))))

unfoldable pub apply_checked :
    Option (Option (List Fields)) → Bool → Fields → Fields → Option (Fields × Bool)
apply_checked none well_formed config models = none
apply_checked (some chain) false config models = none
apply_checked (some chain) true config models = some (apply_sections chain models config)

unfoldable pub apply_models_to_config : Fields → Fields → Option (Fields × Bool)
apply_models_to_config config models =
    apply_checked (state_chain (get "fallback_providers" models)) (is_well_formed models) config
      models
