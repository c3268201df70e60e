-- ===== src/SkillState/Accepted.antt =====
-- What the acceptance of a section gives for its overlay (`_validate_root_model`,
-- `_validate_fallback_providers`, `_validate_auxiliary` and `_validate_cron` of
-- scripts/josemar_skill_state.py).
use josemar_assistente.Base.{
  String, ◌≡◌, refl, ◌∙◌, Bool, true, false, Option, none, some, List, [], ◌∷◌, all, arith,
}
use josemar_assistente.Base.Fields.{get}
use josemar_assistente.Base.Json.{Json, null, bool, num, str, arr, obj, Items, nil, cons, Fields}
use josemar_assistente.SkillState.Config.{or_default, get_or}
use josemar_assistente.SkillState.Allowlist.{reject_unknown_keys}
use josemar_assistente.SkillState.Models.{
  model_selection_keys, auxiliary_selection_keys, allowed_auxiliary_tasks, has_keys, has_tasks,
  is_section, mappings_only, state_chain, with_first, some_chain,
}
use josemar_assistente.SkillState.Schema.{
  validate_str, validate_root_model, validate_fallback_entry, validate_entries,
  validate_fallback_providers, validate_auxiliary_task, validate_present, validate_tasks,
  validate_auxiliary, validate_cron,
}
use josemar_assistente.SkillState.Checks.{
  Passes, Passes->>=, validate_str-ok, validate_present-ok, validate_auxiliary_task-ok,
}

abbrev pub is_some {ℓ} : {A : Type ℓ} → Option A → Bool
is_some none = false
is_some (some x) = true

is_some-with_first : (e : Fields) (o : Option (List Fields)) → is_some (with_first e o) ≡ is_some o
is_some-with_first e none = refl
is_some-with_first e (some es) = refl

is_some-some_chain : (o : Option (List Fields)) → is_some (some_chain o) ≡ is_some o
is_some-some_chain none = refl
is_some-some_chain (some es) = refl

module _ (strip : String → String) where
  has_keys-task :
      (o : Option Json)
      → Passes (validate_present (validate_auxiliary_task strip) o)
      → has_keys auxiliary_selection_keys o ≡ true
  has_keys-task none h = refl
  has_keys-task (some value) h =
      let accepted =
        validate_auxiliary_task-ok strip value
          (validate_present-ok strip _ (some value) value h refl) in
      let state = accepted.2 in rw accepted.1 (rw state.2 (rw state.3 refl))

  has_tasks-all :
      (tasks : List String) (node : Fields)
      → Passes (validate_tasks strip tasks node)
      → all (λ task. has_keys auxiliary_selection_keys (get task node)) tasks ≡ true
  unfolding validate_tasks
  has_tasks-all [] node h = refl
  has_tasks-all (t ∷ ts) node h =
      let parts = Passes->>= (validate_present (validate_auxiliary_task strip) (get t node)) _ h in
      rw (has_keys-task (get t node) (parts.0, parts.1)) (has_tasks-all ts node parts.2)

  pub validate_auxiliary-has_tasks :
      (o : Option Json) → Passes (validate_auxiliary strip (or_default null o)) → has_tasks o ≡ true
  unfolding validate_auxiliary
  validate_auxiliary-has_tasks none h = refl
  validate_auxiliary-has_tasks (some null) h = refl
  validate_auxiliary-has_tasks (some (bool b)) h = grind arith
  validate_auxiliary-has_tasks (some (num n)) h = grind arith
  validate_auxiliary-has_tasks (some (str t)) h = grind arith
  validate_auxiliary-has_tasks (some (arr xs)) h = grind arith
  validate_auxiliary-has_tasks (some (obj node)) h =
      let parts = Passes->>= (reject_unknown_keys node allowed_auxiliary_tasks _) _ h in
      has_tasks-all allowed_auxiliary_tasks node parts.2

  pub validate_cron-is_section :
      (o : Option Json) → Passes (validate_cron strip (or_default null o)) → is_section o ≡ true
  unfolding validate_cron
  validate_cron-is_section none h = refl
  validate_cron-is_section (some null) h = refl
  validate_cron-is_section (some (bool b)) h = grind arith
  validate_cron-is_section (some (num n)) h = grind arith
  validate_cron-is_section (some (str t)) h = grind arith
  validate_cron-is_section (some (arr xs)) h = grind arith
  validate_cron-is_section (some (obj node)) h = refl

  validate_entries-mappings :
      (entries : Items)
      → Passes (validate_entries strip entries)
      → is_some (mappings_only entries) ≡ true
  unfolding validate_entries validate_fallback_entry
  validate_entries-mappings nil h = refl
  validate_entries-mappings (cons null xs) h = grind arith
  validate_entries-mappings (cons (bool b) xs) h = grind arith
  validate_entries-mappings (cons (num n) xs) h = grind arith
  validate_entries-mappings (cons (str t) xs) h = grind arith
  validate_entries-mappings (cons (arr ys) xs) h = grind arith
  validate_entries-mappings (cons (obj e) xs) h =
      let parts =
        Passes->>= (validate_fallback_entry strip (obj e)) (λ u. validate_entries strip xs) h in
      is_some-with_first e (mappings_only xs) ∙ validate_entries-mappings xs parts.2

  pub validate_fallback_providers-state_chain :
      (o : Option Json)
      → Passes (validate_fallback_providers strip (or_default null o))
      → is_some (state_chain o) ≡ true
  unfolding validate_fallback_providers
  validate_fallback_providers-state_chain none h = refl
  validate_fallback_providers-state_chain (some null) h = refl
  validate_fallback_providers-state_chain (some (bool b)) h = grind arith
  validate_fallback_providers-state_chain (some (num n)) h = grind arith
  validate_fallback_providers-state_chain (some (str t)) h = grind arith
  validate_fallback_providers-state_chain (some (obj fs)) h = grind arith
  validate_fallback_providers-state_chain (some (arr xs)) h =
      is_some-some_chain (mappings_only xs) ∙ validate_entries-mappings xs h

  pub validate_root_model-ok :
      (o : Option Json)
      → Passes (validate_present (validate_root_model strip) o)
      → has_keys model_selection_keys o ≡ true
  unfolding validate_present validate_root_model
  validate_root_model-ok none h = refl
  validate_root_model-ok (some null) h = grind arith
  validate_root_model-ok (some (bool b)) h = grind arith
  validate_root_model-ok (some (num n)) h = grind arith
  validate_root_model-ok (some (str t)) h = grind arith
  validate_root_model-ok (some (arr xs)) h = grind arith
  validate_root_model-ok (some (obj node)) h =
      let known = Passes->>= (reject_unknown_keys node model_selection_keys _) _ h in
      let first = Passes->>= (validate_str strip true (get_or "provider" null node)) _ known.2 in
      let second = Passes->>= (validate_str strip true (get_or "default" null node)) _ first.2 in
      let provider = validate_str-ok strip true (get "provider" node) first.0 first.1 in
      let default = validate_str-ok strip true (get "default" node) second.0 second.1 in
      rw provider.0 (rw default.0 refl)
