-- ===== src/SkillState/Checks.antt =====
-- What a check that succeeds gives of the value: a text, a present key and an auxiliary task
-- (`_validate_str` and `_validate_auxiliary_task` of scripts/josemar_skill_state.py).
use josemar_assistente.Base.{
  String, ◌≡◌, refl, sym, ap, ◌∙◌, inl, inr, Bool, true, false, not, ◌||◌, Option, none, some, List,
  [], ◌∷◌, contains, arith, str_eq, eq_iff, Bool-cases, if◌then◌else◌,
}
use josemar_assistente.Base.Fields.{get}
use josemar_assistente.Base.Json.{Json, null, bool, num, str, arr, obj, Fields}
use josemar_assistente.Base.Result.{Result, ok, ◌>>=◌, >>=-ok}
use josemar_assistente.SkillState.Normalize.{ValueError}
use josemar_assistente.SkillState.Config.{or_default, get_or}
use josemar_assistente.SkillState.Allowlist.{guard, reject_unknown_keys}
use josemar_assistente.SkillState.Models.{auxiliary_selection_keys}
use josemar_assistente.SkillState.Schema.{
  validate_str, validate_task_model, validate_auxiliary_task, validate_present, validate_tasks,
}

-- A check that succeeds
abbrev pub Passes {ℓ} : {A : Type ℓ} → Result ValueError A → Type ℓ
Passes {A} r = (a : A) × (r ≡ ok a)

pub guard-ok : (b : Bool) (e : ValueError) (u : Unit {0}) → guard b e ≡ ok u → b ≡ true
guard-ok true e u h = refl
guard-ok false e u h = grind arith

pub Passes->>= {ℓ κ} :
    {A : Type ℓ} {B : Type κ} (m : Result ValueError A) (f : A → Result ValueError B)
    → Passes (m >>= f)
    → (a : A) × (m ≡ ok a) × Passes (f a)
Passes->>= m f h = let parts = >>=-ok m f h.0 h.1 in (parts.0, parts.1, (h.0, parts.2))

-- The check of a text that is read from a mapping
pub validate_str-ok :
    (strip : String → String) (required : Bool) (o : Option Json) (text : String)
    → validate_str strip required (or_default null o) ≡ ok text
    → (o ≡ some (str text)) × (not required || not (str_eq (strip text) "") ≡ true)
unfolding validate_str
validate_str-ok strip required none text h = grind arith
validate_str-ok strip required (some null) text h = grind arith
validate_str-ok strip required (some (bool b)) text h = grind arith
validate_str-ok strip required (some (num n)) text h = grind arith
validate_str-ok strip required (some (arr xs)) text h = grind arith
validate_str-ok strip required (some (obj fs)) text h = grind arith
validate_str-ok strip required (some (str t)) text h =
    let parts = >>=-ok (guard (not required || not (str_eq (strip t) "")) _) (λ u. ok t) text h in
    let own : t ≡ text = grind arith in
    (
      ap (λ (x : String). some (str x)) own,
      ap (λ (x : String). not required || not (str_eq (strip x) "")) (sym own)
          ∙ guard-ok _ _ parts.0 parts.1,
    )

module _ (strip : String → String) where
  pub validate_present-ok :
      (check : Json → Result ValueError (Unit {0})) (o : Option Json) (value : Json)
      → Passes (validate_present check o)
      → o ≡ some value
      → Passes (check value)
  unfolding validate_present
  validate_present-ok check none value h e = grind arith
  validate_present-ok check (some v) value h e =
      let here : v ≡ value = grind arith in rw (sym here) h

  -- The provider and the model of a task that is accepted
  abbrev pub TaskState : Fields → Type 0
  TaskState node =
      (provider : String) × (model : String) × (get "provider" node ≡ some (str provider))
      × (get "model" node ≡ some (str model))
      × (not (str_eq (strip provider) "") ≡ true)
      × ((if str_eq provider "auto" then str_eq model "" else not (str_eq (strip model) "")) ≡ true)

  validate_task_model-ok :
      (provider model : String)
      → Passes (validate_task_model strip provider model)
      → (if str_eq provider "auto" then str_eq model "" else not (str_eq (strip model) "")) ≡ true
  unfolding validate_task_model
  validate_task_model-ok provider model h = elim (Bool-cases (str_eq provider "auto")) [
    | inl auto ↦
        let passed = (rw auto at h) in rw auto (guard-ok (str_eq model "") _ passed.0 passed.1)
    | inr other ↦
        let passed = Passes->>= (validate_str strip true (str model)) _ (rw other at h) in
        let checked = validate_str-ok strip true (some (str model)) passed.0 passed.1 in
        let own : model ≡ passed.0 = grind arith in
        rw other (ap (λ (x : String). not (str_eq (strip x) "")) own ∙ checked.1)
  ]

  pub validate_auxiliary_task-ok :
      (value : Json)
      → Passes (validate_auxiliary_task strip value)
      → (node : Fields) × (value ≡ obj node) × TaskState node
  unfolding validate_auxiliary_task
  validate_auxiliary_task-ok null h = grind arith
  validate_auxiliary_task-ok (bool b) h = grind arith
  validate_auxiliary_task-ok (num n) h = grind arith
  validate_auxiliary_task-ok (str t) h = grind arith
  validate_auxiliary_task-ok (arr xs) h = grind arith
  validate_auxiliary_task-ok (obj node) h =
      let known = Passes->>= (reject_unknown_keys node auxiliary_selection_keys _) _ h in
      let first = Passes->>= (validate_str strip true (get_or "provider" null node)) _ known.2 in
      let second = Passes->>= (validate_str strip false (get_or "model" null node)) _ first.2 in
      let provider = validate_str-ok strip true (get "provider" node) first.0 first.1 in
      let model = validate_str-ok strip false (get "model" node) second.0 second.1 in
      (
        node,
        refl,
        (
          first.0,
          second.0,
          provider.0,
          model.0,
          provider.1,
          validate_task_model-ok first.0 second.0 second.2,
        ),
      )

  pub validate_tasks-ok :
      (tasks : List String) (node : Fields) (task : String) (value : Json)
      → Passes (validate_tasks strip tasks node)
      → contains task tasks ≡ true
      → get task node ≡ some value
      → Passes (validate_auxiliary_task strip value)
  unfolding validate_tasks
  validate_tasks-ok [] node task value h m there = ground arith
  validate_tasks-ok (t ∷ ts) node task value h m there =
      let parts = Passes->>= (validate_present (validate_auxiliary_task strip) (get t node)) _ h in
      elim (Bool-cases (str_eq t task)) [
        | inl own ↦
            validate_present-ok (validate_auxiliary_task strip) (get t node) value
              (parts.0, parts.1) (ap (λ (x : String). get x node) ((eq_iff t task).0 own) ∙ there)
        | inr other ↦ validate_tasks-ok ts node task value parts.2 (ground arith) there
      ]
