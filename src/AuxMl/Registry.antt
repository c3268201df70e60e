-- ===== src/AuxMl/Registry.antt =====
-- The model registry (aux-ml/app/model_registry.py). A registry is its dictionary of models in file
-- order; whether a path exists is asked of the file system, and is an argument.
use josemar_assistente.Base.{
  ℕ, String, Bool, not, ◌&&◌, Option, none, some, List, [], ◌∷◌, str_eq, any, leb, if◌then◌else◌,
}
use josemar_assistente.Base.Dict.{Dict, lookup}
use josemar_assistente.Base.Result.{Result, ok, err}

pub record ModelSpec : Type 0 where
  pub key : String
  pub task : String
  pub model_path : String
  pub required_memory_mb : ℕ
  pub default_prompt : String
  pub max_tokens : ℕ
  pub mmproj_path : Option String
  pub optional : Bool

-- `KeyError` and `ValueError`
pub data RegistryError : Type 0 where
  unknown_model : String → RegistryError
  no_model_for_task : String → RegistryError
  empty_registry : RegistryError

unfoldable pub required_paths : ModelSpec → List String
required_paths spec = elim spec.mmproj_path [
  | none ↦ spec.model_path ∷ []
  | some mmproj ↦ spec.model_path ∷ mmproj ∷ []
]

-- `ModelRegistry(models)`
unfoldable pub make_registry : Dict ModelSpec → Result RegistryError (Dict ModelSpec)
make_registry [] = err empty_registry
make_registry (entry ∷ models) = ok (entry ∷ models)

-- The loop of `with_available_optional_models`: an optional model with a missing path is left out.
unfoldable pub available : (String → Bool) → Dict ModelSpec → Dict ModelSpec
available exists [] = []
available exists (entry ∷ models) =
    let kept = available exists models in
    if any (λ path. not (exists path)) (required_paths entry.1) && entry.1.optional
    then kept
    else entry ∷ kept

unfoldable pub with_available_optional_models :
    (String → Bool) → Dict ModelSpec → Result RegistryError (Dict ModelSpec)
with_available_optional_models exists models = make_registry (available exists models)

unfoldable pub get : String → Dict ModelSpec → Result RegistryError ModelSpec
get key models = elim (lookup key models) [ none ↦ err (unknown_model key) | some spec ↦ ok spec ]

unfoldable pub default_for_task : String → Dict ModelSpec → Result RegistryError ModelSpec
default_for_task task [] = err (no_model_for_task task)
default_for_task task (entry ∷ models) =
    if str_eq entry.1.task task then ok entry.1 else default_for_task task models

-- `max(...)` over the models; a registry is not empty.
unfoldable pub max_required_memory_mb : Dict ModelSpec → ℕ
max_required_memory_mb [] = 0
max_required_memory_mb (entry ∷ models) =
    let rest = max_required_memory_mb models in
    if leb rest entry.1.required_memory_mb then entry.1.required_memory_mb else rest
