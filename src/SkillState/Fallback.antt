-- ===== src/SkillState/Fallback.antt =====
-- The merge of the fallback chain (`_merge_fallback_by_provider` of scripts/josemar_skill_state.py).
-- The entries of the state are mappings, as its validation requires.
use josemar_assistente.Base.{String, Option, none, some, List, [], ◌∷◌, if◌then◌else◌}
use josemar_assistente.Base.Fields.{get, put, same}
use josemar_assistente.Base.Json.{Json, null, obj, Items, nil, cons, Fields, end}
use josemar_assistente.SkillState.Config.{get_or}

-- `[e for e in entries if isinstance(e, dict)]`
unfoldable pub mappings_of : Items → List Fields
mappings_of nil = []
mappings_of (cons (obj fs) entries) = fs ∷ mappings_of entries
mappings_of (cons value entries) = mappings_of entries

unfoldable pub entries_of : List Fields → Items
entries_of [] = nil
entries_of (e ∷ es) = cons (obj e) (entries_of es)

abbrev pub provider_of : Fields → Json
provider_of entry = get_or "provider" null entry

-- A match found among the others leaves the first entry in place.
abbrev pub keep_first : Fields → Option (Fields × List Fields) → Option (Fields × List Fields)
keep_first e none = none
keep_first e (some r) = some (r.0, e ∷ r.1)

-- The first entry with the provider, and the others
unfoldable pub take_match : Json → List Fields → Option (Fields × List Fields)
take_match provider [] = none
take_match provider (e ∷ es) =
    let later = keep_first e (take_match provider es) in
    if same (provider_of e) provider then some (e, es) else later

-- `if key in state_entry: merged[key] = state_entry[key]`
unfoldable pub put_if_there : String → Option Json → Fields → Fields
put_if_there key none merged = merged
put_if_there key (some value) merged = put key value merged

unfoldable pub select_fallback : Fields → Fields → Fields
select_fallback state_entry merged =
    put_if_there "model" (get "model" state_entry)
      (put_if_there "provider" (get "provider" state_entry) merged)

-- The merged entry, and the entries left to consume
unfoldable pub merge_entry :
    Fields → Option (Fields × List Fields) → List Fields → Fields × List Fields
merge_entry s none consumable = (select_fallback s end, consumable)
merge_entry s (some r) consumable = (select_fallback s r.0, r.1)

unfoldable pub merge_fallback_by_provider : List Fields → List Fields → List Fields
merge_fallback_by_provider [] consumable = []
merge_fallback_by_provider (s ∷ ss) consumable =
    let step = merge_entry s (take_match (provider_of s) consumable) consumable in
    step.0 ∷ merge_fallback_by_provider ss step.1
