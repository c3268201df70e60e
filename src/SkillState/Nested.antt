-- ===== src/SkillState/Nested.antt =====
-- Values at nested keys of a configuration: the inner functions `_set_nested` and `_del_nested` of
-- `apply_models_to_config` and `restore_template_models_defaults`, and the same loop in
-- `enforce_policy` (scripts/josemar_skill_state.py). With the configuration goes the flag `changed`.
use josemar_assistente.Base.{
  String, Bool, true, false, not, ◌||◌, Option, none, some, List, [], ◌∷◌, str_eq, if◌then◌else◌,
}
use josemar_assistente.Base.Fields.{get, put, delete, is_there, same}
use josemar_assistente.Base.Json.{Json, null, bool, num, str, arr, obj, Fields, end}
use josemar_assistente.SkillState.Config.{get_or}

-- `child = node.get(key)`, replaced by `{}` where it is no mapping
abbrev pub child_of : Option Json → Fields
child_of (some (obj fs)) = fs
child_of (some null) = end
child_of (some (bool b)) = end
child_of (some (num n)) = end
child_of (some (str s)) = end
child_of (some (arr xs)) = end
child_of none = end

-- Whether `node.get(path[-1]) != value` holds at the end of the path.
unfoldable pub differs : List String → Json → Fields → Bool
differs [] value node = false
differs (k ∷ []) value node = not (same (get_or k null node) value)
differs (k ∷ j ∷ path) value node = differs (j ∷ path) value (child_of (get k node))

unfoldable pub put_nested : List String → Json → Fields → Fields
put_nested [] value node = node
put_nested (k ∷ []) value node = if same (get_or k null node) value then node else put k value node
put_nested (k ∷ j ∷ path) value node =
    put k (obj (put_nested (j ∷ path) value (child_of (get k node)))) node

unfoldable pub set_nested : List String × Json → Fields × Bool → Fields × Bool
set_nested w s = (put_nested w.0 w.1 s.0, s.1 || differs w.0 w.1 s.0)

-- One write after the other
unfoldable pub set_all : List (List String × Json) → Fields × Bool → Fields × Bool
set_all [] s = s
set_all (w ∷ ws) s = set_all ws (set_nested w s)

-- The value at a path, through mappings alone.
unfoldable pub get_nested : List String → Fields → Option Json
get_nested [] node = none
get_nested (k ∷ []) node = get k node
get_nested (k ∷ j ∷ path) node = get_nested (j ∷ path) (child_of (get k node))

abbrev pub is_mapping : Option Json → Bool
is_mapping (some (obj fs)) = true
is_mapping value = false

unfoldable pub delete_nested : List String → Fields → Fields
delete_nested [] node = node
delete_nested (k ∷ []) node = delete k node
delete_nested (k ∷ j ∷ path) node =
    let child = obj (delete_nested (j ∷ path) (child_of (get k node))) in
    if is_mapping (get k node) then put k child node else node

-- `_del_nested`, with the flag
unfoldable pub unset_nested : List String → Fields × Bool → Fields × Bool
unset_nested path s = (delete_nested path s.0, s.1 || is_there (get_nested path s.0))

-- Neither path is the beginning of the other.
abbrev pub diverges : List String → List String → Bool
diverges [] q = false
diverges (a ∷ p) [] = false
diverges (a ∷ p) (b ∷ q) = if str_eq a b then diverges p q else true
