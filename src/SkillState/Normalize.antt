-- ===== src/SkillState/Normalize.antt =====
-- The canonical form of the skill toggles (`_normalize_string_list`, `_normalize_platform_disabled`,
-- `normalize_state` and `empty_state` of scripts/josemar_skill_state.py). Values come from JSON or
-- YAML, so tuples and sets do not occur and the keys of a mapping are texts. `text_of` is `str` and
-- `strip` is `str.strip`, which Python gives.
use josemar_assistente.Base.{ℕ, String, ◌||◌, List, [], ◌∷◌, ◌++◌, str_eq, if◌then◌else◌, contains}
use josemar_assistente.Base.Order.{lt_text, sort}
use josemar_assistente.Base.Dict.{Dict, insert}
use josemar_assistente.Base.Json.{Json, null, str, arr, obj, Items, nil, cons, Fields, end, field}
use josemar_assistente.Base.Result.{Result, ok, err, ◌>>=◌}

-- `ValueError`, with what it is about; some texts are shortened
pub data ValueError : Type 0 where
  value_error : String → ValueError
  item_error : ℕ → String → ValueError

-- A sidecar of version 1
pub record Toggles : Type 0 where
  pub disabled : List String
  pub platform_disabled : Dict (List String)

unfoldable pub empty_state : Toggles
empty_state = record { disabled = []; platform_disabled = [] }

module _ {ℓ} {V : Type ℓ} where
  -- `dict(sorted(d.items()))`: no key stands twice, so the keys alone decide.
  unfoldable pub insert_entry : String × V → Dict V → Dict V
  insert_entry e [] = e ∷ []
  insert_entry e (f ∷ fs) =
      let later = insert_entry e fs in if lt_text f.0 e.0 then f ∷ later else e ∷ f ∷ fs

  unfoldable pub sort_dict : Dict V → Dict V
  sort_dict [] = []
  sort_dict (e ∷ es) = insert_entry e (sort_dict es)

module _ (text_of : Json → String) (strip : String → String) where
  unfoldable pub add_text : String → List String → List String
  add_text s out = if str_eq s "" || contains s out then out else out ++ s ∷ []

  -- One turn of the loop; `seen` and `out` hold the same texts.
  unfoldable pub add_item : Json → List String → List String
  add_item null out = out
  add_item item out = add_text (strip (text_of item)) out

  unfoldable pub add_items : Items → List String → List String
  add_items nil out = out
  add_items (cons item items) out = add_items items (add_item item out)

  unfoldable pub normalize_string_list : Json → Result ValueError (List String)
  normalize_string_list null = ok []
  normalize_string_list (str s) = ok (sort (add_items (cons (str s) nil) []))
  normalize_string_list (arr items) = ok (sort (add_items items []))
  normalize_string_list value = err (value_error "Expected a list of strings")

  unfoldable pub add_platforms :
      Fields → Dict (List String) → Result ValueError (Dict (List String))
  add_platforms end out = ok out
  add_platforms (field platform items rest) out =
      if str_eq (strip platform) ""
      then err (value_error "platform_disabled keys must be non-empty strings")
      else normalize_string_list items >>= λ texts.
          add_platforms rest (insert (strip platform) texts out)

  unfoldable pub normalize_platform_disabled : Json → Result ValueError (Dict (List String))
  normalize_platform_disabled null = ok []
  normalize_platform_disabled (obj fs) = add_platforms fs [] >>= λ out. ok (sort_dict out)
  normalize_platform_disabled value = err (value_error "platform_disabled must be a mapping")

  unfoldable pub normalize_state : Json → Json → Result ValueError Toggles
  normalize_state disabled platform_disabled = normalize_string_list disabled >>= λ texts.
      normalize_platform_disabled platform_disabled >>= λ platforms.
      ok (record { disabled = texts; platform_disabled = platforms })
