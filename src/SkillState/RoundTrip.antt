-- ===== src/SkillState/RoundTrip.antt =====
-- Toggles written and read back (scripts/josemar_skill_state.py).
use josemar_assistente.Base.{
  String, ◌≡◌, ap, ◌∙◌, true, false, Option, some, arith, str_eq, inl, inr,
}
use josemar_assistente.Base.Fields.{get, put, same, get-put}
use josemar_assistente.Base.Json.{Json, null, str, arr, obj, Fields}
use josemar_assistente.Base.Result.{ok, Result-cases}
use josemar_assistente.SkillState.Normalize.{Toggles, normalize_state}
use josemar_assistente.SkillState.Canonical.{
  items_of, fields_of, is_canonical, normalize_state-canonical,
}
use josemar_assistente.SkillState.Config.{
  or_default, as_section, skills_section, skills_or_new, put_toggles, apply_state_to_config,
  sidecar_document, list_or_empty, mapping_or_empty, extract_state_from_config, serialize_sidecar,
  deserialize_document, deserialize_sidecar,
}

skills_section-put :
    (skills config : Fields) → skills_section (put "skills" (obj skills) config) ≡ ok skills
unfolding skills_section as_section
skills_section-put skills config =
    ap (λ (o : Option Json). as_section (or_default null o))
      (get-put "skills" "skills" (obj skills) config)

get_disabled :
    (t : Toggles) (skills : Fields)
    → get "disabled" (put_toggles t skills) ≡ some (arr (items_of t.disabled))
unfolding put_toggles
get_disabled t skills =
    get-put "platform_disabled" "disabled" (obj (fields_of t.platform_disabled))
      (put "disabled" (arr (items_of t.disabled)) skills)
    ∙ get-put "disabled" "disabled" (arr (items_of t.disabled)) skills

get_platform_disabled :
    (t : Toggles) (skills : Fields)
    → get "platform_disabled" (put_toggles t skills) ≡ some (obj (fields_of t.platform_disabled))
unfolding put_toggles
get_platform_disabled t skills =
    get-put "platform_disabled" "platform_disabled" (obj (fields_of t.platform_disabled))
      (put "disabled" (arr (items_of t.disabled)) skills)

module _ (text_of : Json → String) (strip : String → String) where
  -- Let `str` of a text be that text. Whenever the application of a canonical state to a
  -- configuration succeeds, the state extracted from the new configuration is that state.
  pub extract_state_from_config-apply_state_to_config :
      ((s : String) → text_of (str s) ≡ s)
      → (config c : Fields) (t : Toggles) → is_canonical text_of strip t ≡ true
      → apply_state_to_config config t ≡ ok c
      → extract_state_from_config text_of strip c ≡ ok t
  unfolding apply_state_to_config extract_state_from_config
  extract_state_from_config-apply_state_to_config texts config c t canonical applied =
      elim (Result-cases (skills_or_new config)) [
        | inl (e, failed) ↦ ground arith
        | inr (skills, found) ↦
            let new : c ≡ put "skills" (obj (put_toggles t skills)) config = ground arith in
            rw
              (
                new,
                skills_section-put (put_toggles t skills) config,
                get_disabled t skills,
                get_platform_disabled t skills,
              )
              (normalize_state-canonical text_of strip texts t canonical)
      ]

  read_document :
      (t : Toggles)
      → normalize_state text_of strip
          (arr (items_of t.disabled))
          (obj (fields_of t.platform_disabled))
        ≡ ok t
      → deserialize_document text_of strip (sidecar_document t) ≡ ok t
  unfolding deserialize_document sidecar_document list_or_empty mapping_or_empty get same
  read_document t normal = normal

  -- Let `str` of a text be that text, let `loads` undo `dumps` at the state's
  -- document, and let the dumped text not be blank. The text that a canonical state is serialized
  -- to is read back as that state.
  pub deserialize_sidecar-serialize_sidecar :
      ((s : String) → text_of (str s) ≡ s)
      → (dumps : Json → String) (loads : String → Option Json) → (t : Toggles) (text : String)
      → loads (dumps (sidecar_document t)) ≡ some (sidecar_document t)
      → str_eq (strip (dumps (sidecar_document t))) "" ≡ false
      → is_canonical text_of strip t ≡ true
      → serialize_sidecar text_of strip dumps t ≡ ok text
      → deserialize_sidecar text_of strip loads text ≡ ok t
  unfolding serialize_sidecar deserialize_sidecar
  deserialize_sidecar-serialize_sidecar texts dumps loads t text inverse shown canonical written =
      let normal = normalize_state-canonical text_of strip texts t canonical in
      let is_text : text ≡ dumps (sidecar_document t) = ground (arith, normal) in
      rw (is_text, shown, inverse) (read_document t normal)
