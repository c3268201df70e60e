-- ===== src/Tasknotes/Engine/Promised.antt =====
-- What `load_profile` promises of the profile that it accepts (scripts/tasknotes_mcp_core.py).
use josemar_assistente.Base.{
  String, Bool, true, false, not, Option, none, some, List, ◌≡◌, sym, ap, ◌∙◌, any, map, contains,
  str_eq, arith,
}
use mathlib.Core.Path.{subst}
use josemar_assistente.Base.Dict.{lookup}
use josemar_assistente.Base.Json.{Json, null, bool, num, str, arr, obj, Fields}
use josemar_assistente.Base.Fields.{get}
use josemar_assistente.Base.Result.{Result, ok, ◌>>=◌, >>=-ok}
use josemar_assistente.Tasknotes.Engine.Effects.{EngineError}
use josemar_assistente.Tasknotes.Engine.Services.{TaskNotesProfile}
use josemar_assistente.Tasknotes.Engine.Page.{or_empty}
use josemar_assistente.Tasknotes.Engine.Profile.{
  tasknotes_required_version, incompatible, required_text, validate_statuses, validate_priorities,
  validate_mappings, validate_user_fields, validate_tag, equals_text, is_true, default_in,
  read_archive_folder, load_profile,
}
use josemar_assistente.Tasknotes.Engine.Uniqueness.{
  SoundStatuses, SoundPriorities, SoundFields, validate_statuses-SoundStatuses,
  validate_priorities-SoundPriorities, validate_user_fields-SoundFields,
}
use josemar_assistente.Tasknotes.Engine.Distinct.{SoundMappings, validate_mappings-SoundMappings}
use josemar_assistente.Tasknotes.Engine.Loaded.{incompatible-ok, ok-same, not-false}

default_in-ok :
    (values : List String) (given : Option Json) (out : String)
    → default_in values given ≡ ok out
    → contains out values ≡ true
unfolding default_in
default_in-ok values (some (str s)) out e =
    let member = >>=-ok (incompatible (not (contains s values)) _) _ out e in
    sym (ap (λ x. contains x values) (ok-same s out member.2))
    ∙ not-false _ (incompatible-ok _ _ member.1)
default_in-ok values none out e = grind arith
default_in-ok values (some null) out e = grind arith
default_in-ok values (some (bool b)) out e = grind arith
default_in-ok values (some (num n)) out e = grind arith
default_in-ok values (some (arr items)) out e = grind arith
default_in-ok values (some (obj fs)) out e = grind arith

validate_tag-ok :
    (is_tag : String → Bool) (message : String) (given : Option Json) (out : String)
    → validate_tag is_tag message given ≡ ok out
    → is_tag out ≡ true
unfolding validate_tag
validate_tag-ok is_tag message given out e =
    let text = >>=-ok (required_text message given) _ out e in
    let clean = >>=-ok (incompatible (not (is_tag text.0)) _) _ out text.2 in
    sym (ap is_tag (ok-same text.0 out clean.2)) ∙ not-false _ (incompatible-ok _ _ clean.1)

-- The parts of a sequence that succeeds
with_parts :
    {A B : Type 0} (m : Result EngineError A) (f : A → Result EngineError B) (b : B) {P : Type 0}
    → m >>= f ≡ ok b
    → ((a : A) → m ≡ ok a → f a ≡ ok b → P)
    → P
with_parts m f b e k = let parts = >>=-ok m f b e in k parts.0 parts.1 parts.2

module _ (is_tag : String → Bool)
    (tasks_folder_of archive_folder_of : String → Result EngineError String)
    (repository : Result EngineError (Unit {0}))
    (compute_profile_hash : Fields → Fields → String) where
  -- The promises. The statuses are the values of the document's choices, all different, of which
  -- exactly the completed status is marked as completed; the priorities are those of its choices, all
  -- different; the two defaults are among them. The required fields have different properties, none
  -- reserved and none but the title's `title`. No user field has the key or the id of another, a
  -- reserved key, an unknown kind or the key of a mapped property. The task tag is a tag, and the
  -- archive tag is another text.
  abbrev pub IsSound : Fields → TaskNotesProfile → Type 0
  IsSound document p =
      SoundStatuses (get "customStatuses" document) p.statuses p.completed_status
      × SoundPriorities (get "customPriorities" document) p.priorities
      × (contains p.default_status p.statuses ≡ true)
      × (contains p.default_priority p.priorities ≡ true)
      × SoundMappings p.mappings
      × SoundFields p.user_fields
      × (any (λ uf. contains uf.key (map (λ m. m.1) p.mappings)) p.user_fields ≡ false)
      × (is_tag p.task_tag ≡ true)
      × (str_eq p.archive_tag p.task_tag ≡ false)

  -- A profile that `load_profile` accepts is sound. Its statuses are the values of the document's
  -- `customStatuses`, all different, and exactly one of these, the completed status, is marked as
  -- completed; its priorities are the values of `customPriorities`, all different; the default status
  -- and priority are among them. Each required field of `fieldMapping` has a property, no two the
  -- same, none a reserved one, and none but the title `title`. No two user fields share a key or an
  -- id, and none has a reserved key, an unknown kind or the key of a mapped property. The task tag is
  -- a tag, and the archive tag differs from it.
  pub load_profile-IsSound :
      (manifest document : Fields) (profile : TaskNotesProfile)
      → load_profile is_tag tasks_folder_of archive_folder_of repository compute_profile_hash
          manifest document
        ≡ ok profile
      → IsSound document profile
  unfolding load_profile
  load_profile-IsSound manifest document profile e =
      with_parts
        (incompatible (not (equals_text (get "version" manifest) tasknotes_required_version)) _) _
        profile e
        (λ u version e.
          with_parts
            (incompatible (not (equals_text (get "taskIdentificationMethod" document) "tag")) _) _
            profile e
            (λ u method e.
              with_parts (validate_tag is_tag _ (get "taskTag" document)) _ profile e
                (λ task_tag tag e.
                  with_parts (required_text _ (get "tasksFolder" document)) _ profile e
                    (λ raw_folder raw e.
                      with_parts (tasks_folder_of raw_folder) _ profile e (λ tasks_folder folder e.
                        with_parts
                          (read_archive_folder is_tag tasks_folder_of archive_folder_of repository
                            compute_profile_hash (is_true (get "moveArchivedTasks" document))
                            (get "archiveFolder" document))
                          _ profile e
                          (λ archive_folder archive e.
                            with_parts (validate_statuses (get "customStatuses" document)) _ profile
                              e
                              (λ statuses valid_statuses e.
                                with_parts
                                  (default_in statuses.values (get "defaultTaskStatus" document)) _
                                  profile e
                                  (λ default_status status e.
                                    with_parts
                                      (validate_priorities (get "customPriorities" document)) _
                                      profile e
                                      (λ priorities valid_priorities e.
                                        with_parts
                                          (default_in priorities
                                            (get "defaultTaskPriority" document))
                                          _ profile e
                                          (λ default_priority priority e.
                                            with_parts
                                              (validate_mappings is_tag
                                                (get "fieldMapping" document))
                                              _ profile e
                                              (λ mappings valid_mappings e.
                                                with_parts
                                                  (incompatible
                                                    (str_eq
                                                      (or_empty (lookup "archiveTag" mappings))
                                                      task_tag)
                                                    _)
                                                  _ profile e
                                                  (λ u tags e.
                                                    with_parts
                                                      (validate_user_fields
                                                        (get "userFields" document))
                                                      _ profile e
                                                      (λ user_fields fields e.
                                                        with_parts
                                                          (incompatible
                                                            (any
                                                            (λ uf.
                                                            contains uf.key
                                                            (map (λ m. m.1) mappings))
                                                            user_fields)
                                                            _)
                                                          _ profile e
                                                          (λ u apart e.
                                                            with_parts repository _ profile e
                                                            (λ u stored e.
                                                            subst (IsSound document)
                                                            (ok-same _ profile e)
                                                            (
                                                            validate_statuses-SoundStatuses _
                                                            statuses valid_statuses,
                                                            validate_priorities-SoundPriorities _
                                                            priorities valid_priorities,
                                                            default_in-ok _ _ default_status status,
                                                            default_in-ok _ _ default_priority
                                                            priority,
                                                            validate_mappings-SoundMappings is_tag _
                                                            mappings valid_mappings,
                                                            validate_user_fields-SoundFields _
                                                            user_fields fields,
                                                            incompatible-ok _ _ apart,
                                                            validate_tag-ok is_tag _ _ task_tag tag,
                                                            incompatible-ok _ _ tags,
                                                            ))))))))))))))))
