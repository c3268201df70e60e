-- ===== src/Tasknotes/Engine/Planning.antt =====
-- No rewritten note has both a day and a week (`reconstruct_markdown`,
-- scripts/tasknotes_mcp_core.py).
use josemar_assistente.Base.{
  String, Bool, true, false, ◌&&◌, ◌||◌, Option, none, some, List, [], ◌∷◌, ◌≡◌, refl, ap, ◌∙◌,
  eq_iff, str_eq, if◌then◌else◌, arith,
}
use josemar_assistente.Base.Json.{Json, str, Fields}
use josemar_assistente.Base.Fields.{get, put, delete, is_there, has_key, get-put, get-delete}
use josemar_assistente.Tasknotes.Engine.Services.{TaskNotesProfile}
use josemar_assistente.Tasknotes.Engine.Validate.{planned_week_key}
use josemar_assistente.Tasknotes.Engine.Page.{
  Page, mapped, settle_planning, set_default, rehydrate, denormalized, collapse, collapse_dates,
  date_valued_frontmatter_keys, apply_modeled, apply_custom, rewrite_frontmatter,
}

has-put :
    (key other : String) (value : Json) (fs : Fields)
    → has_key other (put key value fs) ≡ (str_eq key other || has_key other fs)
has-put key other value fs = ap is_there (get-put key other value fs) ∙ chosen (str_eq key other)
  where
    chosen :
        (b : Bool) → is_there (if b then some value else get other fs) ≡ (b || has_key other fs)
    chosen true = refl
    chosen false = refl

has-put-other :
    (key other : String) (value : Json) (fs : Fields)
    → str_eq key other ≡ false
    → has_key other (put key value fs) ≡ has_key other fs
has-put-other key other value fs e = has-put key other value fs ∙ ap (λ b. b || has_key other fs) e

has-delete-same :
    (key : String) (fs : Fields) → str_eq key key ≡ true → has_key key (delete key fs) ≡ false
has-delete-same key fs e =
    ap is_there (get-delete key key fs ∙ ap (λ b. if b then none else get key fs) e)

has-set_default-other :
    (key other : String) (value : Json) (fs : Fields)
    → str_eq key other ≡ false
    → has_key other (set_default key value fs) ≡ has_key other fs
has-set_default-other key other value fs e = chosen (has_key key fs)
  where
    chosen : (b : Bool) → has_key other (if b then fs else put key value fs) ≡ has_key other fs
    chosen true = refl
    chosen false = has-put-other key other value fs e

module _ (denormalize : String → String) (ends_line : String → Bool) where
  collapse_found :
      (key other : String) (fs : Fields) (found : Option Json)
      → get key fs ≡ found
      → has_key other (collapse denormalize ends_line key found fs) ≡ has_key other fs
  collapse_found key other fs none e = refl
  collapse_found key other fs (some value) e =
      ground
        (arith, get-put key other (denormalized denormalize ends_line value) fs, eq_iff key other)

  has-collapse_dates :
      (other : String) (keys : List String) (fs : Fields)
      → has_key other (collapse_dates denormalize ends_line keys fs) ≡ has_key other fs
  unfolding collapse_dates
  has-collapse_dates other [] fs = refl
  has-collapse_dates other (key ∷ keys) fs =
      has-collapse_dates other keys _ ∙ collapse_found key other fs (get key fs) refl

has-either :
    (b : Bool) (x y : Fields) {found : Bool} (other : String)
    → has_key other x ≡ found
    → has_key other y ≡ found
    → has_key other (if b then x else y) ≡ found
has-either true x y other ex ey = ex
has-either false x y other ex ey = ey

both_by : {a b c d : Bool} → a ≡ c → b ≡ d → (a && b) ≡ (c && d)
both_by {a} {b} {c} {d} e f = ap (λ x. x && b) e ∙ ap (λ x. c && x) f

has-rehydrate :
    (profile : TaskNotesProfile) (page : Page) (tags_updated : Bool) (other : String) (fs : Fields)
    → str_eq "type" other ≡ false
    → str_eq "title" other ≡ false
    → str_eq "tags" other ≡ false
    → str_eq (mapped profile "title") other ≡ false
    → has_key other (rehydrate profile page tags_updated fs) ≡ has_key other fs
unfolding rehydrate
has-rehydrate profile page tags_updated other fs e_type e_title e_tags e_mapped =
    let typed : Fields = put "title" (str page.title) (put "type" (str page.kind) fs) in
    let of_typed : has_key other typed ≡ has_key other fs =
      has-put-other "title" other _ _ e_title ∙ has-put-other "type" other _ fs e_type in
    let of_titled =
      has-either (str_eq (mapped profile "title") "title") _ _ other of_typed
        (has-set_default-other (mapped profile "title") other _ typed e_mapped ∙ of_typed) in
    has-either tags_updated _ _ other of_titled (has-put-other "tags" other _ _ e_tags ∙ of_titled)

settled_once :
    (scheduled : String) (fs : Fields)
    → (has_key planned_week_key (settle_planning scheduled fs)
        && has_key scheduled (settle_planning scheduled fs))
      ≡ false
unfolding settle_planning
settled_once scheduled fs = chosen (has_key planned_week_key fs) (has_key scheduled fs) refl refl
  where
    chosen :
        (p s : Bool)
        → has_key planned_week_key fs ≡ p
        → has_key scheduled fs ≡ s
        → (has_key planned_week_key (if p && s then delete planned_week_key fs else fs)
            && has_key scheduled (if p && s then delete planned_week_key fs else fs))
          ≡ false
    chosen true true ep es =
        ap (λ b. b && has_key scheduled (delete planned_week_key fs))
          (has-delete-same planned_week_key fs refl)
    chosen true false ep es = ap (λ b. has_key planned_week_key fs && b) es ∙ ground arith
    chosen false s ep es = ap (λ b. b && has_key scheduled fs) ep

-- In a rewritten note the planned week and the scheduled day never stand together, whatever the page
-- held and whatever the updates are, where the key of the scheduled day is none of `type`, `title`
-- and `tags`, and the key of the title is neither that key nor that of the planned week.
pub rewrite_frontmatter-exclusive :
    (denormalize : String → String) (ends_line : String → Bool) (profile : TaskNotesProfile)
    (page : Page) (updates : Fields)
    → str_eq "type" (mapped profile "scheduled") ≡ false
    → str_eq "title" (mapped profile "scheduled") ≡ false
    → str_eq "tags" (mapped profile "scheduled") ≡ false
    → str_eq (mapped profile "title") (mapped profile "scheduled") ≡ false
    → str_eq (mapped profile "title") planned_week_key ≡ false
    → (has_key planned_week_key (rewrite_frontmatter denormalize ends_line profile page updates)
        && has_key
            (mapped profile "scheduled")
            (rewrite_frontmatter denormalize ends_line profile page updates))
      ≡ false
unfolding rewrite_frontmatter
rewrite_frontmatter-exclusive denormalize ends_line profile page updates e1 e2 e3 e4 e5 =
    let changed : Fields =
      apply_custom profile updates (apply_modeled profile updates page.frontmatter) in
    let settled : Fields = settle_planning (mapped profile "scheduled") changed in
    let week =
      has-collapse_dates denormalize ends_line planned_week_key
        (date_valued_frontmatter_keys profile) _
      ∙ has-rehydrate profile page (has_key "tags" updates) planned_week_key settled refl refl refl
          e5 in
    let day =
      has-collapse_dates denormalize ends_line (mapped profile "scheduled")
        (date_valued_frontmatter_keys profile) _
      ∙ has-rehydrate profile page (has_key "tags" updates) (mapped profile "scheduled") settled e1
          e2 e3 e4 in
    both_by week day ∙ settled_once (mapped profile "scheduled") changed
