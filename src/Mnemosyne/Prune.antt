-- ===== src/Mnemosyne/Prune.antt =====
-- The pruning of old generations on the staging volume (`_prune_staging` and
-- `_read_uploaded_ledger` of scripts/mnemosyne_backup_core.py). `is_valid` is the match of a
-- generation id by its regular expression, `strip` Python's `str.strip`, and `loads` that of `json`,
-- which gives nothing for text that is no JSON.
use Prim.Native.Char.{code}
use josemar_assistente.Base.{
  ℕ, ◌-◌, String, Bool, false, not, ◌&&◌, ◌||◌, Option, none, some, List, [], ◌∷◌, ◌++◌, length,
  leb, contains, keep_if, str_eq, ◌==◌, if◌then◌else◌,
}
use josemar_assistente.Base.Order.{lt_text}
use josemar_assistente.Base.Fields.{get}
use josemar_assistente.Base.Json.{Json, str, obj}

-- An entry of the staging directory, and whether it holds a READY sentinel
pub record StagingEntry : Type 0 where
  pub name : String
  pub is_dir : Bool
  pub has_ready : Bool

-- `text.startswith(c)` for the character of the code
unfoldable pub starts_with : ℕ → String → Bool
starts_with c String.[] = false
starts_with c (String.◌∷◌ d text) = code d == c

abbrev pub acknowledged : (String → Bool) → Option Json → List String
acknowledged is_valid (some (str gen_id)) =
    if not (str_eq gen_id "") && is_valid gen_id then gen_id ∷ [] else []
acknowledged is_valid value = []

-- `json.loads(line).get("generation_id")`
abbrev pub ledger_field : Option Json → Option Json
ledger_field (some (obj fs)) = get "generation_id" fs
ledger_field value = none

module _ (strip : String → String) (is_valid : String → Bool) where
  unfoldable pub ledger_line : (String → Option Json) → String → List String
  ledger_line loads line =
      let text = strip line in
      if str_eq text ""
      then []
      else acknowledged is_valid
          (if starts_with 123 text then ledger_field (loads text) else some (str text))

  -- The lines of the ledger, none where it cannot be read
  unfoldable pub read_uploaded_ledger : (String → Option Json) → List String → List String
  read_uploaded_ledger loads [] = []
  read_uploaded_ledger loads (line ∷ lines) =
      ledger_line loads line ++ read_uploaded_ledger loads lines

  -- The text of the pointer file, where it can be read
  unfoldable pub latest_generation : Option String → Option String
  latest_generation none = none
  latest_generation (some text) = if is_valid (strip text) then some (strip text) else none

unfoldable pub is_generation : (String → Bool) → StagingEntry → Bool
is_generation is_valid entry =
    entry.is_dir
    && (not (starts_with 46 entry.name || str_eq entry.name ".export.lock")
        && (is_valid entry.name && entry.has_ready))

unfoldable pub generations : (String → Bool) → List StagingEntry → List String
generations is_valid [] = []
generations is_valid (entry ∷ entries) =
    let rest = generations is_valid entries in
    if is_generation is_valid entry then entry.name ∷ rest else rest

unfoldable pub insert_newest : String → List String → List String
insert_newest x [] = x ∷ []
insert_newest x (y ∷ ys) =
    let later = insert_newest x ys in if lt_text x y then y ∷ later else x ∷ y ∷ ys

-- `gens.sort(reverse=True)`
unfoldable pub newest_first : List String → List String
newest_first [] = []
newest_first (x ∷ xs) = insert_newest x (newest_first xs)

-- `gens[keep:]`
unfoldable pub beyond : List String → ℕ → List String
beyond [] keep = []
beyond (x ∷ xs) keep = if keep == 0 then x ∷ xs else beyond xs (keep - 1)

abbrev pub is_name : String → Option String → Bool
is_name name none = false
is_name name (some other) = str_eq name other

abbrev pub is_deletable : List String → Option String → Option String → String → Bool
is_deletable acked latest current name =
    not (is_name name current) && (not (is_name name latest) && contains name acked)

-- The removed generations; the files of each are deleted.
unfoldable pub prune_staging :
    (String → Bool)
    → List StagingEntry
    → ℕ
    → List String
    → Option String
    → Option String
    → List String
prune_staging is_valid entries keep acked latest current =
    let gens = generations is_valid entries in
    if keep == 0 || leb (length gens) keep
    then []
    else keep_if (is_deletable acked latest current) (beyond (newest_first gens) keep)
