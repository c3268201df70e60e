-- ===== src/Mnemosyne/Examples.antt =====
-- Three generations of which one is kept (scripts/mnemosyne_backup_core.py).
use josemar_assistente.Base.{
  ◌≤◌, String, ◌≡◌, refl, Bool, true, false, none, some, List, [], ◌∷◌, contains,
}
use josemar_assistente.Mnemosyne.Prune.{
  StagingEntry, starts_with, is_generation, generations, insert_newest, newest_first, beyond,
  is_name, prune_staging,
}
use josemar_assistente.Mnemosyne.Retained.{count_newer, prune_staging_safe}

abbrev ready : String → StagingEntry
ready name = record { name = name; is_dir = true; has_ready = true }

abbrev is_valid : String → Bool
is_valid name = true

abbrev staging : List StagingEntry
staging = ready "20260102" ∷ ready ".export.lock" ∷ ready "20260103" ∷ ready "20260101" ∷ []

pruned : prune_staging is_valid staging 1 ("20260101" ∷ []) (some "20260103") none ≡ "20260101" ∷ []
unfolding starts_with is_generation generations insert_newest newest_first beyond prune_staging
pruned = refl

prune_staging_safe_example :
    (contains "20260101" (generations is_valid staging) ≡ true)
    × (contains "20260101" ("20260101" ∷ []) ≡ true)
    × (is_name "20260101" none ≡ false)
    × (is_name "20260101" (some "20260103") ≡ false)
    × (1 ≤ count_newer "20260101" (generations is_valid staging))
unfolding starts_with is_generation generations insert_newest newest_first beyond prune_staging
prune_staging_safe_example =
    prune_staging_safe is_valid staging 1 ("20260101" ∷ []) (some "20260103") none "20260101" refl
      refl
