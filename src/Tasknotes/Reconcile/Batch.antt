-- ===== src/Tasknotes/Reconcile/Batch.antt =====
-- The batches of a bootstrap (`_batch_reconcile_transitions` in scripts/tasknotes_mcp_core.py).
-- A transition is of any type with a `target_relative`.
use josemar_assistente.Base.{
  ℕ, zero, suc, ◌-◌, String, Bool, false, none, some, List, [], ◌∷◌, ◌++◌, length, ltb,
  if◌then◌else◌,
}
use josemar_assistente.Base.Dict.{Dict, lookup, insert}

-- `MAX_DAILY_PROJECTION_TARGETS`
abbrev pub max_daily_projection_targets : ℕ
max_daily_projection_targets = 16

-- The three variables of the function.
pub record Batching (T : Type 0) : Type 0 where
  pub batches : List (List T)
  pub targets_per_batch : List ℕ
  pub batch_of_target : Dict ℕ

-- `counts[-1] < MAX_DAILY_PROJECTION_TARGETS` of a list that is not empty
unfoldable pub last_has_room : List ℕ → Bool
last_has_room [] = false
last_has_room (n ∷ []) = ltb n max_daily_projection_targets
last_has_room (n ∷ m ∷ counts) = last_has_room (m ∷ counts)

-- `counts[index] += 1`; an index that is out of range does not occur.
unfoldable pub count_target : ℕ → List ℕ → List ℕ
count_target index [] = []
count_target zero (n ∷ counts) = suc n ∷ counts
count_target (suc index) (n ∷ counts) = n ∷ count_target index counts

module _ {T : Type 0} where
  -- `batches[index].append(transition)`; an index that is out of range does not occur.
  unfoldable pub append_to : ℕ → T → List (List T) → List (List T)
  append_to index transition [] = []
  append_to zero transition (batch ∷ batches) = (batch ++ transition ∷ []) ∷ batches
  append_to (suc index) transition (batch ∷ batches) = batch ∷ append_to index transition batches

  -- A new batch, unless the last one has room.
  unfoldable pub with_room : Batching T → Batching T
  with_room b = if last_has_room b.targets_per_batch then b else record b {
    batches = b.batches ++ [] ∷ [];
    targets_per_batch = b.targets_per_batch ++ 0 ∷ [];
  }

  -- The target's batch is the last one.
  unfoldable pub claim_batch : String → Batching T → Batching T
  claim_batch target b = record b {
    batch_of_target = insert target (length b.batches - 1) b.batch_of_target;
    targets_per_batch = count_target (length b.batches - 1) b.targets_per_batch;
  }

  unfoldable pub place_target : String → Batching T → ℕ × Batching T
  place_target target b = elim (lookup target b.batch_of_target) [
    | some index ↦ (index, b)
    | none ↦ (length (with_room b).batches - 1, claim_batch target (with_room b))
  ]

  unfoldable pub put_transition : ℕ × Batching T → T → Batching T
  put_transition r transition = record r.1 { batches = append_to r.0 transition r.1.batches }

  unfoldable pub batch_from : (T → String) → List T → Batching T → Batching T
  batch_from target_relative [] b = b
  batch_from target_relative (transition ∷ transitions) b =
      batch_from target_relative transitions
        (put_transition (place_target (target_relative transition) b) transition)

  unfoldable pub batch_reconcile_transitions : (T → String) → List T → List (List T)
  batch_reconcile_transitions target_relative transitions =
      (batch_from target_relative transitions
        (record { batches = []; targets_per_batch = []; batch_of_target = [] })).batches
