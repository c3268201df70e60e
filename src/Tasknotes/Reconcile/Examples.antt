-- ===== src/Tasknotes/Reconcile/Examples.antt =====
-- The reconciliation on small inputs (scripts/tasknotes_mcp_core.py).
use josemar_assistente.Base.{
  ℕ, String, ◌≡◌, ◌⊎◌, true, false, none, some, List, [], ◌∷◌, if◌then◌else◌, ◌==◌,
}
use josemar_assistente.Tasknotes.Reconcile.Net.{TaskState, classify_reconcile_net_change}
use josemar_assistente.Tasknotes.Reconcile.Links.{
  link, has, links_after, classify_reconcile_net_change-relinks,
}
use josemar_assistente.Tasknotes.Reconcile.Batch.{batch_reconcile_transitions}
use josemar_assistente.Tasknotes.Reconcile.Places.{nth}
use josemar_assistente.Tasknotes.Reconcile.Targets.{of_target, batch_reconcile_transitions-together}

abbrev monday : TaskState
monday = record {
  slug = "call-the-bank";
  present = true;
  is_task = true;
  location = some "tasks";
  scheduled = some "2026-03-02";
  archived = false;
}

abbrev tuesday : TaskState
tuesday = record monday { scheduled = some "2026-03-03" }

abbrev archived_monday : TaskState
archived_monday = record monday { location = some "archive"; archived = true }

classify_reconcile_net_change-relinks_example :
    ((date : String)
      → links_after
          (classify_reconcile_net_change (some monday) (some tuesday))
          (link (some monday))
          date
        ≡ has (link (some tuesday)) date)
    × (((classify_reconcile_net_change (some monday) (some tuesday)).remove_date ≡ none)
        ⊎ ((classify_reconcile_net_change (some monday) (some tuesday)).remove_date
            ≡ link (some monday)))
classify_reconcile_net_change-relinks_example =
    classify_reconcile_net_change-relinks (some monday) (some tuesday)

abbrev two_notes : List (String × String)
two_notes =
    ("daily/2026-03-02.md", "call-the-bank")
    ∷ ("daily/2026-03-03.md", "water-plants")
    ∷ ("daily/2026-03-02.md", "send-letter")
    ∷ []

batch_reconcile_transitions-together_example :
    (i : ℕ) × ((j : ℕ)
      → of_target
          (λ t. t.0)
          "daily/2026-03-02.md"
          (nth j (batch_reconcile_transitions (λ t. t.0) two_notes))
        ≡ (if j == i then of_target (λ t. t.0) "daily/2026-03-02.md" two_notes else []))
batch_reconcile_transitions-together_example =
    batch_reconcile_transitions-together (λ t. t.0) two_notes "daily/2026-03-02.md"
