-- ===== src/Vault/Install/Plan.antt =====
-- The order that `_per_entry_swap` (scripts/vault_recovery_restore_core.py) works in, from the two
-- listings, and the entries as each job finds them.
use josemar_assistente.Base.{
  String, ◌≡◌, refl, sym, ◌∙◌, true, false, not, Option, none, some, List, [], ◌∷◌, ◌++◌, ◌&&◌,
  ◌||◌, arith, eq_iff, contains, distinct, Bool-cases, inl, inr,
}
use josemar_assistente.Vault.Install.Disk.{Tree}
use josemar_assistente.Vault.Install.Swap.{
  Job, remove_job, swap_job, add_job, removals, swaps, additions, swap_jobs,
}
use josemar_assistente.Vault.Install.Rollback.{exists}
use josemar_assistente.Vault.Install.Loops.{busy, Ready}

busy-append :
    (name : String) (jobs later : List Job)
    → busy name (jobs ++ later) ≡ (busy name jobs || busy name later)
busy-append name [] later = refl
busy-append name (remove_job n ∷ jobs) later = ground (arith, busy-append name jobs later)
busy-append name (swap_job n ∷ jobs) later = ground (arith, busy-append name jobs later)
busy-append name (add_job n ∷ jobs) later = ground (arith, busy-append name jobs later)

busy-removals :
    (name : String) (staged names : List String)
    → busy name (removals staged names) ≡ (contains name names && not (contains name staged))
unfolding removals
busy-removals name staged [] = refl
busy-removals name staged (n ∷ names) =
    ground (arith, busy-removals name staged names, eq_iff n name)

busy-swaps :
    (name : String) (staged names : List String)
    → busy name (swaps staged names) ≡ (contains name names && contains name staged)
unfolding swaps
busy-swaps name staged [] = refl
busy-swaps name staged (n ∷ names) = ground (arith, busy-swaps name staged names, eq_iff n name)

busy-additions :
    (name : String) (live names : List String)
    → busy name (additions live names) ≡ (contains name names && not (contains name live))
unfolding additions
busy-additions name live [] = refl
busy-additions name live (n ∷ names) = ground (arith, busy-additions name live names, eq_iff n name)

module _ {C : Type 0} where
  -- The listing of a tree.
  abbrev pub Listing : List String → Tree C → Type 0
  Listing names t = (name : String) → contains name names ≡ exists (t name)

  Ready-removals :
      (staged names : List String) (later : List Job) (l b : Tree C)
      → ((name : String) → b name ≡ none)
      → distinct names ≡ true
      → ((name : String) → contains name staged ≡ false → busy name later ≡ false)
      → Ready later l b
      → Ready (removals staged names ++ later) l b
  unfolding removals
  Ready-removals staged [] later l b bare once apart ready = ready
  Ready-removals staged (n ∷ names) later l b bare once apart ready =
      let rest = Ready-removals staged names later l b bare (ground arith) apart ready in
      elim (Bool-cases (contains n staged)) [
        | inl both ↦ rw both rest
        | inr only ↦ rw only (
          bare n,
          (
            ground (
              arith,
              busy-append n (removals staged names) later,
              busy-removals n staged names,
              apart n,
            ),
            rest,
          ),
        )
      ]

  Ready-swaps :
      (staged names : List String) (later : List Job) (l b : Tree C)
      → ((name : String) → b name ≡ none)
      → ((name : String) → contains name names ≡ true → exists (l name) ≡ true)
      → distinct names ≡ true
      → ((name : String) → contains name names ≡ true → busy name later ≡ false)
      → Ready later l b
      → Ready (swaps staged names ++ later) l b
  unfolding swaps
  Ready-swaps staged [] later l b bare there once apart ready = ready
  Ready-swaps staged (n ∷ names) later l b bare there once apart ready =
      let rest =
        Ready-swaps staged names later l b bare (λ name e. there name (ground arith)) (ground arith)
          (λ name e. apart name (ground arith)) ready in
      elim (Bool-cases (contains n staged)) [
        | inl both ↦ rw both (
          (bare n, there n (ground (arith, eq_iff n n))),
          (
            ground (
              arith,
              busy-append n (swaps staged names) later,
              busy-swaps n staged names,
              apart n (ground (arith, eq_iff n n)),
            ),
            rest,
          ),
        )
        | inr only ↦ rw only rest
      ]

  Ready-additions :
      (live names : List String) (l b : Tree C)
      → ((name : String) → contains name live ≡ false → l name ≡ none)
      → distinct names ≡ true
      → Ready (additions live names) l b
  unfolding additions
  Ready-additions live [] l b gone once = tt
  Ready-additions live (n ∷ names) l b gone once =
      let rest = Ready-additions live names l b gone (ground arith) in
      elim (Bool-cases (contains n live)) [
        | inl both ↦ rw both rest
        | inr only ↦ rw only (gone n only, (ground (arith, busy-additions n live names), rest))
      ]

  exists_none : (o : Option C) → exists o ≡ false → o ≡ none
  exists_none none e = refl
  exists_none (some c) e = ground arith

  pub Ready-swap_jobs :
      (live staged : List String) (l b : Tree C)
      → Listing live l
      → distinct live ≡ true
      → distinct staged ≡ true
      → ((name : String) → b name ≡ none)
      → Ready (swap_jobs live staged) l b
  unfolding swap_jobs
  Ready-swap_jobs live staged l b listed once_live once_staged bare =
      Ready-removals staged live (swaps staged live ++ additions live staged) l b bare once_live
        (λ name e. ground (
          arith,
          busy-append name (swaps staged live) (additions live staged),
          busy-swaps name staged live,
          busy-additions name live staged,
        ))
        (Ready-swaps staged live (additions live staged) l b bare (λ name e. sym (listed name) ∙ e)
          once_live (λ name e. ground (arith, busy-additions name live staged))
          (Ready-additions live staged l b (λ name e. exists_none (l name) (sym (listed name) ∙ e))
            once_staged))
