-- ===== src/Tasknotes/Engine/Reported.antt =====
-- What the report on the daily notes says of the events (`_run_daily_link_projection` of
-- `TaskNotesEngine`, scripts/tasknotes_mcp_core.py).
use josemar_assistente.Base.{
  String, Bool, true, false, not, ◌&&◌, ◌||◌, str_eq, eq_iff, Option, none, some, List, [], ◌∷◌,
  ◌++◌, ◌≡◌, refl, ap, ◌∙◌, if◌then◌else◌, arith,
}
use josemar_assistente.Base.Result.{ok, err}
use josemar_assistente.Tasknotes.Reconcile.Compose.{DailyNotesConfig}
use josemar_assistente.Tasknotes.Engine.Effects.{
  EngineError, Event, is_core_error, note_written, notes_committed, notes_synced, M, raise,
}
use josemar_assistente.Tasknotes.Engine.Marks.{
  Account, Ends, attempt-Ends, pure-Ends, raise-Ends, then-Ends,
}
use josemar_assistente.Tasknotes.Engine.Observed.{on_ok-Marks, observe-attempt-Ends}
use josemar_assistente.Tasknotes.Engine.Services.{
  TaskNotesProfile, DailyLinkState, link_applied, link_sync_failed, link_conflict,
  link_write_failed, link_commit_failed, link_not_applied, Services,
}
use josemar_assistente.Tasknotes.Engine.Links.{
  LinkReport, Applied, late_report, unchanged_report, synced_report, on_core_error,
  apply_projections, sync_notes, publish_notes, run_daily_link_projection,
}
use josemar_assistente.Tasknotes.Engine.Linked.{apply_one-Ends, next_projection-Ends}

-- The same texts, in the same order
abbrev texts_eq : List String → List String → Bool
texts_eq [] [] = true
texts_eq [] (y ∷ ys) = false
texts_eq (x ∷ xs) [] = false
texts_eq (x ∷ xs) (y ∷ ys) = str_eq x y && texts_eq xs ys

abbrev is_filled : List String → Bool
is_filled [] = false
is_filled (x ∷ xs) = true

-- The targets that have been written, in order
abbrev targets : List Event → List String
targets [] = []
targets (note_written target ∷ log) = targets log ++ target ∷ []
targets (event ∷ log) = targets log

abbrev all_notes : List Event → Bool
all_notes [] = true
all_notes (note_written target ∷ log) = all_notes log
all_notes (event ∷ log) = false

-- Just these daily notes have been written, in this order, and nothing else has happened.
abbrev pub is_written : List String → List Event → Bool
is_written changed log = all_notes log && texts_eq changed (targets log)

-- Some daily notes have been written, then exactly these committed, then synchronised.
abbrev pub are_written : List Event → Bool
are_written log = all_notes log && is_filled (targets log)

abbrev pub are_committed : List Event → Bool
are_committed (notes_committed changed ∷ log) = is_written changed log && is_filled changed
are_committed log = false

abbrev pub are_synced : List Event → Bool
are_synced (notes_synced ∷ log) = are_committed log
are_synced log = false

-- A projection that failed: nothing has been written, or all that was is synchronised.
abbrev pub is_failed : List Event → Bool
is_failed log = is_written [] log || are_synced log

-- What a state of the report says
abbrev pub reports : DailyLinkState → List Event → Bool
reports link_applied log = are_synced log
reports link_sync_failed log = are_committed log
reports link_commit_failed log = are_written log
reports link_write_failed log = is_failed log
reports link_conflict log = is_failed log
reports link_not_applied log = is_written [] log
reports state log = false

abbrev pub reported : Account LinkReport
reported (ok links) log = reports links.link_state log
reported (err e) log = not (is_core_error e)

-- The failure of the loop over the projections
abbrev is_loop_failure : Option DailyLinkState → Bool
is_loop_failure none = true
is_loop_failure (some link_write_failed) = true
is_loop_failure (some link_conflict) = true
is_loop_failure failure = false

abbrev loop_account : Account Applied
loop_account (ok changes) log = is_written changes.0 log && is_loop_failure changes.1
loop_account (err e) log = not (is_core_error e)

and-both : (a b : Bool) → (a && b) ≡ true → (a ≡ true) × (b ≡ true)
and-both true true e = (refl, refl)
and-both true false e = grind arith
and-both false b e = grind arith

both-and : {a b : Bool} → a ≡ true → b ≡ true → (a && b) ≡ true
both-and {a} {b} e f = ap (λ x. x && b) e ∙ f

texts_eq-filled :
    (x : String) (xs ys : List String) → texts_eq (x ∷ xs) ys ≡ true → is_filled ys ≡ true
texts_eq-filled x xs [] h = grind arith
texts_eq-filled x xs (y ∷ ys) h = refl

texts_eq-append_one :
    (x : String) (xs ys : List String)
    → texts_eq xs ys ≡ true
    → texts_eq (xs ++ x ∷ []) (ys ++ x ∷ []) ≡ true
texts_eq-append_one x [] [] h = ap (λ b. b && true) ((eq_iff x x).1 refl)
texts_eq-append_one x [] (z ∷ ys) h = grind arith
texts_eq-append_one x (y ∷ xs) [] h = grind arith
texts_eq-append_one x (y ∷ xs) (z ∷ ys) h =
    both-and (and-both _ _ h).0 (texts_eq-append_one x xs ys (and-both _ _ h).1)

some_written :
    (t : String) (ts : List String) (log : List Event)
    → is_written (t ∷ ts) log ≡ true
    → are_written log ≡ true
some_written t ts log h =
    both-and (and-both _ _ h).0 (texts_eq-filled t ts (targets log) (and-both _ _ h).1)

written-append_one :
    (target : String) (changed : List String) (log : List Event)
    → is_written changed log ≡ true
    → is_written (changed ++ target ∷ []) (note_written target ∷ log) ≡ true
written-append_one target changed log h =
    both-and (and-both _ _ h).0
      (texts_eq-append_one target changed (targets log) (and-both _ _ h).1)

late_report-state :
    (state : DailyLinkState) (partial : String) (failure : Option DailyLinkState)
    (dates : List String)
    → (late_report state partial failure dates).link_state ≡ state
late_report-state state partial none dates = refl
late_report-state state partial (some failure) dates = refl

late_report-reports :
    (state : DailyLinkState) (partial : String) (failure : Option DailyLinkState)
    (dates : List String) (log : List Event)
    → reports state log ≡ true
    → reports (late_report state partial failure dates).link_state log ≡ true
late_report-reports state partial failure dates log h =
    ap (λ s. reports s log) (late_report-state state partial failure dates) ∙ h

or_left : {a : Bool} (b : Bool) → a ≡ true → (a || b) ≡ true
or_left b e = ap (λ a. a || b) e

unchanged_report-reports :
    (failure : Option DailyLinkState) (dates : List String) (log : List Event)
    → is_written [] log ≡ true
    → is_loop_failure failure ≡ true
    → reports (unchanged_report failure dates).link_state log ≡ true
unchanged_report-reports none dates log h f = h
unchanged_report-reports (some link_write_failed) dates log h f = or_left _ h
unchanged_report-reports (some link_conflict) dates log h f = or_left _ h
unchanged_report-reports failure dates log h f = ground arith

synced_report-reports :
    (failure : Option DailyLinkState) (dates changed : List String) (log : List Event)
    → are_committed (notes_committed changed ∷ log) ≡ true
    → is_loop_failure failure ≡ true
    → reports
        (synced_report failure dates).link_state
        (notes_synced ∷ notes_committed changed ∷ log)
      ≡ true
synced_report-reports none dates changed log h f = h
synced_report-reports (some link_write_failed) dates changed log h f = h
synced_report-reports (some link_conflict) dates changed log h f = h
synced_report-reports failure dates changed log h f = ground arith

module _ {W A : Type 0} {test : Account A} {log : List Event} where
  core_error-Ends :
      (m : M W A) (e : EngineError)
      → Ends test log m
      → (is_core_error e ≡ false → test (err e) log ≡ true)
      → Ends test log (on_core_error m e)
  core_error-Ends m e hm he = by_kind (is_core_error e) he
    where
      by_kind :
          (b : Bool)
          → (b ≡ false → test (err e) log ≡ true)
          → Ends test log (if b then m else raise e)
      by_kind true h = hm
      by_kind false h = raise-Ends e (h refl)

module _ {W Document Plan Projection : Type 0} (services : Services W Document Plan Projection)
    (profile : TaskNotesProfile) where
  loop-Ends :
      (config : DailyNotesConfig) (ps : List Projection) (changed : List String) (log : List Event)
      → is_written changed log ≡ true
      → Ends loop_account log (apply_projections services profile config ps changed)
  unfolding apply_projections
  loop-Ends config [] changed log h = pure-Ends _ (both-and h refl)
  loop-Ends config (p ∷ ps) changed log h =
      apply_one-Ends services profile log config p
        (λ e. core_error-Ends _ e (pure-Ends _ (both-and h refl)) (ap not))
        (λ outcome.
          next_projection-Ends services profile p outcome
            (loop-Ends config ps _ (note_written (services.projection_target p) ∷ log)
              (written-append_one _ changed log h))
            (loop-Ends config ps changed log h) (pure-Ends _ (both-and h refl)))

  sync-Ends :
      (failure : Option DailyLinkState) (dates changed : List String) (log : List Event)
      → are_committed (notes_committed changed ∷ log) ≡ true
      → is_loop_failure failure ≡ true
      → Ends reported (notes_committed changed ∷ log) (sync_notes services profile failure dates)
  unfolding sync_notes
  sync-Ends failure dates changed log h f =
      attempt-Ends (on_ok-Marks notes_synced _ _)
        (λ e.
          core_error-Ends _ e
            (pure-Ends _ (
              late_report-reports link_sync_failed _ failure dates (notes_committed changed ∷ log)
                h))
            (ap not))
        (λ u. pure-Ends _ (synced_report-reports failure dates changed log h f))

  publish-Ends :
      (dates : List String) (changes : Applied) (log : List Event)
      → is_written changes.0 log ≡ true
      → is_loop_failure changes.1 ≡ true
      → Ends reported log (publish_notes services profile dates changes)
  unfolding publish_notes
  publish-Ends dates ([], failure) log h f =
      pure-Ends _ (unchanged_report-reports failure dates log h f)
  publish-Ends dates (t ∷ ts, failure) log h f =
      observe-attempt-Ends _ _ _ _
        (λ e.
          core_error-Ends _ e
            (pure-Ends _ (
              late_report-reports link_commit_failed _ failure dates log (some_written t ts log h)))
            (ap not))
        (λ u. sync-Ends failure dates (t ∷ ts) log (both-and h refl) f)

  run-Ends :
      (config : DailyNotesConfig) (ps : List Projection)
      → Ends reported [] (run_daily_link_projection services profile config ps)
  unfolding run_daily_link_projection
  run-Ends config ps =
      then-Ends (loop-Ends config ps [] [] refl) (λ e l h. h)
        (λ changes l h. publish-Ends _ changes l (and-both _ _ h).0 (and-both _ _ h).1)

  -- Whatever the services answer, the report on the daily notes fits what has happened to them:
  -- `applied_and_committed` where at least one note has been written, exactly the written ones have
  -- been given to the commit, in order, which has succeeded, and the synchronisation has succeeded
  -- after that; `committed_sync_failed` where that is all but the synchronisation; `commit_failed`
  -- where notes have been written and nothing has succeeded after that; `not_applied` where no note
  -- has been written; `conflict` and `write_failed` where none has been written or all that were are
  -- committed and synchronised. No `CoreError` is ever raised.
  pub run_daily_link_projection-reported :
      (config : DailyNotesConfig) (projections : List Projection) (w : W)
      → reported
          (run_daily_link_projection services profile config projections (w, [])).0
          (run_daily_link_projection services profile config projections (w, [])).1.1
        ≡ true
  run_daily_link_projection-reported config projections w = (run-Ends config projections).end_of w
