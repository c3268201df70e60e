-- ===== src/Tasknotes/Engine/Effects.antt =====
-- Code that works on the world, may raise, and leaves a record of the decisive answers: the form of
-- the methods of `TaskNotesEngine` (scripts/tasknotes_mcp_core.py). The record is the model's own:
-- the source keeps none.
use josemar_assistente.Base.{Bool, true, false, List, [], ◌∷◌, ◌++◌}
use josemar_assistente.Base.Result.{Result, ok, err}
use Prim.Native.String.{String}

-- `CoreError` and its subclasses, and any exception that is none of them
pub data EngineError : Type 0 where
  core_error profile_incompatible path_error git_error gbrain_error page_not_found recovery_required
        validation_error :
      String → EngineError
  other_error : String → EngineError

-- `except CoreError`
abbrev pub is_core_error : EngineError → Bool
is_core_error (other_error s) = false
is_core_error e = true

-- What the answers of the services have shown, and what has been tried. A guard: the target is clean,
-- the profile and the source are still the same, there is no file, there is no page. A mutation: the
-- capture has been started; the tag has been taken off; gbrain and the disk have been found to agree,
-- on what is expected; the file is committed; it is clean after that; the full synchronisation has
-- run; the writing of the recovery marker has been tried. The daily notes: one has been written, these
-- have been committed, and synchronised. A deletion: the page has been deleted, the file removed, and
-- gbrain has said that the page is not there.
pub data Event : Type 0 where
  target_clean profile_same file_absent page_absent : Event
  captured untagged verified committed clean synced_full marker_tried : Event
  note_written : String → Event
  notes_committed : List String → Event
  notes_synced : Event
  page_deleted file_removed page_gone : Event

-- The world, and the events so far, the last one first
abbrev pub EngineState : Type 0 → Type 0
EngineState W = W × List Event

abbrev pub M : Type 0 → Type 0 → Type 0
M W A = EngineState W → Result EngineError A × EngineState W

module _ {W A : Type 0} where
  unfoldable pub pure : A → M W A
  pure a s = (ok a, s)

  unfoldable pub raise : EngineError → M W A
  raise e s = (err e, s)

  unfoldable pub lift : Result EngineError A → M W A
  lift r s = (r, s)

  -- A call of a service, which answers or raises, and may change the world
  abbrev pub with_log : List Event → Result EngineError A × W → Result EngineError A × EngineState W
  with_log log (r, w) = (r, (w, log))

  unfoldable pub call : (W → Result EngineError A × W) → M W A
  call f s = with_log s.1 (f s.0)

-- The events that an answer shows: one where there is a result, where there is any answer, where the
-- answer is true or false, and where it is that there is no page.
abbrev pub on_ok : {X A : Type 0} → Event → X → Result EngineError A → List Event
on_ok event x (ok a) = event ∷ []
on_ok event x (err e) = []

abbrev pub tried : {X A : Type 0} → Event → X → Result EngineError A → List Event
tried event x r = event ∷ []

abbrev pub if_true : {X : Type 0} → Event → X → Result EngineError Bool → List Event
if_true event x (ok true) = event ∷ []
if_true event x (ok false) = []
if_true event x (err e) = []

abbrev pub if_false : {X : Type 0} → Event → X → Result EngineError Bool → List Event
if_false event x (ok true) = []
if_false event x (ok false) = event ∷ []
if_false event x (err e) = []

abbrev pub if_absent : {X A : Type 0} → Event → X → Result EngineError A → List Event
if_absent event x (err (page_not_found s)) = event ∷ []
if_absent event x (err e) = []
if_absent event x (ok a) = []

-- The call of a service with the argument `x`, recorded by its answer
unfoldable pub observe :
    {W X A : Type 0}
    → (X → Result EngineError A → List Event)
    → (X → W → Result EngineError A × W)
    → X
    → M W A
observe events f x s = ((f x s.0).0, ((f x s.0).1, events x (f x s.0).0 ++ s.1))

module _ {W A B : Type 0} where
  unfoldable pub continue :
      (A → M W B) → Result EngineError A × EngineState W → Result EngineError B × EngineState W
  continue f (ok a, s) = f a s
  continue f (err e, s) = (err e, s)

  -- `try: m` followed by `f`, with `handler` for what `m` raises
  unfoldable pub resume :
      (EngineError → M W B)
      → (A → M W B)
      → Result EngineError A × EngineState W
      → Result EngineError B × EngineState W
  resume handler f (ok a, s) = f a s
  resume handler f (err e, s) = handler e s

  unfoldable pub attempt : M W A → (EngineError → M W B) → (A → M W B) → M W B
  attempt m handler f s = resume handler f (m s)

infixl 5 ◌>>=◌ ◌>>◌
unfoldable pub ◌>>=◌ : {W A B : Type 0} → M W A → (A → M W B) → M W B
◌>>=◌ m f s = continue f (m s)

module _ {W : Type 0} where
  -- The event where the test holds
  unfoldable pub note_if : Bool → Event → M W (Unit {0})
  note_if true event s = (ok tt, (s.0, event ∷ s.1))
  note_if false event s = (ok tt, s)

  unfoldable pub guard : Bool → EngineError → M W (Unit {0})
  guard true e s = (ok tt, s)
  guard false e s = (err e, s)

abbrev pub ◌>>◌ : {W A B : Type 0} → M W A → M W B → M W B
m >> k = m >>= λ _. k
