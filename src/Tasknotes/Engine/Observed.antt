-- ===== src/Tasknotes/Engine/Observed.antt =====
-- Reasoning on the calls whose answers are recorded (scripts/tasknotes_mcp_core.py): what follows
-- such a call has the events of the answer, and a guard on the answer lets one of them through.
use josemar_assistente.Base.{Bool, true, false, not, List, [], ◌∷◌, ◌++◌, ◌≡◌, refl}
use josemar_assistente.Base.Result.{Result, ok, err}
use josemar_assistente.Tasknotes.Engine.Effects.{
  EngineError, Event, M, continue, resume, attempt, ◌>>=◌, ◌>>◌, guard, on_ok, if_true, if_false,
  observe,
}
use josemar_assistente.Tasknotes.Engine.Marks.{after, Marks, Account, Ends, EndsAt}

on_ok-after :
    {X A : Type 0} (event : Event) (x : X) (r : Result EngineError A) (log : List Event)
    → on_ok event x r ++ log ≡ after (event ∷ []) r log
on_ok-after event x (ok a) log = refl
on_ok-after event x (err e) log = refl

pub on_ok-Marks :
    {W X A : Type 0} (event : Event) (f : X → W → Result EngineError A × W) (x : X)
    → Marks (event ∷ []) (observe (on_ok event) f x)
unfolding observe
on_ok-Marks event f x = record { record_of = λ s. on_ok-after event x (f x s.0).0 s.1 }

-- After an observed call, the record has the events of its answer.
module _ {W X A B : Type 0} {test : Account B} (events : X → Result EngineError A → List Event)
    (f : X → W → Result EngineError A × W) (x : X) (log : List Event) where
  resume-observed :
      (h : EngineError → M W B) (k : A → M W B) (r : Result EngineError A × W)
      → ((e : EngineError) → Ends test (events x (err e) ++ log) (h e))
      → ((a : A) → Ends test (events x (ok a) ++ log) (k a))
      → EndsAt test (resume h k (r.0, (r.1, events x r.0 ++ log)))
  unfolding resume
  resume-observed h k (ok a, w) hh hk = record { at_end = (hk a).end_of w }
  resume-observed h k (err e, w) hh hk = record { at_end = (hh e).end_of w }

  pub observe-attempt-Ends :
      {h : EngineError → M W B} {k : A → M W B}
      → ((e : EngineError) → Ends test (events x (err e) ++ log) (h e))
      → ((a : A) → Ends test (events x (ok a) ++ log) (k a))
      → Ends test log (attempt (observe events f x) h k)
  unfolding attempt observe
  observe-attempt-Ends {h} {k} hh hk = record {
    end_of = λ w. (resume-observed h k (f x w) hh hk).at_end;
  }

  continue-observed :
      (k : A → M W B) (r : Result EngineError A × W)
      → ((e : EngineError) → test (err e) (events x (err e) ++ log) ≡ true)
      → ((a : A) → Ends test (events x (ok a) ++ log) (k a))
      → EndsAt test (continue k (r.0, (r.1, events x r.0 ++ log)))
  unfolding continue
  continue-observed k (ok a, w) hh hk = record { at_end = (hk a).end_of w }
  continue-observed k (err e, w) hh hk = record { at_end = hh e }

  pub observe-bind-Ends :
      {k : A → M W B}
      → ((e : EngineError) → test (err e) (events x (err e) ++ log) ≡ true)
      → ((a : A) → Ends test (events x (ok a) ++ log) (k a))
      → Ends test log (observe events f x >>= k)
  unfolding ◌>>=◌ observe
  observe-bind-Ends {k} hh hk = record { end_of = λ w. (continue-observed k (f x w) hh hk).at_end }

  pub guarded_observe-attempt-Ends :
      (b : Bool) (e : EngineError) {h : EngineError → M W B} {k : A → M W B}
      → ((e : EngineError) → Ends test log (h e))
      → ((e : EngineError) → Ends test (events x (err e) ++ log) (h e))
      → ((a : A) → Ends test (events x (ok a) ++ log) (k a))
      → Ends test log (attempt (guard b e >> observe events f x) h k)
  unfolding attempt observe guard ◌>>=◌ continue resume
  guarded_observe-attempt-Ends true e {h} {k} hg hh hk = record {
    end_of = λ w. (resume-observed h k (f x w) hh hk).at_end;
  }
  guarded_observe-attempt-Ends false e hg hh hk = record { end_of = λ w. (hg e).end_of w }

-- A guard on what an observed call has answered
module _ {W X B : Type 0} {test : Account B} {log : List Event} where
  pub if_true-Ends :
      (event : Event) (x : X) (b : Bool) (e : EngineError) {m : M W B}
      → test (err e) log ≡ true
      → Ends test (event ∷ log) m
      → Ends test (if_true event x (ok b) ++ log) (guard b e >> m)
  unfolding guard ◌>>=◌ continue
  if_true-Ends event x true e he hm = record { end_of = λ w. hm.end_of w }
  if_true-Ends event x false e he hm = record { end_of = λ w. he }

  pub if_false-Ends :
      (event : Event) (x : X) (b : Bool) (e : EngineError) {m : M W B}
      → test (err e) log ≡ true
      → Ends test (event ∷ log) m
      → Ends test (if_false event x (ok b) ++ log) (guard (not b) e >> m)
  unfolding guard ◌>>=◌ continue
  if_false-Ends event x false e he hm = record { end_of = λ w. hm.end_of w }
  if_false-Ends event x true e he hm = record { end_of = λ w. he }

pub guard-Ends :
    {W X : Type 0} {test : Account (Unit {0})} (log : List Event) (event : Event) (x : X) (b : Bool)
    (e : EngineError)
    → test (err e) log ≡ true
    → test (ok tt) (event ∷ log) ≡ true
    → Ends {W = W} test (if_true event x (ok b) ++ log) (guard b e)
unfolding guard
guard-Ends log event x true e he hm = record { end_of = λ w. hm }
guard-Ends log event x false e he hm = record { end_of = λ w. he }
