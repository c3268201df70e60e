-- ===== src/Tasknotes/Engine/Refused.antt =====
-- The recovery marker stops every mutation (`_check_recovery_marker` and the operations of
-- `TaskNotesEngine`, scripts/tasknotes_mcp_core.py).
use josemar_assistente.Base.{String, true, not, Option, none, some, List, ◌≡◌, refl, ap, ◌∙◌}
use josemar_assistente.Base.Result.{Result, ok, err}
use josemar_assistente.Tasknotes.Engine.Effects.{
  EngineError, Event, recovery_required, EngineState, M, pure, continue, call, with_log, lift,
  guard, ◌>>=◌,
}
use josemar_assistente.Tasknotes.Engine.Services.{Texts, Services}
use josemar_assistente.Tasknotes.Engine.Prepare.{Settings, check_recovery_marker, begin}
use josemar_assistente.Tasknotes.Engine.Operations.{settled_profile}
use josemar_assistente.Tasknotes.Engine.Operations.Tags.{
  complete, archive, settled_for_tag, add_tag, remove_tag,
}
use josemar_assistente.Tasknotes.Engine.Operations.Create.{slug_for, create}
use josemar_assistente.Tasknotes.Engine.Operations.Update.{update}
use josemar_assistente.Tasknotes.Engine.Operations.Delete.{delete}
use josemar_assistente.Tasknotes.Engine.Outcomes.{
  Mutation, creation, change, completion, archiving, tagging, untagging, run,
}

-- An answer that is an error, with the world and the record as they were
abbrev pub IsRefusal :
    {W A : Type 0} → EngineState W → Result EngineError A × EngineState W → Type 0
IsRefusal s r = (e : EngineError) × (r ≡ (err e, s))

record Refuses {W A : Type 0} (w : W) (m : M W A) : Type 0 where
  pub refusal_of : (log : List Event) → IsRefusal (w, log) (m (w, log))

-- The code leaves the world and the record as they are.
record Still {W A : Type 0} (w : W) (m : M W A) : Type 0 where
  pub still_of : (log : List Event) → (m (w, log)).1 ≡ (w, log)

module _ {W A B : Type 0} {w : W} where
  refused-bind : {m : M W A} (f : A → M W B) → Refuses w m → Refuses w (m >>= f)
  unfolding ◌>>=◌ continue
  refused-bind f h = record {
    refusal_of = λ log. ((h.refusal_of log).0, ap (continue f) (h.refusal_of log).1);
  }

  continued :
      (f : A → M W B) (log : List Event) (r : Result EngineError A × EngineState W)
      → r.1 ≡ (w, log)
      → ((a : A) → Refuses w (f a))
      → IsRefusal (w, log) (continue f r)
  unfolding continue
  continued f log (ok a, s) e h = (((h a).refusal_of log).0, ap (f a) e ∙ ((h a).refusal_of log).1)
  continued f log (err x, s) e h = (x, ap (λ t. (err x, t)) e)

  Still-bind :
      {m : M W A} {f : A → M W B} → Still w m → ((a : A) → Refuses w (f a)) → Refuses w (m >>= f)
  unfolding ◌>>=◌
  Still-bind {m} {f} hm hf = record {
    refusal_of = λ log. continued f log (m (w, log)) (hm.still_of log) hf;
  }

lift-Still : {W A : Type 0} {w : W} (r : Result EngineError A) → Still w (lift r)
unfolding lift
lift-Still r = record { still_of = λ log. refl }

module _ {W Document Plan Projection : Type 0} (services : Services W Document Plan Projection)
    (texts : Texts) (settings : Settings) (w : W)
    (present : services.marker_exists w ≡ (ok true, w)) where
  check_recovery_marker-Refuses : Refuses w (check_recovery_marker services)
  unfolding check_recovery_marker ◌>>=◌ continue call guard
  check_recovery_marker-Refuses = record {
    refusal_of = λ log. (
      recovery_required "recovery marker present; mutations blocked until operator recovery",
      ap
          (λ r.
            continue
              (λ b. guard (not b) (
                recovery_required
                  "recovery marker present; mutations blocked until operator recovery"))
              (with_log log r))
          present,
    );
  }

  begin-Refuses : Refuses w (begin services)
  unfolding begin
  begin-Refuses = refused-bind _ check_recovery_marker-Refuses

  settled_profile-Refuses : Refuses w (settled_profile services texts settings)
  unfolding settled_profile
  settled_profile-Refuses = refused-bind _ begin-Refuses

  settled_for_tag-Refuses : (tag : String) → Refuses w (settled_for_tag services texts settings tag)
  unfolding settled_for_tag
  settled_for_tag-Refuses tag = refused-bind _ begin-Refuses

  -- With the recovery marker in place, `delete` raises and changes nothing.
  delete-Refuses : (slug : String) → Refuses w (delete services texts settings slug)
  unfolding delete
  delete-Refuses slug = Still-bind (lift-Still _) (λ u. refused-bind _ begin-Refuses)

  module _ (generates : (title : String) → (services.generate_slug title w).1 ≡ w) where
    slug_for-Still :
        (given : Option String) (title : String)
        → Still w (slug_for services texts settings given title)
    unfolding slug_for call pure
    slug_for-Still none title = record { still_of = λ log. ap (λ v. (v, log)) (generates title) }
    slug_for-Still (some slug) title = record { still_of = λ log. refl }

    mutation-Refuses : (mutation : Mutation) → Refuses w (run services texts settings mutation)
    unfolding create update complete archive add_tag remove_tag
    mutation-Refuses (creation given request) =
        Still-bind (slug_for-Still given request.title) (λ slug.
          Still-bind (lift-Still _)
            (λ u. Still-bind (lift-Still _) (λ checked. refused-bind _ begin-Refuses)))
    mutation-Refuses (change slug request) =
        Still-bind (lift-Still _)
          (λ u. Still-bind (lift-Still _) (λ checked. refused-bind _ begin-Refuses))
    mutation-Refuses (completion slug date) =
        Still-bind (lift-Still _)
          (λ u. Still-bind (lift-Still _) (λ day. refused-bind _ settled_profile-Refuses))
    mutation-Refuses (archiving slug) =
        Still-bind (lift-Still _) (λ u. refused-bind _ settled_profile-Refuses)
    mutation-Refuses (tagging slug tag) =
        Still-bind (lift-Still _)
          (λ u. Still-bind (lift-Still _) (λ name. refused-bind _ (settled_for_tag-Refuses name)))
    mutation-Refuses (untagging slug tag) =
        Still-bind (lift-Still _)
          (λ u. Still-bind (lift-Still _) (λ name. refused-bind _ (settled_for_tag-Refuses name)))

    -- Where the recovery marker is in place, and the look for it and the making of a slug change
    -- nothing, each mutation, deletions included, raises and leaves the world and the record as they
    -- are.
    pub marker-blocks :
        (log : List Event) (mutation : Mutation) (slug : String)
        → IsRefusal (w, log) (run services texts settings mutation (w, log))
          × IsRefusal (w, log) (delete services texts settings slug (w, log))
    marker-blocks log mutation slug =
        ((mutation-Refuses mutation).refusal_of log, (delete-Refuses slug).refusal_of log)
