-- ===== src/Base/Dict.antt =====
-- Python's `dict` with string keys, in insertion order: an association list. A new value for a
-- key takes the place of the old one.
use Prim.Native.String.{String}
use mathlib.Core.Path.{◌≡◌, refl}
use mathlib.Core.List.{List, [], ◌∷◌}
use mathlib.Core.Option.{Option, none, some}
use native.Mathlib.Omega.{arith}
use text.Mathlib.Text.{◌==◌ as str_eq}
use text.Mathlib.TextEquality.{eq_iff}
use josemar_assistente.Base.Tests.{if◌then◌else◌}

abbrev pub Dict {ℓ} : Type ℓ → Type ℓ
Dict V = List (String × V)

module _ {ℓ} {V : Type ℓ} where
  -- `d.get(key)`
  unfoldable pub lookup : String → Dict V → Option V
  lookup key [] = none
  lookup key (entry ∷ rest) = if str_eq entry.0 key then some entry.1 else lookup key rest

  -- `d[key] = value`
  unfoldable pub insert : String → V → Dict V → Dict V
  insert key value [] = (key, value) ∷ []
  insert key value (entry ∷ rest) =
      let later = insert key value rest in
      if str_eq entry.0 key then (key, value) ∷ rest else entry ∷ later

  -- `d.pop(key, None)`
  unfoldable pub remove : String → Dict V → Dict V
  remove key [] = []
  remove key (entry ∷ rest) =
      let later = remove key rest in if str_eq entry.0 key then later else entry ∷ later

  -- `list(d)`
  unfoldable pub keys : Dict V → List String
  keys [] = []
  keys (entry ∷ rest) = entry.0 ∷ keys rest

  pub lookup-insert :
      (key other : String) (value : V) (d : Dict V)
      → lookup other (insert key value d)
        ≡ (if str_eq key other then some value else lookup other d)
  unfolding lookup insert
  lookup-insert key other value [] = refl
  lookup-insert key other value (entry ∷ rest) = ground (
    arith,
    lookup-insert key other value rest,
    eq_iff entry.0 other,
    eq_iff entry.0 key,
    eq_iff key other,
  )

  pub lookup-remove :
      (key other : String) (d : Dict V)
      → lookup other (remove key d) ≡ (if str_eq key other then none else lookup other d)
  unfolding lookup remove
  lookup-remove key other [] = ground arith
  lookup-remove key other (entry ∷ rest) = ground (
    arith,
    lookup-remove key other rest,
    eq_iff entry.0 other,
    eq_iff entry.0 key,
    eq_iff key other,
  )

pub ruleset dict_laws = (lookup-insert, lookup-remove)
