-- ===== src/Base/Fields.antt =====
-- A mapping of a JSON value, as a dictionary in insertion order, and `==` on values.
use Prim.Native.Nat.{ℕ, suc}
use Prim.Native.String.{String}
use mathlib.Core.Path.{◌≡◌, refl}
use mathlib.Core.Bool.{Bool, true, false, ◌&&◌}
use mathlib.Core.Option.{Option, none, some}
use native.Mathlib.Omega.{arith}
use text.Mathlib.Text.{◌==◌ as str_eq}
use text.Mathlib.TextEquality.{eq_iff}
use josemar_assistente.Base.Tests.{if◌then◌else◌, ◌==◌}
use josemar_assistente.Base.Json.{
  Json, null, bool, num, str, arr, obj, Items, nil, cons, Fields, end, field,
}

-- `d.get(key)`, and `d[key]` where the key is there
unfoldable pub get : String → Fields → Option Json
get key end = none
get key (field k v fs) = if str_eq k key then some v else get key fs

-- `d[key] = value`
unfoldable pub put : String → Json → Fields → Fields
put key value end = field key value end
put key value (field k v fs) =
    let later = put key value fs in if str_eq k key then field key value fs else field k v later

-- `del d[key]` of a key that is there, or nothing
unfoldable pub delete : String → Fields → Fields
delete key end = end
delete key (field k v fs) =
    let later = delete key fs in if str_eq k key then later else field k v later

-- `key in d`
abbrev pub is_there : Option Json → Bool
is_there none = false
is_there (some value) = true

abbrev pub has_key : String → Fields → Bool
has_key key fs = is_there (get key fs)

abbrev pub size_fields : Fields → ℕ
size_fields end = 0
size_fields (field k v fs) = suc (size_fields fs)

abbrev pub of_bool : Bool → ℕ
of_bool true = 1
of_bool false = 0

-- `a == b`: a Boolean equals its number, and the order of a mapping's keys does not count.
unfoldable mutual
  pub same : Json → Json → Bool
  same null null = true
  same (bool a) (bool b) = of_bool a == of_bool b
  same (bool a) (num n) = of_bool a == n
  same (num m) (bool b) = m == of_bool b
  same (num m) (num n) = m == n
  same (str s) (str t) = str_eq s t
  same (arr xs) (arr ys) = same_items xs ys
  same (obj fs) (obj gs) = size_fields fs == size_fields gs && same_fields fs gs
  same _ _ = false

  pub same_items : Items → Items → Bool
  same_items nil nil = true
  same_items (cons x xs) (cons y ys) = same x y && same_items xs ys
  same_items _ _ = false

  pub same_fields : Fields → Fields → Bool
  same_fields end gs = true
  same_fields (field k v fs) gs =
      elim (get k gs) [ none ↦ false | some w ↦ same v w ] && same_fields fs gs

pub get-put :
    (key other : String) (value : Json) (fs : Fields)
    → get other (put key value fs) ≡ (if str_eq key other then some value else get other fs)
unfolding get put
get-put key other value end = refl
get-put key other value (field k v fs) =
    ground (arith, get-put key other value fs, eq_iff k key, eq_iff k other, eq_iff key other)

pub get-delete :
    (key other : String) (fs : Fields)
    → get other (delete key fs) ≡ (if str_eq key other then none else get other fs)
unfolding get delete
get-delete key other end = ground arith
get-delete key other (field k v fs) =
    ground (arith, get-delete key other fs, eq_iff k key, eq_iff k other, eq_iff key other)

pub put_self :
    (key : String) (value : Json) (fs : Fields) → get key fs ≡ some value → put key value fs ≡ fs
unfolding get put
put_self key value end e = ground arith
put_self key value (field k v fs) e = ground (arith, put_self key value fs, eq_iff k key)

pub ruleset field_laws = (get-put, get-delete)
