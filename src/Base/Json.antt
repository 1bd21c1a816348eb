-- ===== src/Base/Json.antt =====
-- The values of `json.loads`. `F` stands for the floats, of which the clients assume what they use.
use Prim.Native.String.{String}
use mathlib.Core.Bool.{Bool}
use mathlib.Core.Option.{Option, none, some}
use text.Mathlib.Text.{◌==◌ as str_eq}
use ashacky.Base.Errors.{Result, ok, err, key_error}
use ashacky.Base.Tests.{if◌then◌else◌}
use ashacky.Base.Int.{ℤ}

mutual
  pub data Json (F : Type 0) : Type 0 where
    null : Json F
    bool : Bool → Json F
    int : ℤ → Json F
    float : F → Json F
    str : String → Json F
    arr : Items F → Json F
    obj : Fields F → Json F

  pub data Items (F : Type 0) : Type 0 where
    nil : Items F
    cons : Json F → Items F → Items F

  pub data Fields (F : Type 0) : Type 0 where
    end : Fields F
    field : String → Json F → Fields F → Fields F

module _ {F : Type 0} where
  -- `value.get(key)` on a dict, `none` for a missing key
  abbrev pub get : String → Fields F → Option (Json F)
  get k end = none
  get k (field j v fs) = let rest = get k fs in if str_eq j k then some v else rest

  -- `value[key]`
  unfoldable pub item : String → Fields F → Result (Json F)
  item k fs = elim (get k fs) [ none ↦ err key_error | some v ↦ ok v ]
