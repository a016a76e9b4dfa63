-- ===== src/Base/JsonValues.antt =====
-- JSON-shaped Python values. A list of values and the items of a dict are types of the block.
use mathlib.Core.Bool.{Bool}
use mathlib.Core.Option.{Option, none, some}
use revenue_recovery_voice_a.Base.Tests.{if◌then◌else◌}
use revenue_recovery_voice_a.Base.Texts.{Text, text_eq}
use revenue_recovery_voice_a.Base.Int.{ℤ}

mutual
  pub data Json : Type 0 where
    null : Json
    bool : Bool → Json
    num : ℤ → Json
    str : Text → Json
    arr : Items → Json
    obj : Fields → Json

  pub data Items : Type 0 where
    nil : Items
    cons : Json → Items → Items

  pub data Fields : Type 0 where
    end : Fields
    field : Text → Json → Fields → Fields

-- `.get(key)` of a dict
unfoldable pub get_field : Text → Fields → Option Json
get_field k end = none
get_field k (field j v fs) = if text_eq k j then some v else get_field k fs
