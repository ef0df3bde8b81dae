-- ===== src/Prelude/Values.antt =====
-- The values that a `dict[str, Any]` of the program holds once it is JSON.
use Prim.Native.String.{String}
use mathlib.Core.Bool.{Bool}
use hydra_mind.Prelude.Int.{ℤ}

mutual
  pub data Json : Type 0 where
    null : Json
    bool : Bool → Json
    num : ℤ → Json
    str : String → Json
    arr : Items → Json
    obj : Fields → Json

  pub data Items : Type 0 where
    nil : Items
    cons : Json → Items → Items

  pub data Fields : Type 0 where
    end : Fields
    field : String → Json → Fields → Fields
