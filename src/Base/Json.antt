-- ===== src/Base/Json.antt =====
-- JSON values, as the request bodies and the JSONB columns hold them (`dict[str, object]`).
use tradeschool.Base.{Bool, String}
use tradeschool.Base.Dict.{Dict}

mutual
  -- A number is kept by its text: no code that is modelled computes with it.
  pub data Json : Type 0 where
    null : Json
    bool : Bool → Json
    num : String → Json
    str : String → Json
    arr : Items → Json
    obj : Fields → Json

  pub data Items : Type 0 where
    nil : Items
    cons : Json → Items → Items

  pub data Fields : Type 0 where
    end : Fields
    field : String → Json → Fields → Fields

-- A dictionary with text keys and JSON values, in insertion order.
abbrev pub Object : Type 0
Object = Dict Json
