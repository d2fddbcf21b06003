-- ===== src/AstSerial/Value.antt =====
-- The values that compiler/ast_serial.py's `AstDeserializer` returns: a node is a dict from field
-- names to values, in the order in which the fields are set.
use nathra.Common.{ℕ, String, Bool, ℤ}
use nathra.Wire.Utf8.{PyStr}

mutual
  pub data Value : Type 0 where
    none_value ellipsis : Value
    int : ℤ → Value
    float : ℕ → Value
    str : PyStr → Value
    bool : Bool → Value
    -- the pair ("op", tag)
    op : ℕ → Value
    list : Values → Value
    node : Fields → Value

  pub data Values : Type 0 where
    nil : Values
    cons : Value → Values → Values

  pub data Fields : Type 0 where
    end : Fields
    field : String → Value → Fields → Fields
