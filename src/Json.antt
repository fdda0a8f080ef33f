-- ===== src/Json.antt =====
-- `any` and `map[string]any`, as the job options and the job metadata use them
-- (internal/queue/queue.go, internal/converter/decompress.go). A float64 is its bit pattern.
use filemagic_backend.Prelude.{ℕ, Bool, Option, none, some, if◌then◌else◌, Text, eq_text}

mutual
  pub data Value : Type 0 where
    null : Value
    bool : Bool → Value
    float : ℕ → Value
    int : ℕ → Value
    str : Text → Value
    arr : Items → Value
    obj : Fields → Value

  pub data Items : Type 0 where
    nil : Items
    cons : Value → Items → Items

  pub data Fields : Type 0 where
    end : Fields
    field : Text → Value → Fields → Fields

-- `fields[key]`
unfoldable pub field_value : Text → Fields → Option Value
field_value key end = none
field_value key (field k v rest) =
    let tail = field_value key rest in if eq_text k key then some v else tail
