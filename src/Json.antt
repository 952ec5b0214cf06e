-- ===== src/Json.antt =====
-- JSON values: the form in which a result is stored.
use idempotency.Base.{Bool, Option, none, some, ite, Text, text_eq}

mutual
  pub data Json : Type 0 where
    null : Json
    boolean : Bool → Json
    -- `String(n)`.
    number : Text → Json
    string : Text → Json
    array : JsonItems → Json
    object : JsonFields → Json

  pub data JsonItems : Type 0 where
    nil : JsonItems
    item : Json → JsonItems → JsonItems

  pub data JsonFields : Type 0 where
    no_field : JsonFields
    field : Text → Json → JsonFields → JsonFields

-- `object[key]`.
unfoldable pub lookup : Text → JsonFields → Option Json
lookup key JsonFields.no_field = none
lookup key (JsonFields.field k v fs) = ite (text_eq k key) (some v) (lookup key fs)

unfoldable pub append_fields : JsonFields → JsonFields → JsonFields
append_fields JsonFields.no_field gs = gs
append_fields (JsonFields.field k v fs) gs = JsonFields.field k v (append_fields fs gs)
