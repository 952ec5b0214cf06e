-- ===== src/Contexts/Picking.antt =====
-- `pick` of lib/contexts/context.adapter.ts: a nested property of a payload or of arguments.
use idempotency.Base.{
  Bool, true, false, List, [], ◌∷◌, Option, none, some, if◌then◌else◌, ite, Text, text_eq,
}
use idempotency.Value.{Value, Fields}
use idempotency.Encryption.{split_dots}
use idempotency.Contexts.{Host}

abbrev pub is_object : Value → Bool
is_object Value.undefined = false
is_object Value.null = false
is_object Value.symbol = false
is_object Value.function = false
is_object (Value.boolean b) = false
is_object (Value.number n) = false
is_object (Value.bigint s) = false
is_object (Value.string s) = false
is_object v = true

unfoldable pub own_value : Text → Fields → Option Value
own_value key Fields.no_field = none
own_value key (Fields.field k v fs) = ite (text_eq k key) (some v) (own_value key fs)

abbrev pub or_value : Option Value → Value → Value
or_value none w = w
or_value (some v) w = v

module _ (host : Host) where
  -- `cur[part]`.
  unfoldable pub property : Value → Text → Value
  unfolding own_value
  property (Value.object fs) key =
      or_value (own_value key fs) (host.inherited (Value.object fs) key)
  property (Value.instance_of fs hidden protos) key =
      or_value (own_value key fs) (host.inherited (Value.instance_of fs hidden protos) key)
  property (Value.with_to_json result itself) key = property itself key
  property v key = host.inherited v key

  -- `pick`, from the path's parts.
  unfoldable pub pick_parts : Value → List Text → Value
  unfolding property
  pick_parts v [] = v
  pick_parts v (part ∷ parts) =
      let rest = pick_parts (property v part) parts in if is_object v then rest else Value.undefined

  unfoldable pub pick : Value → (path : Text) → Value
  unfolding pick_parts split_dots
  pick v path = pick_parts v (split_dots path)
