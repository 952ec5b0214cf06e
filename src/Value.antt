-- ===== src/Value.antt =====
-- The JavaScript values that the package inspects: handler results, payloads, keys and scopes.
use idempotency.Base.{ℕ, Bool, List, Option, Text}

-- A number by what the code observes of it: whether it is finite, and `String(n)`.
pub data Number : Type 0 where
  finite : Text → Number
  non_finite : Text → Number

-- `Fields` are an object's own enumerable members, in the order of `Object.keys`.
mutual
  pub data Value : Type 0 where
    undefined null symbol function : Value
    boolean : Bool → Value
    number : Number → Value
    -- Its decimal digits.
    bigint : Text → Value
    string : Text → Value
    -- `toISOString()`, or `none` for an invalid date.
    date : (iso : Option Text) → Value
    buffer : (bytes : List ℕ) → Value
    -- A `Uint8Array` that is no `Buffer`.
    uint8_array : (bytes : List ℕ) → Value
    -- Any other binary data: `ArrayBuffer`, `DataView`, typed arrays.
    other_binary : (bytes : List ℕ) → Fields → Protos → Value
    -- An object with a `pipe` method, and one with a `then` method.
    stream promise : Fields → Value
    -- A `StreamableFile`, and an object with `[Symbol.asyncIterator]` that is no stream.
    streamable_file async_iterable : Fields → Value
    -- A reference to an enclosing object, `n` levels up.
    back : (n : ℕ) → Value
    array : Items → Value
    map_of : Pairs → Value
    set_of : Items → Value
    -- A plain object.
    object : Fields → Value
    -- An instance of a class; `hidden` names its own properties that are not enumerable.
    instance_of : Fields → (hidden : List Text) → Protos → Value
    -- An object with a `toJSON()`: what that returns, and what the object is apart from it.
    with_to_json : (result itself : Value) → Value

  pub data Items : Type 0 where
    nil : Items
    item : Value → Items → Items

  pub data Pairs : Type 0 where
    no_pair : Pairs
    pair : (key value : Value) → Pairs → Pairs

  pub data Fields : Type 0 where
    no_field : Fields
    field : Text → Value → Fields → Fields

  -- The prototype chain below `Object.prototype`, the nearest first.
  pub data Protos : Type 0 where
    no_proto : Protos
    proto : Properties → Protos → Protos

  -- The own properties of a prototype: getters, by the value read or that they throw, and others.
  pub data Properties : Type 0 where
    no_property : Properties
    getter : Text → Value → Properties → Properties
    throwing_getter : Text → Properties → Properties
    property : Text → Properties → Properties
