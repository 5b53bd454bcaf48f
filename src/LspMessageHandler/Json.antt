-- ===== src/LspMessageHandler/Json.antt =====
-- The values of capnp's json.capnp as the handler reads and builds them, and its loops over them.
use capnp_ls.Prelude.{ℕ, Bool, Bytes, Result, thrown, ok}

-- A double: a whole number from 0 on that it holds exactly, or another one by its bits.
pub data Double : Type 0 where
  whole : ℕ → Double
  other : ℕ → Double

mutual
  pub data JsonValue : Type 0 where
    null_value : JsonValue
    boolean_value : Bool → JsonValue
    number_value : Double → JsonValue
    string_value : Bytes → JsonValue
    array_value : JsonValues → JsonValue
    object_value : JsonFields → JsonValue

  pub data JsonValues : Type 0 where
    no_values : JsonValues
    value_and : JsonValue → JsonValues → JsonValues

  pub data JsonFields : Type 0 where
    no_fields : JsonFields
    field_and : Bytes → JsonValue → JsonFields → JsonFields

-- What capnp's accessors do on a value of another kind: they may throw or give what is in memory.
pub record Mismatch : Type 0 where
  pub as_object : JsonValue → Result JsonFields
  pub as_array : JsonValue → Result JsonValues
  pub as_string : JsonValue → Result Bytes
  pub as_number : JsonValue → Result Double
  -- The conversion to uint32_t of a double that is no whole number from 0 on, plus one.
  pub other_plus_one : ℕ → ℕ

module _ (mismatch : Mismatch) where
  unfoldable pub get_object : JsonValue → Result JsonFields
  get_object (object_value fields) = ok fields
  get_object value = mismatch.as_object value

  unfoldable pub get_array : JsonValue → Result JsonValues
  get_array (array_value values) = ok values
  get_array value = mismatch.as_array value

  unfoldable pub get_string : JsonValue → Result Bytes
  get_string (string_value text) = ok text
  get_string value = mismatch.as_string value

  unfoldable pub get_number : JsonValue → Result Double
  get_number (number_value number) = ok number
  get_number value = mismatch.as_number value

-- A loop that an exception ends; what was assigned before stays.
pub record Ran {ℓ} (S : Type ℓ) : Type ℓ where
  pub state : S
  pub outcome : Result (Unit {0})

module _ {ℓ} {S : Type ℓ} where
  abbrev pub ended : S → Ran S
  ended s = record { state = s; outcome = ok tt }

  abbrev pub stopped : S → Ran S
  stopped s = record { state = s; outcome = thrown }

  -- The rest of a block behind a call that may throw.
  unfoldable pub with {κ} : {A : Type κ} → Result A → S → (A → Ran S) → Ran S
  with thrown s rest = stopped s
  with (ok value) s rest = rest value

  unfoldable pub each_field : (Bytes → JsonValue → S → Ran S) → JsonFields → S → Ran S
  each_field body no_fields s = ended s
  each_field body (field_and name value fields) s =
      let step = body name value s in
      elim step.outcome [ thrown ↦ step | ok u ↦ each_field body fields step.state ]

  unfoldable pub each_value : (JsonValue → S → Ran S) → JsonValues → S → Ran S
  each_value body no_values s = ended s
  each_value body (value_and value values) s =
      let step = body value s in
      elim step.outcome [ thrown ↦ step | ok u ↦ each_value body values step.state ]
