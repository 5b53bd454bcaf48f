-- ===== src/LspMessageHandler/Definition.antt =====
-- `handleDefinition`: the position that is asked for, the range that holds it, and the answer.
use capnp_ls.Prelude.{
  ℕ, ◌+◌, ◌-◌, ◌%◌, leb, ◌&&◌, Bool, Option, none, some, Bytes, bytes, [], ◌∷◌, ◌++◌, same,
  if◌then◌else◌, HashMap, find, nat_key, bytes_key, ok, thrown,
}
use capnp_ls.LspTypes.{lsp_result, Position, Range, Location}
use capnp_ls.Utils.{uri_to_path}
use capnp_ls.SymbolResolver.{u32_mod}
use capnp_ls.SymbolResolver.Resolve.{RangeMap, Symbols}
use capnp_ls.LspMessageHandler.Json.{
  Double, whole, other, JsonValue, null_value, number_value, string_value, object_value, no_fields,
  field_and, Mismatch, get_object, get_string, get_number, Ran, ended, with, each_field,
}

pub record Query : Type 0 where
  pub uri : Bytes
  pub line : ℕ
  pub character : ℕ

module _ (mismatch : Mismatch) where
  -- `uint32_t n = number + 1`
  unfoldable pub plus_one : Double → ℕ
  plus_one (whole n) = (n + 1) % u32_mod
  plus_one (other bits) = mismatch.other_plus_one bits

  unfoldable pub read_document_uri : Bytes → JsonValue → Query → Ran Query
  unfolding with get_string same
  read_document_uri name value q =
      if same name (bytes "uri")
      then with (get_string mismatch value) q (λ uri. ended (record q { uri = uri }))
      else ended q

  unfoldable pub read_position : Bytes → JsonValue → Query → Ran Query
  unfolding with get_number plus_one same
  read_position name value q =
      if same name (bytes "line")
      then with (get_number mismatch value) q (λ n. ended (record q { line = plus_one n }))
      else if same name (bytes "character")
      then with (get_number mismatch value) q (λ n. ended (record q { character = plus_one n }))
      else ended q

  unfoldable pub read_definition_param : Bytes → JsonValue → Query → Ran Query
  unfolding with get_object each_field read_document_uri read_position same
  read_definition_param name value q =
      if same name (bytes "textDocument")
      then with (get_object mismatch value) q (λ fields. each_field read_document_uri fields q)
      else if same name (bytes "position")
      then with (get_object mismatch value) q (λ fields. each_field read_position fields q)
      else ended q

  unfoldable pub read_query : JsonValue → Ran Query
  unfolding with get_object each_field read_definition_param
  read_query params =
      let empty : Query = record { uri = []; line = 0; character = 0 } in
      with (get_object mismatch params) empty
        (λ fields. each_field read_definition_param fields empty)

-- The test of the loop over the ranges.
unfoldable pub holds_position : Range → ℕ → ℕ → Bool
holds_position range line character =
    (leb range.start.line line && leb line range.end.line)
    && (leb range.start.character character && leb character range.end.character)

-- The location of the first range that holds the position and whose node has one.
unfoldable pub find_location : RangeMap → ℕ → ℕ → HashMap ℕ Location → Option Location
unfolding holds_position find
find_location [] line character locations = none
find_location ((range, id) ∷ ranges) line character locations =
    let later = find_location ranges line character locations in
    if holds_position range line character
    then (elim (find id locations) [ some location ↦ some location | none ↦ later ])
    else later

unfoldable pub location_at : Option RangeMap → ℕ → ℕ → HashMap ℕ Location → Option Location
unfolding find_location
location_at none line character locations = none
location_at (some ranges) line character locations = find_location ranges line character locations

-- `setNumber(n - 1)` on a uint32_t.
abbrev pub minus_one : ℕ → JsonValue
minus_one n = number_value (whole ((n + (u32_mod - 1)) % u32_mod))

abbrev pub position_value : Position → JsonValue
position_value p = object_value (
    field_and (bytes "line") (minus_one p.line)
      (field_and (bytes "character") (minus_one p.character) no_fields))

abbrev pub location_value : Location → JsonValue
location_value l = object_value (
    field_and (bytes "uri") (string_value (bytes "file://" ++ l.uri)) (
      field_and (bytes "range")
        (object_value (
          field_and (bytes "start") (position_value l.range.start)
            (field_and (bytes "end") (position_value l.range.end) no_fields)))
        no_fields))

abbrev pub definition_value : Option Location → JsonValue
definition_value none = null_value
definition_value (some location) = location_value location

module _ (mismatch : Mismatch) where
  unfoldable pub definition_of : Ran Query → Symbols → Option Location
  unfolding location_at find uri_to_path
  definition_of query s = elim query.outcome [
    | thrown ↦ none
    | ok u ↦
        location_at (find (uri_to_path query.state.uri) s.position_to_node_id) query.state.line
          query.state.character s.node_location
  ]

  -- `handleDefinition`, its response.
  unfoldable pub handle_definition : JsonValue → Symbols → JsonValue
  unfolding definition_of read_query
  handle_definition params s = object_value (
      field_and lsp_result (definition_value (definition_of (read_query mismatch params) s))
        no_fields)
