-- ===== src/LspMessageHandler/Answers.antt =====
-- The answer to a definition request against the maps.
use capnp_ls.Prelude.{
  ℕ, ◌-◌, ◌<◌, ◌≤◌, Option, none, some, bytes, ◌++◌, ◌≡◌, ◌⊎◌, inl, inr, ap, ap₂, ◌∙◌, arith,
  HashMap, find, nat_key, bytes_key, AllEntries, find-AllEntries, ok,
}
use capnp_ls.LspTypes.{lsp_result, Position, Location}
use capnp_ls.Utils.{uri_to_path}
use capnp_ls.SymbolResolver.{u32_mod}
use capnp_ls.SymbolResolver.Resolve.{RangeMap, Symbols}
use capnp_ls.SymbolResolver.Locations.{IsOneBased, IsOneBasedRange, IsValid}
use capnp_ls.LspMessageHandler.Json.{
  whole, JsonValue, null_value, number_value, string_value, object_value, no_fields, field_and,
  Mismatch,
}
use capnp_ls.LspMessageHandler.Definition.{
  Query, read_query, location_at, minus_one, position_value, location_value, definition_value,
  definition_of, handle_definition,
}
use capnp_ls.LspMessageHandler.Search.{Unanswered, Answers, Outcome}

-- A location with lines and characters from 0 on, as the protocol counts.
abbrev pub zero_based_position : Position → JsonValue
zero_based_position p = object_value (
    field_and (bytes "line") (number_value (whole (p.line - 1)))
      (field_and (bytes "character") (number_value (whole (p.character - 1))) no_fields))

abbrev pub zero_based_location : Location → JsonValue
zero_based_location l = object_value (
    field_and (bytes "uri") (string_value (bytes "file://" ++ l.uri)) (
      field_and (bytes "range")
        (object_value (
          field_and (bytes "start") (zero_based_position l.range.start)
            (field_and (bytes "end") (zero_based_position l.range.end) no_fields)))
        no_fields))

minus_one_lem : (n : ℕ) → 1 ≤ n → n < u32_mod → minus_one n ≡ number_value (whole (n - 1))
minus_one_lem n h k = ap (λ x. number_value (whole x)) (omega arith)

position_value_lem : (p : Position) → IsOneBased p → position_value p ≡ zero_based_position p
position_value_lem p h =
    ap₂
      (λ l c. object_value (field_and (bytes "line") l (field_and (bytes "character") c no_fields)))
      (minus_one_lem p.line h.0 h.1) (minus_one_lem p.character h.2 h.3)

pub location_value_lem :
    (l : Location) → IsOneBasedRange l.range → location_value l ≡ zero_based_location l
location_value_lem l h =
    ap₂
      (λ s e. object_value (
        field_and (bytes "uri") (string_value (bytes "file://" ++ l.uri)) (
          field_and (bytes "range")
            (object_value (field_and (bytes "start") s (field_and (bytes "end") e no_fields)))
            no_fields)))
      (position_value_lem l.range.start h.0) (position_value_lem l.range.end h.1)

abbrev pub answer_of : JsonValue → JsonValue
answer_of value = object_value (field_and lsp_result value no_fields)

find_location_valid :
    (id : ℕ) (location : Location) (locations : HashMap ℕ Location)
    → AllEntries (λ id location. IsOneBasedRange location.range) locations
    → find id locations ≡ some location
    → IsOneBasedRange location.range
find_location_valid id location locations h e =
    find-AllEntries (λ id location. IsOneBasedRange location.range) id location locations h e

module _ (mismatch : Mismatch) (params : JsonValue) (s : Symbols) where
  abbrev pub query : Query
  query = (read_query mismatch params).state

  abbrev pub ranges_asked : Option RangeMap
  ranges_asked = find (uri_to_path query.uri) s.position_to_node_id

  pub definition_read :
      (u : Unit {0})
      → (read_query mismatch params).outcome ≡ ok u
      → definition_of mismatch (read_query mismatch params) s
        ≡ location_at ranges_asked query.line query.character s.node_location
  unfolding definition_of
  definition_read u e = ground arith

  -- What `handleDefinition` makes of a location or of none.
  pub handle_definition_value :
      (o : Option Location)
      → definition_of mismatch (read_query mismatch params) s ≡ o
      → handle_definition mismatch params s ≡ answer_of (definition_value o)
  unfolding handle_definition
  handle_definition_value o e = ap (λ l. answer_of (definition_value l)) e

  -- What the request is answered with.
  abbrev pub IsAnswered : JsonValue → Type 0
  IsAnswered response =
      ((ranges_asked ≡ none) × (response ≡ answer_of null_value))
      ⊎ ((ranges : RangeMap) × (ranges_asked ≡ some ranges)
          × (Unanswered query.line query.character s.node_location ranges
              × (response ≡ answer_of null_value)))
      ⊎ ((ranges : RangeMap) × (ranges_asked ≡ some ranges)
          × ((location : Location) × Answers query.line query.character s.node_location ranges
                location
              × (response ≡ answer_of (zero_based_location location))))

  answered :
      (ranges : RangeMap) (o : Option Location)
      → IsValid s
      → ranges_asked ≡ some ranges
      → Outcome query.line query.character s.node_location ranges o
      → definition_of mismatch (read_query mismatch params) s ≡ o
      → IsAnswered (handle_definition mismatch params s)
  answered ranges none h e out f = inr (inl (ranges, e, (out, handle_definition_value none f)))
  answered ranges (some location) h e out f =
      let valid : IsOneBasedRange location.range =
        find_location_valid out.id location s.node_location h.locations out.located in
      inr (
        inr (
          ranges,
          e,
          (
            location,
            out,
            handle_definition_value (some location) f
                ∙ ap answer_of (location_value_lem location valid),
          ),
        ))
