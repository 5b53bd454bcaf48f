-- ===== src/LspMessageHandler/Tests.antt =====
-- Runs of the handler on messages of a client.
use mathlib.Core.List.Perm
use capnp_ls.Prelude.{
  nat_key, sym, ◌∙◌, ℕ, List, Bool-cases, inl, inr, find, [], ◌∷◌, ◌++◌, none, some, Bytes, bytes,
  ◌≡◌, refl, arith, same,
}
use capnp_ls.LspTypes.{try_parse_lsp_method}
use capnp_ls.SymbolResolver.Resolve.{Symbols}
use capnp_ls.SymbolResolver.Locations.{IsValid}
use capnp_ls.SymbolResolver.Sample.{no_symbols, identifier_range}
use capnp_ls.LspMessageHandler.Json.{
  JsonValue, null_value, string_value, array_value, object_value, no_values, value_and, no_fields,
  field_and, get_object, get_string, Ran, ended, with, each_field,
}
use capnp_ls.LspMessageHandler.Definition.{
  read_query, read_definition_param, read_document_uri, read_position, handle_definition,
}
use capnp_ls.LspMessageHandler.Messages.{Message, handle_read}
use capnp_ls.LspMessageHandler.Sample.{strict, save_params, world, handler, definition_params}
use capnp_ls.SymbolResolver.Resolve.{first_position}
use capnp_ls.SymbolResolver.Indexed.{ranges_of}
use capnp_ls.Utils.{uri_to_path}
use capnp_ls.LspTypes.{Range, Location}
use capnp_ls.LspMessageHandler.Orders.{SameEntries, Agrees, handle_definition-SameEntries}
use capnp_ls.LspMessageHandler.Quiet.{handle_read_quiet}

abbrev message : Bytes
message = bytes "Content-Length: 2" ++ (13 ∷ 10 ∷ 13 ∷ 10 ∷ bytes "{}")

no_symbols-IsValid : IsValid no_symbols
no_symbols-IsValid = record { ranges = tt; locations = tt }

-- The position of the identifier, as the client counts.
abbrev symbols : Symbols
symbols = record {
  position_to_node_id = (bytes "/w/a.capnp", (identifier_range, 2) ∷ []) ∷ [];
  node_location = (2, record { uri = bytes "/w/a.capnp"; range = identifier_range }) ∷ [];
}

abbrev initialize_params : JsonValue
initialize_params = object_value (
    field_and (bytes "initializationOptions")
      (object_value (
        field_and (bytes "capnp")
          (object_value (
            field_and (bytes "importPaths")
              (array_value
                (value_and (string_value (bytes "/opt")) (value_and null_value no_values)))
              no_fields))
          no_fields))
      no_fields)

abbrev watched : Ran Message
watched = ended (record {
  method = bytes "workspace/didChangeWatchedFiles";
  request_id = none;
  params = save_params;
})

handle_read_quiet_example : handle_read world watched handler ≡ handler
unfolding try_parse_lsp_method same
handle_read_quiet_example = handle_read_quiet world watched handler refl refl

-- The same two entries in either order, of which one holds the position.
abbrev of_ranges : List (Range × ℕ) → Symbols
of_ranges ranges = record {
  position_to_node_id = (bytes "/w/a.capnp", ranges) ∷ [];
  node_location = (2, record { uri = bytes "/w/a.capnp"; range = identifier_range }) ∷ [];
}

abbrev first_later : Symbols
first_later = of_ranges ((first_position, 7) ∷ (identifier_range, 2) ∷ [])

abbrev first_now : Symbols
first_now = of_ranges ((identifier_range, 2) ∷ (first_position, 7) ∷ [])

in_either_order : SameEntries first_later first_now
unfolding find
in_either_order = record {
  ranges = λ file. elim (Bool-cases (same (bytes "/w/a.capnp") file)) [
    | inl e ↦ rw e (Perm.swap (identifier_range, 2) (first_position, 7) [])
    | inr e ↦ rw e Perm.nil
  ];
  locations = λ id. refl;
}

abbrev identifier_place : Location
identifier_place = record { uri = bytes "/w/a.capnp"; range = identifier_range }

one_place :
    (id : ℕ) (l : Location) → find id first_later.node_location ≡ some l → l ≡ identifier_place
unfolding find
one_place id l e = ground (arith, e)

first_later-Agrees :
    Agrees 2 2 first_later.node_location (ranges_of (bytes "/w/a.capnp") first_later)
first_later-Agrees l l' a b = one_place a.id l a.located ∙ sym (one_place b.id l' b.located)

handle_definition-SameEntries_example :
    handle_definition strict definition_params first_later
    ≡ handle_definition strict definition_params first_now
unfolding read_query read_definition_param read_document_uri read_position with each_field
    get_object get_string same uri_to_path
handle_definition-SameEntries_example =
    handle_definition-SameEntries strict definition_params first_later first_now in_either_order
      first_later-Agrees
