-- ===== src/LspMessageHandler/Navigation.antt =====
-- From a compilation's symbols to the answer to a definition request: `resolve` and
-- `handleDefinition` together.
use capnp_ls.Prelude.{
  ℕ, true, Bool-cases, Option, none, some, Bytes, [], ◌∷◌, ok, ◌≡◌, ◌≢◌, inl, inr, refl, ap, ◌∙◌,
  HashMap, find, nat_key, bytes_key, AllEntries, arith,
}
use capnp_ls.LspTypes.{Range, range_eq, Location}
use capnp_ls.LspTypes.Ranges.{range_key, range_eq_iff}
use capnp_ls.Utils.{uri_to_path}
use capnp_ls.SymbolResolver.Resolve.{Request, RangeMap, range_map_of, resolve}
use capnp_ls.SymbolResolver.Locations.{HasShortFiles, IsOneBasedRange, range-IsOneBased}
use capnp_ls.SymbolResolver.Files.{symbols_of}
use capnp_ls.SymbolResolver.Named.{Names, Declares, resolve-Names, resolve-Declares}
use capnp_ls.CompilationManager.{check_capnp_version_compatible, compile}
use capnp_ls.CompilationManager.Effects.{Succeeds, compile-Succeeds}
use capnp_ls.LspMessageHandler.Handlers.{
  Handler, World, compile_params, publish, compiles, compile_capnp_file,
}
use capnp_ls.LspMessageHandler.Json.{JsonValue}
use capnp_ls.LspMessageHandler.Definition.{
  read_query, holds_position, find_location, location_at, definition_of, handle_definition,
}
use capnp_ls.LspMessageHandler.Search.{find_location_skip, find_location_take}
use capnp_ls.LspMessageHandler.Answers.{
  zero_based_location, answer_of, location_value_lem, definition_read, handle_definition_value,
}

later_entry :
    (r : Range) (j : ℕ) (range : Range) (ranges : RangeMap) {id : ℕ}
    → (r ≢ range)
    → find range ((r, j) ∷ ranges) ≡ some id
    → find range ranges ≡ some id
unfolding find
later_entry r j range ranges other e = elim (Bool-cases (range_eq r range)) [
  | inl same ↦ absurd (other ((range_eq_iff r range).0 same))
  | inr differ ↦ (rw differ at e)
]

find_location-leads :
    (line character : ℕ) (locations : HashMap ℕ Location) (ranges : RangeMap) (range : Range)
    (id : ℕ) (location : Location)
    → AllEntries (λ r j. holds_position r line character ≡ true → j ≡ id) ranges
    → find range ranges ≡ some id
    → holds_position range line character ≡ true
    → find id locations ≡ some location
    → find_location ranges line character locations ≡ some location
unfolding find
find_location-leads line character locations [] range id location all e h f = absurd (ground arith)
find_location-leads line character locations ((r, j) ∷ ranges) range id location all e h f =
    elim (Bool-cases (holds_position r line character)) [
      | inl hit ↦
          find_location_take line character locations r j ranges location hit
            (ap (λ i. find i locations) (all.0 hit) ∙ f)
      | inr miss ↦
          find_location_skip line character locations r j ranges (inl miss)
          ∙ find_location-leads line character locations ranges range id location all.1
              (later_entry r j range ranges (λ same. cc) e) h f
    ]

location_at-leads :
    (line character : ℕ) (o : Option RangeMap) (locations : HashMap ℕ Location) (range : Range)
    (id : ℕ) (location : Location)
    → AllEntries (λ r j. holds_position r line character ≡ true → j ≡ id) (range_map_of o)
    → find range (range_map_of o) ≡ some id
    → holds_position range line character ≡ true
    → find id locations ≡ some location
    → location_at o line character locations ≡ some location
unfolding location_at find
location_at-leads line character none locations range id location all e h f =
    absurd (ground (arith, e))
location_at-leads line character (some ranges) locations range id location all e h f =
    find_location-leads line character locations ranges range id location all e h f

module _ {Reader : Type 0} (world : World Reader) where
  open world use {os, fs, load, request_of, bundled, mismatch}

  compiled_symbols :
      (uri : Bytes) (h : Handler)
      → compiles world uri h ≡ true
      → (compile_capnp_file world uri h).compiled.symbols
        ≡ (compile os fs load request_of bundled
            (compile_params world (uri_to_path uri) h.config)
            (h.manager, h.compiled)).1.symbols
  unfolding compile_capnp_file publish
  compiled_symbols uri h e = rw e refl

  -- Once a schema was compiled, by a compiler whose version is supported, with exit code 0 and a
  -- request that resolves, a definition request is answered with the place of a node's declaration,
  -- its lines and characters counted from 0: where its parameters can be read, no file is longer than
  -- 2^32 - 2 bytes, the compiler's request has a file node for the file asked for and no later one
  -- for it, one of its identifiers there has a range that holds the position, every one whose range
  -- does names this node, and the request declares the node, with no later node of its id. What
  -- earlier compilations left does not matter.
  pub handle_definition-compile_capnp_file :
      (uri : Bytes) (h : Handler) (request : Request) (params : JsonValue) (u : Unit {0}) (id : ℕ)
      (location : Location)
      → HasShortFiles fs
      → compiles world uri h ≡ true
      → (check_capnp_version_compatible os fs load request_of bundled h.config.compiler_path
          h.manager).0
        ≡ true
      → Succeeds os fs load request_of bundled
          (compile_params world (uri_to_path uri) h.config)
          request
      → (resolve fs h.config.import_paths h.config.workspace_path load request h.compiled.symbols).0
        ≡ 0
      → (read_query mismatch params).outcome ≡ ok u
      → Names fs h.config.import_paths h.config.workspace_path request
          (uri_to_path (read_query mismatch params).state.uri)
          (λ range.
            holds_position range
              (read_query mismatch params).state.line
              (read_query mismatch params).state.character)
          id
      → Declares fs h.config.import_paths h.config.workspace_path request id location
      → handle_definition mismatch params (compile_capnp_file world uri h).compiled.symbols
        ≡ answer_of (zero_based_location location)
  handle_definition-compile_capnp_file uri h request params u id location short compiles compatible
        succeeds resolves e n d =
      let q = (read_query mismatch params).state in
      let import_paths = h.config.import_paths in
      let workspace_path = h.config.workspace_path in
      let s = (resolve fs import_paths workspace_path load request h.compiled.symbols).1 in
      let (leads, all_lead) =
        resolve-Names fs import_paths workspace_path request load h.compiled.symbols resolves
          (uri_to_path q.uri) (λ range. holds_position range q.line q.character) id n in
      let located =
        resolve-Declares fs import_paths workspace_path request load h.compiled.symbols resolves id
          location d in
      let valid : IsOneBasedRange location.range =
        range-IsOneBased fs short import_paths workspace_path location.uri d.info.start_byte
          d.info.end_byte location.range d.ranged in
      let answered : definition_of mismatch (read_query mismatch params) s ≡ some location =
        definition_read mismatch params s u e
        ∙ location_at-leads q.line q.character (symbols_of (uri_to_path q.uri) s) s.node_location
            n.range id location all_lead leads n.passes located in
      ap (handle_definition mismatch params) (
        compiled_symbols uri h compiles
        ∙ compile-Succeeds os fs load request_of bundled
            (compile_params world (uri_to_path uri) h.config) h.manager h.compiled request
            compatible succeeds)
      ∙ (handle_definition_value mismatch params s (some location) answered
          ∙ ap answer_of (location_value_lem location valid))
