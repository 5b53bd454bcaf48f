-- ===== src/SymbolResolver/Tests.antt =====
-- Runs of the resolver on a directory of three files.
use capnp_ls.Prelude.{
  [], ◌∷◌, some, bytes, ◌≡◌, inl, inr, refl, arith, find, upsert, erase, ends_with, starts_with,
  nat_key, bytes_key, ok, same,
}
use capnp_ls.LspTypes.{Range, position_eq, range_eq}
use capnp_ls.LspTypes.Ranges.{range_key}
use capnp_ls.SymbolResolver.{
  get_position_in_file, extract_file_path, relative_path, before_colon, search_imports, advance,
}
use capnp_ls.SymbolResolver.Resolve.{
  Symbols, add_identifier, add_location, clear_file, first_position, range_in_file, file_infos,
  source_infos, is_parameter_struct, resolve_identifiers, resolve_symbol, resolve_node,
  resolve_nodes, resolve_file, resolve,
}
use capnp_ls.SymbolResolver.Sample.{schema, workspace, disk, request, identifier_range}
use capnp_ls.SymbolResolver.Positions.{Precedes}
use capnp_ls.SymbolResolver.Offsets.{Holds, get_position_in_file_lem, range_in_file-Precedes}
use capnp_ls.SymbolResolver.Files.{symbols_of, resolve-symbols_of}
use capnp_ls.SymbolResolver.Search.{extract_file_path-first}

-- What an earlier compilation left.
abbrev old_symbols : Symbols
old_symbols = record {
  position_to_node_id =
      (bytes "/w/a.capnp", (first_position, 9) ∷ [])
      ∷ (bytes "/lib/b.capnp", (first_position, 7) ∷ [])
      ∷ [];
  node_location = (9, record { uri = bytes "/lib/b.capnp"; range = first_position }) ∷ [];
}

resolve_old : resolve disk [] workspace (λ nodes. ok tt) request old_symbols ≡ (
  0,
  record {
    position_to_node_id =
        (bytes "/lib/b.capnp", (first_position, 7) ∷ [])
        ∷ (bytes "/w/a.capnp", (identifier_range, 2) ∷ [])
        ∷ [];
    node_location =
        (9, record { uri = bytes "/lib/b.capnp"; range = first_position })
        ∷ (1, record { uri = bytes "/w/a.capnp"; range = first_position })
        ∷ (
          2,
          record {
            uri = bytes "/w/a.capnp";
            range = record {
              start = record { line = 1; character = 1 };
              end = record { line = 2; character = 3 };
            };
          },
        )
        ∷ [];
  },
)
unfolding resolve resolve_nodes resolve_node resolve_file resolve_symbol resolve_identifiers
    is_parameter_struct file_infos source_infos range_in_file get_position_in_file advance
    add_identifier add_location clear_file find upsert erase same ends_with starts_with position_eq
    range_eq extract_file_path before_colon relative_path search_imports
resolve_old = refl

schema-Holds : Holds disk (bytes "/w/a.capnp") schema
schema-Holds = record {
  path = bytes "w/a.capnp";
  file = tt;
  parses = refl;
  opens = refl;
  reads = refl;
}

get_position_in_file_lem_example :
    get_position_in_file disk (bytes "/w/a.capnp") 5 ≡ ok (record { line = 2; character = 3 })
get_position_in_file_lem_example =
    get_position_in_file_lem disk (bytes "/w/a.capnp") schema schema-Holds 5 (omega arith)

range_in_file-Precedes_example :
    (range : Range) × ((range_in_file disk [] workspace (bytes "/w/a.capnp") 1 5 ≡ ok range)
      × Precedes range.start range.end)
range_in_file-Precedes_example =
    range_in_file-Precedes disk (bytes "/w/a.capnp") schema schema-Holds [] workspace 1 5
      (omega arith) (omega arith) (omega arith)

resolve-symbols_of_example :
    symbols_of
      (bytes "/lib/b.capnp")
      (resolve disk [] workspace (λ nodes. ok tt) request old_symbols).1
    ≡ some ((first_position, 7) ∷ [])
unfolding extract_file_path before_colon relative_path search_imports starts_with same find
resolve-symbols_of_example =
    resolve-symbols_of disk [] workspace (bytes "/lib/b.capnp") old_symbols (λ nodes. ok tt) request
      (ground arith)

extract_file_path-first_example :
    extract_file_path disk
      (bytes "/b.capnp:T")
      (bytes "inc" ∷ bytes "/lib" ∷ bytes "/opt" ∷ [])
      workspace
    ≡ ok (bytes "/lib/b.capnp")
unfolding relative_path before_colon starts_with same
extract_file_path-first_example =
    extract_file_path-first disk (bytes "/b.capnp:T") (bytes "inc" ∷ []) (bytes "/lib")
      (bytes "/opt" ∷ []) workspace (bytes "b.capnp") (bytes "/lib/b.capnp") refl refl
      (
        inr (
          record {
            base = bytes "inc";
            target = bytes "inc/b.capnp";
            full_base = bytes "/w/inc";
            full = bytes "/w/inc/b.capnp";
            is_relative = refl;
            parses = refl;
            evaluates = refl;
            evaluates_base = refl;
            evaluates_full = refl;
          },
          refl,
        ),
        tt,
      )
      (inl (
        record {
          base = bytes "lib";
          target = bytes "/lib/b.capnp";
          is_absolute = refl;
          parses = refl;
          evaluates = refl;
        },
        (refl, refl),
      ))
