-- ===== src/SymbolResolver/Resolve.antt =====
-- `SymbolResolver::resolve`: the request of the compiler, read into the two maps. What was written
-- before an exception stays written.
use capnp_ls.Prelude.{
  ℕ, Bool, ◌||◌, if◌then◌else◌, Option, none, some, List, [], ◌∷◌, Bytes, bytes, ends_with, HashMap,
  find, upsert, erase, nat_key, bytes_key, Result, ok, thrown, ◌>>=◌,
}
use capnp_ls.LspTypes.{Range, Location}
use capnp_ls.LspTypes.Ranges.{range_key}
use capnp_ls.SymbolResolver.{Filesystem, get_position_in_file, extract_file_path, start_of_file}

-- The parts of capnp's CodeGeneratorRequest that the code reads.
pub record Identifier : Type 0 where
  pub start_byte : ℕ
  pub end_byte : ℕ
  pub type_id : ℕ

pub record RequestedFile : Type 0 where
  pub id : ℕ
  pub identifiers : List Identifier

pub record Node : Type 0 where
  pub id : ℕ
  pub is_file : Bool
  pub display_name : Bytes

pub record SourceInfo : Type 0 where
  pub id : ℕ
  pub start_byte : ℕ
  pub end_byte : ℕ

pub record Request : Type 0 where
  pub requested_files : List RequestedFile
  pub nodes : List Node
  pub source_info : List SourceInfo

abbrev pub RangeMap : Type 0
RangeMap = HashMap Range ℕ

-- `positionToNodeIdMap` and `nodeLocationMap`
pub record Symbols : Type 0 where
  pub position_to_node_id : HashMap Bytes RangeMap
  pub node_location : HashMap ℕ Location

-- What a step leaves, and whether it threw.
pub record Step : Type 0 where
  pub symbols : Symbols
  pub outcome : Result (Unit {0})

abbrev pub done : Symbols → Step
done s = record { symbols = s; outcome = ok tt }

abbrev pub failed : Symbols → Step
failed s = record { symbols = s; outcome = thrown }

abbrev pub range_map_of : Option RangeMap → RangeMap
range_map_of none = []
range_map_of (some m) = m

-- `findOrCreate` on the file, and `upsert` of the range.
unfoldable pub add_identifier : Bytes → Range → ℕ → Symbols → Symbols
add_identifier file range type_id s = record s {
  position_to_node_id =
      upsert file (upsert range type_id (range_map_of (find file s.position_to_node_id)))
        s.position_to_node_id;
}

unfoldable pub add_location : ℕ → Bytes → Range → Symbols → Symbols
add_location id file range s = record s {
  node_location = upsert id (record { uri = file; range = range }) s.node_location;
}

unfoldable pub clear_file : Bytes → Symbols → Symbols
clear_file file s = record s { position_to_node_id = erase file s.position_to_node_id }

abbrev pub first_position : Range
first_position = record { start = start_of_file; end = start_of_file }

-- `sourceInfoMap` and `fileSourceInfoMap`
unfoldable pub file_infos :
    List RequestedFile → HashMap ℕ (List Identifier) → HashMap ℕ (List Identifier)
file_infos [] m = m
file_infos (f ∷ fs) m = file_infos fs (upsert f.id f.identifiers m)

unfoldable pub source_infos : List SourceInfo → HashMap ℕ SourceInfo → HashMap ℕ SourceInfo
source_infos [] m = m
source_infos (i ∷ is) m = source_infos is (upsert i.id i m)

unfoldable pub is_parameter_struct : Bytes → Bool
unfolding ends_with
is_parameter_struct display_name =
    ends_with (bytes "$Params") display_name || ends_with (bytes "$Results") display_name

module _ (fs : Filesystem) (import_paths : List Bytes) (workspace_path : Bytes) where
  unfoldable pub range_in_file : Bytes → ℕ → ℕ → Result Range
  range_in_file file start_byte end_byte = do
    start ← get_position_in_file fs file start_byte
    end ← get_position_in_file fs file end_byte
    ok (record { start = start; end = end })

  -- The loop over the identifiers of a file.
  unfoldable pub resolve_identifiers : Bytes → List Identifier → Symbols → Step
  resolve_identifiers file [] s = done s
  resolve_identifiers file (i ∷ is) s = elim (range_in_file file i.start_byte i.end_byte) [
    | thrown ↦ failed s
    | ok range ↦ resolve_identifiers file is (add_identifier file range i.type_id s)
  ]

  unfoldable pub resolve_file : Node → List Identifier → Symbols → Step
  resolve_file node identifiers s =
      elim (extract_file_path fs node.display_name import_paths workspace_path) [
        | thrown ↦ failed s
        | ok file ↦
            resolve_identifiers file identifiers
              (add_location node.id file first_position (clear_file file s))
      ]

  unfoldable pub resolve_symbol : Node → Option SourceInfo → Symbols → Step
  resolve_symbol node info s =
      elim (extract_file_path fs node.display_name import_paths workspace_path) [
        | thrown ↦ failed s
        | ok file ↦ elim info [
          | none ↦ done s
          | some i ↦ elim (range_in_file file i.start_byte i.end_byte) [
            | thrown ↦ failed s
            | ok range ↦ done (add_location node.id file range s)
          ]
        ]
      ]

  -- The body of the loop over the nodes.
  unfoldable pub resolve_node :
      HashMap ℕ (List Identifier) → HashMap ℕ SourceInfo → Node → Symbols → Step
  resolve_node files infos node s =
      if node.is_file
      then (elim (find node.id files) [
        | none ↦ done s
        | some identifiers ↦ resolve_file node identifiers s
      ])
      else if is_parameter_struct node.display_name
      then done s
      else resolve_symbol node (find node.id infos) s

  unfoldable pub resolve_nodes :
      HashMap ℕ (List Identifier) → HashMap ℕ SourceInfo → List Node → Symbols → Step
  resolve_nodes files infos [] s = done s
  resolve_nodes files infos (node ∷ nodes) s =
      let step = resolve_node files infos node s in
      elim step.outcome [ thrown ↦ step | ok u ↦ resolve_nodes files infos nodes step.symbols ]

  -- `resolve`; `load` is SchemaLoader::load on the nodes. It returns 0, or 1 after an exception.
  unfoldable pub resolve : (List Node → Result (Unit {0})) → Request → Symbols → ℕ × Symbols
  resolve load request s = elim (load request.nodes) [
    | thrown ↦ (1, s)
    | ok u ↦
        let step =
          resolve_nodes (file_infos request.requested_files [])
            (source_infos request.source_info []) request.nodes s in
        (elim step.outcome [ thrown ↦ 1 | ok u ↦ 0 ], step.symbols)
  ]
