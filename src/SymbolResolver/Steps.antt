-- ===== src/SymbolResolver/Steps.antt =====
-- The branches of `resolve`, one equation to each.
use capnp_ls.Prelude.{
  ℕ, true, false, Option, none, some, List, [], ◌∷◌, Bytes, ◌≡◌, ◌⊎◌, arith, HashMap, find, nat_key,
  Result, ok, thrown,
}
use capnp_ls.LspTypes.{Range}
use capnp_ls.SymbolResolver.{Filesystem, extract_file_path}
use capnp_ls.SymbolResolver.Resolve.{
  Identifier, Node, SourceInfo, Request, Symbols, done, failed, add_identifier, add_location,
  clear_file, first_position, file_infos, source_infos, is_parameter_struct, range_in_file,
  resolve_identifiers, resolve_file, resolve_symbol, resolve_node, resolve_nodes, resolve,
}

module _ (fs : Filesystem) (import_paths : List Bytes) (workspace_path : Bytes) where
  -- The file of a node, as `extractFilePath` finds it.
  abbrev pub FileOf : Node → Bytes → Type 0
  FileOf node file = extract_file_path fs node.display_name import_paths workspace_path ≡ ok file

  -- The range of two offsets in a file.
  abbrev pub RangeOf : Bytes → ℕ → ℕ → Range → Type 0
  RangeOf file a b range = range_in_file fs import_paths workspace_path file a b ≡ ok range

  pub identifiers_step :
      (file : Bytes) (i : Identifier) (is : List Identifier) (s : Symbols) (range : Range)
      → RangeOf file i.start_byte i.end_byte range
      → resolve_identifiers fs import_paths workspace_path file (i ∷ is) s
        ≡ resolve_identifiers fs import_paths workspace_path file is
            (add_identifier file range i.type_id s)
  unfolding resolve_identifiers
  identifiers_step file i is s range e = ground arith

  pub identifiers_thrown :
      (file : Bytes) (i : Identifier) (is : List Identifier) (s : Symbols)
      → range_in_file fs import_paths workspace_path file i.start_byte i.end_byte ≡ thrown
      → resolve_identifiers fs import_paths workspace_path file (i ∷ is) s ≡ failed s
  unfolding resolve_identifiers
  identifiers_thrown file i is s e = ground arith

  pub nodes_step :
      (files : HashMap ℕ (List Identifier)) (infos : HashMap ℕ SourceInfo) (node : Node)
      (nodes : List Node) (s : Symbols) (u : Unit {0})
      → (resolve_node fs import_paths workspace_path files infos node s).outcome ≡ ok u
      → resolve_nodes fs import_paths workspace_path files infos (node ∷ nodes) s
        ≡ resolve_nodes fs import_paths workspace_path files infos nodes
            (resolve_node fs import_paths workspace_path files infos node s).symbols
  unfolding resolve_nodes
  nodes_step files infos node nodes s u e = ground arith

  pub nodes_thrown :
      (files : HashMap ℕ (List Identifier)) (infos : HashMap ℕ SourceInfo) (node : Node)
      (nodes : List Node) (s : Symbols)
      → (resolve_node fs import_paths workspace_path files infos node s).outcome ≡ thrown
      → resolve_nodes fs import_paths workspace_path files infos (node ∷ nodes) s
        ≡ resolve_node fs import_paths workspace_path files infos node s
  unfolding resolve_nodes
  nodes_thrown files infos node nodes s e = ground arith

  pub resolve_file_thrown :
      (node : Node) (is : List Identifier) (s : Symbols)
      → extract_file_path fs node.display_name import_paths workspace_path ≡ thrown
      → resolve_file fs import_paths workspace_path node is s ≡ failed s
  unfolding resolve_file
  resolve_file_thrown node is s e = ground arith

  pub resolve_file_found :
      (node : Node) (file : Bytes) (is : List Identifier) (s : Symbols)
      → FileOf node file
      → resolve_file fs import_paths workspace_path node is s
        ≡ resolve_identifiers fs import_paths workspace_path file is
            (add_location node.id file first_position (clear_file file s))
  unfolding resolve_file
  resolve_file_found node file is s e = ground arith

  pub resolve_symbol_no_info :
      (node : Node) (s : Symbols)
      → (resolve_symbol fs import_paths workspace_path node none s).symbols ≡ s
  unfolding resolve_symbol
  resolve_symbol_no_info node s = ground arith

  pub resolve_symbol_thrown :
      (node : Node) (info : Option SourceInfo) (s : Symbols)
      → extract_file_path fs node.display_name import_paths workspace_path ≡ thrown
      → resolve_symbol fs import_paths workspace_path node info s ≡ failed s
  unfolding resolve_symbol
  resolve_symbol_thrown node info s e = ground arith

  pub resolve_symbol_no_range :
      (node : Node) (file : Bytes) (i : SourceInfo) (s : Symbols)
      → FileOf node file
      → range_in_file fs import_paths workspace_path file i.start_byte i.end_byte ≡ thrown
      → resolve_symbol fs import_paths workspace_path node (some i) s ≡ failed s
  unfolding resolve_symbol
  resolve_symbol_no_range node file i s e r = ground arith

  pub resolve_symbol_found :
      (node : Node) (file : Bytes) (i : SourceInfo) (range : Range) (s : Symbols)
      → FileOf node file
      → RangeOf file i.start_byte i.end_byte range
      → resolve_symbol fs import_paths workspace_path node (some i) s
        ≡ done (add_location node.id file range s)
  unfolding resolve_symbol
  resolve_symbol_found node file i range s e r = ground arith

  pub resolve_node_file :
      (files : HashMap ℕ (List Identifier)) (infos : HashMap ℕ SourceInfo) (node : Node)
      (is : List Identifier) (s : Symbols)
      → node.is_file ≡ true
      → find node.id files ≡ some is
      → resolve_node fs import_paths workspace_path files infos node s
        ≡ resolve_file fs import_paths workspace_path node is s
  unfolding resolve_node
  resolve_node_file files infos node is s f e = ground arith

  pub resolve_node_skipped :
      (files : HashMap ℕ (List Identifier)) (infos : HashMap ℕ SourceInfo) (node : Node)
      (s : Symbols)
      → ((node.is_file ≡ true) × (find node.id files ≡ none))
        ⊎ ((node.is_file ≡ false) × (is_parameter_struct node.display_name ≡ true))
      → resolve_node fs import_paths workspace_path files infos node s ≡ done s
  unfolding resolve_node
  resolve_node_skipped files infos node s h = ground arith

  pub resolve_node_symbol :
      (files : HashMap ℕ (List Identifier)) (infos : HashMap ℕ SourceInfo) (node : Node)
      (s : Symbols)
      → node.is_file ≡ false
      → is_parameter_struct node.display_name ≡ false
      → resolve_node fs import_paths workspace_path files infos node s
        ≡ resolve_symbol fs import_paths workspace_path node (find node.id infos) s
  unfolding resolve_node
  resolve_node_symbol files infos node s f e = ground arith

  pub resolve_thrown :
      (load : List Node → Result (Unit {0})) (request : Request) (s : Symbols)
      → load request.nodes ≡ thrown
      → resolve fs import_paths workspace_path load request s ≡ (1, s)
  unfolding resolve
  resolve_thrown load request s e = ground arith

  pub resolve_loaded :
      (load : List Node → Result (Unit {0})) (request : Request) (s : Symbols) (u : Unit {0})
      → load request.nodes ≡ ok u
      → (resolve fs import_paths workspace_path load request s).1
        ≡ (resolve_nodes fs import_paths workspace_path
            (file_infos request.requested_files [])
            (source_infos request.source_info [])
            request.nodes
            s).symbols
  unfolding resolve
  resolve_loaded load request s u e = ground arith
