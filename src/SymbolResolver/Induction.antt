-- ===== src/SymbolResolver/Induction.antt =====
-- One rule for all that `resolve` keeps: what its four ways to write to the maps keep.
use capnp_ls.Prelude.{
  ℕ, Option, none, some, List, [], ◌∷◌, Bytes, inl, inr, HashMap, find, nat_key, Result,
  Result-cases, Bool-cases, Option-cases, ◌≡◌, true, false,
}
use capnp_ls.LspTypes.{Range}
use capnp_ls.SymbolResolver.{Filesystem, extract_file_path}
use capnp_ls.SymbolResolver.Resolve.{
  Identifier, Node, SourceInfo, Request, Symbols, add_identifier, add_location, clear_file,
  first_position, is_parameter_struct, range_in_file, resolve_identifiers, resolve_file,
  resolve_symbol, resolve_node, resolve_nodes, resolve,
}
use capnp_ls.SymbolResolver.Steps.{
  FileOf, RangeOf, identifiers_step, identifiers_thrown, nodes_step, nodes_thrown,
  resolve_file_thrown, resolve_file_found, resolve_symbol_no_info, resolve_symbol_thrown,
  resolve_symbol_no_range, resolve_symbol_found, resolve_node_file, resolve_node_skipped,
  resolve_node_symbol, resolve_thrown, resolve_loaded,
}

abbrev pub AllNodes : (Node → Type 0) → List Node → Type 0
AllNodes Of [] = Unit
AllNodes Of (node ∷ nodes) = Of node × AllNodes Of nodes

module _ (fs : Filesystem) (import_paths : List Bytes) (workspace_path : Bytes) where
  -- The nodes of the request have the property `Of`.
  pub record Keeps (Of : Node → Type 0) (Inv : Symbols → Type 0) : Type 0 where
    pub clear :
        (node : Node) (file : Bytes) (s : Symbols)
        → node.is_file ≡ true
        → Of node
        → FileOf fs import_paths workspace_path node file
        → Inv s
        → Inv (clear_file file s)
    pub locate_file :
        (node : Node) (file : Bytes) (s : Symbols)
        → node.is_file ≡ true
        → Of node
        → FileOf fs import_paths workspace_path node file
        → Inv s
        → Inv (add_location node.id file first_position s)
    pub locate :
        (node : Node) (file : Bytes) (a b : ℕ) (range : Range) (s : Symbols)
        → node.is_file ≡ false
        → Of node
        → FileOf fs import_paths workspace_path node file
        → RangeOf fs import_paths workspace_path file a b range
        → Inv s
        → Inv (add_location node.id file range s)
    pub identify :
        (node : Node) (file : Bytes) (a b : ℕ) (range : Range) (type_id : ℕ) (s : Symbols)
        → node.is_file ≡ true
        → Of node
        → FileOf fs import_paths workspace_path node file
        → RangeOf fs import_paths workspace_path file a b range
        → Inv s
        → Inv (add_identifier file range type_id s)

module _ (fs : Filesystem) (import_paths : List Bytes) (workspace_path : Bytes) (Of : Node → Type 0)
    (Inv : Symbols → Type 0) (keeps : Keeps fs import_paths workspace_path Of Inv) where
  resolve_identifiers-Keeps :
      (node : Node) (file : Bytes) (is : List Identifier) (s : Symbols)
      → node.is_file ≡ true
      → Of node
      → FileOf fs import_paths workspace_path node file
      → Inv s
      → Inv (resolve_identifiers fs import_paths workspace_path file is s).symbols
  resolve_identifiers-Keeps node file [] s k m f h = unfold resolve_identifiers in h
  resolve_identifiers-Keeps node file (i ∷ is) s k m f h =
      elim (Result-cases
        (range_in_file fs import_paths workspace_path file i.start_byte i.end_byte)) [
          | inl e ↦ rw (identifiers_thrown fs import_paths workspace_path file i is s e) h
          | inr (range, e) ↦
              rw (identifiers_step fs import_paths workspace_path file i is s range e) (
                resolve_identifiers-Keeps node file is (add_identifier file range i.type_id s) k m f
                  (keeps.identify node file i.start_byte i.end_byte range i.type_id s k m f e h))
        ]

  resolve_file-Keeps :
      (node : Node) (is : List Identifier) (s : Symbols)
      → node.is_file ≡ true
      → Of node
      → Inv s
      → Inv (resolve_file fs import_paths workspace_path node is s).symbols
  resolve_file-Keeps node is s k m h =
      elim (Result-cases (extract_file_path fs node.display_name import_paths workspace_path)) [
        | inl e ↦ rw (resolve_file_thrown fs import_paths workspace_path node is s e) h
        | inr (file, e) ↦
            let cleared = keeps.clear node file s k m e h in
            let located = keeps.locate_file node file (clear_file file s) k m e cleared in
            let kept =
              resolve_identifiers-Keeps node file is
                (add_location node.id file first_position (clear_file file s)) k m e located in
            rw (resolve_file_found fs import_paths workspace_path node file is s e) kept
      ]

  resolve_symbol-Keeps :
      (node : Node) (info : Option SourceInfo) (s : Symbols)
      → node.is_file ≡ false
      → Of node
      → Inv s
      → Inv (resolve_symbol fs import_paths workspace_path node info s).symbols
  resolve_symbol-Keeps node none s k m h =
      rw (resolve_symbol_no_info fs import_paths workspace_path node s) h
  resolve_symbol-Keeps node (some i) s k m h =
      elim (Result-cases (extract_file_path fs node.display_name import_paths workspace_path)) [
        | inl e ↦ rw (resolve_symbol_thrown fs import_paths workspace_path node (some i) s e) h
        | inr (file, e) ↦
            elim (Result-cases
              (range_in_file fs import_paths workspace_path file i.start_byte i.end_byte)) [
                | inl r ↦
                    rw (resolve_symbol_no_range fs import_paths workspace_path node file i s e r) h
                | inr (range, r) ↦
                    rw (resolve_symbol_found fs import_paths workspace_path node file i range s e r)
                      (keeps.locate node file i.start_byte i.end_byte range s k m e r h)
              ]
      ]

  resolve_node-Keeps :
      (files : HashMap ℕ (List Identifier)) (infos : HashMap ℕ SourceInfo) (node : Node)
      (s : Symbols)
      → Of node
      → Inv s
      → Inv (resolve_node fs import_paths workspace_path files infos node s).symbols
  resolve_node-Keeps files infos node s m h = elim (Bool-cases node.is_file) [
    | inl file ↦ elim (Option-cases (find node.id files)) [
      | inl e ↦
          rw
            (resolve_node_skipped fs import_paths workspace_path files infos node s (inl (file, e)))
            h
      | inr (is, e) ↦
          rw (resolve_node_file fs import_paths workspace_path files infos node is s file e)
            (resolve_file-Keeps node is s file m h)
    ]
    | inr symbol ↦ elim (Bool-cases (is_parameter_struct node.display_name)) [
      | inl e ↦
          rw
            (resolve_node_skipped fs import_paths workspace_path files infos node s
              (inr (symbol, e)))
            h
      | inr e ↦
          rw (resolve_node_symbol fs import_paths workspace_path files infos node s symbol e)
            (resolve_symbol-Keeps node (find node.id infos) s symbol m h)
    ]
  ]

  pub resolve_nodes-Keeps :
      (files : HashMap ℕ (List Identifier)) (infos : HashMap ℕ SourceInfo) (nodes : List Node)
      (s : Symbols)
      → AllNodes Of nodes
      → Inv s
      → Inv (resolve_nodes fs import_paths workspace_path files infos nodes s).symbols
  resolve_nodes-Keeps files infos [] s m h = unfold resolve_nodes in h
  resolve_nodes-Keeps files infos (node ∷ nodes) s m h =
      let step = resolve_node fs import_paths workspace_path files infos node s in
      let kept = resolve_node-Keeps files infos node s m.0 h in
      elim (Result-cases step.outcome) [
        | inl e ↦ rw (nodes_thrown fs import_paths workspace_path files infos node nodes s e) kept
        | inr (u, e) ↦
            rw (nodes_step fs import_paths workspace_path files infos node nodes s u e)
              (resolve_nodes-Keeps files infos nodes step.symbols m.1 kept)
      ]

  -- `resolve` keeps what each of its writes keeps, also where it stops at an exception.
  pub resolve-Keeps :
      (load : List Node → Result (Unit {0})) (request : Request) (s : Symbols)
      → AllNodes Of request.nodes
      → Inv s
      → Inv (resolve fs import_paths workspace_path load request s).1
  resolve-Keeps load request s m h = elim (Result-cases (load request.nodes)) [
    | inl e ↦ rw (resolve_thrown fs import_paths workspace_path load request s e) h
    | inr (u, e) ↦
        rw (resolve_loaded fs import_paths workspace_path load request s u e)
          (resolve_nodes-Keeps _ _ request.nodes s m h)
  ]
