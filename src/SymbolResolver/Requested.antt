-- ===== src/SymbolResolver/Requested.antt =====
-- What a request that resolves leaves of one of its files and of one of its nodes.
use capnp_ls.Prelude.{
  ℕ, List, [], ◌∷◌, ◌++◌, some, Bytes, Bool, true, false, ◌≡◌, refl, sym, ap, subst, ◌∙◌, arith,
  Result, ok, find, nat_key, bytes_key, AllEntries,
}
use capnp_ls.LspTypes.{Range}
use capnp_ls.LspTypes.Ranges.{range_key}
use capnp_ls.SymbolResolver.{Filesystem}
use capnp_ls.SymbolResolver.Resolve.{
  Step, range_map_of, Identifier, Node, SourceInfo, Request, Symbols, file_infos, source_infos,
  is_parameter_struct, add_location, resolve_node, resolve_nodes, resolve, resolve_file,
  resolve_symbol,
}
use capnp_ls.SymbolResolver.Steps.{
  FileOf, RangeOf, resolve_node_file, resolve_node_symbol, resolve_symbol_found,
}
use capnp_ls.SymbolResolver.Induction.{AllNodes, resolve_nodes-Keeps}
use capnp_ls.SymbolResolver.Files.{
  symbols_of, location_of, SameSymbols, IsElsewhere, keeps-SameSymbols, SameLocation, IsOther,
  keeps-SameLocation, location_of-add_location,
}
use capnp_ls.SymbolResolver.Indexed.{AllName, SomeName, AllLead, Leads, resolve_file-Leads}
use capnp_ls.SymbolResolver.Reads.{nodes_split, resolve_reads}

module _ (fs : Filesystem) (import_paths : List Bytes) (workspace_path : Bytes) where
  module _ (load : List Node → Result (Unit {0})) (request : Request) (s : Symbols)
      (resolves : (resolve fs import_paths workspace_path load request s).0 ≡ 0)
      (before after : List Node) (node : Node) (file : Bytes)
      (among : request.nodes ≡ before ++ (node ∷ after))
      (found : FileOf fs import_paths workspace_path node file) where
    abbrev pub final : Symbols
    final = (resolve fs import_paths workspace_path load request s).1

    -- The node in the state that it is read in, and the final state from there.
    node_read :
        (t : Symbols) × ((resolve_node fs import_paths workspace_path
            (file_infos request.requested_files [])
            (source_infos request.source_info [])
            node
            t).outcome
          ≡ ok tt)
        × (final
            ≡ (resolve_nodes fs import_paths workspace_path
                (file_infos request.requested_files [])
                (source_infos request.source_info [])
                after
                (resolve_node fs import_paths workspace_path
                  (file_infos request.requested_files [])
                  (source_infos request.source_info [])
                  node
                  t).symbols).symbols)
    node_read =
        let reads = resolve_reads fs import_paths workspace_path load request s resolves in
        let all : List Node → Step = λ ns.
          resolve_nodes fs import_paths workspace_path (file_infos request.requested_files [])
            (source_infos request.source_info []) ns s in
        let (t, goes, same) =
          nodes_split fs import_paths workspace_path (file_infos request.requested_files [])
            (source_infos request.source_info []) before after node s
            (sym (ap (λ ns. (all ns).outcome) among) ∙ reads.0) in
        (t, goes, reads.1 ∙ (ap (λ ns. (all ns).symbols) among ∙ same))

    -- The identifiers of a file node.
    pub resolve-Leads :
        (holds : Range → Bool) (id : ℕ) (range : Range) (is : List Identifier)
        → node.is_file ≡ true
        → find node.id (file_infos request.requested_files []) ≡ some is
        → AllNodes (IsElsewhere fs import_paths workspace_path file) after
        → holds range ≡ true
        → AllName fs import_paths workspace_path file holds id is
        → SomeName fs import_paths workspace_path file holds id range is
        → Leads fs import_paths workspace_path file holds id range final
          × AllLead fs import_paths workspace_path file holds id final
    resolve-Leads holds id range is k f elsewhere h names some_name =
        let (t, goes, same) = node_read in
        let read =
          resolve_node_file fs import_paths workspace_path (file_infos request.requested_files [])
            (source_infos request.source_info []) node is t k f in
        let (leads, all_lead) =
          resolve_file-Leads fs import_paths workspace_path file holds id node range is t found h
            names some_name (sym (ap (λ step. step.outcome) read) ∙ goes) in
        let u =
          (resolve_node fs import_paths workspace_path (file_infos request.requested_files [])
            (source_infos request.source_info []) node t).symbols in
        let kept : symbols_of file final
            ≡ symbols_of file (resolve_file fs import_paths workspace_path node is t).symbols =
          ap (symbols_of file) same
          ∙ resolve_nodes-Keeps fs import_paths workspace_path
              (IsElsewhere fs import_paths workspace_path file)
              (SameSymbols fs import_paths workspace_path file u)
              (keeps-SameSymbols fs import_paths workspace_path file u)
              (file_infos request.requested_files []) (source_infos request.source_info []) after u
              elsewhere refl
          ∙ ap (λ step. symbols_of file step.symbols) read in
        (
          ap (λ m. find range (range_map_of m)) kept ∙ leads,
          subst (λ m. AllEntries (λ r j. holds r ≡ true → j ≡ id) (range_map_of m)) (sym kept)
              all_lead,
        )

    -- The location of another node.
    pub resolve-located :
        (info : SourceInfo) (range : Range)
        → node.is_file ≡ false
        → is_parameter_struct node.display_name ≡ false
        → find node.id (source_infos request.source_info []) ≡ some info
        → RangeOf fs import_paths workspace_path file info.start_byte info.end_byte range
        → AllNodes (IsOther node.id) after
        → location_of node.id final ≡ some (record { uri = file; range = range })
    resolve-located info range k p f r others =
        let (t, goes, same) = node_read in
        let u =
          (resolve_node fs import_paths workspace_path (file_infos request.requested_files [])
            (source_infos request.source_info []) node t).symbols in
        let read : u ≡ add_location node.id file range t =
          ap (λ step. step.symbols)
            (resolve_node_symbol fs import_paths workspace_path
                (file_infos request.requested_files []) (source_infos request.source_info []) node t
                k p
              ∙ (ap (λ i. resolve_symbol fs import_paths workspace_path node i t) f
                  ∙ resolve_symbol_found fs import_paths workspace_path node file info range t found
                      r)) in
        let written : location_of node.id (add_location node.id file range t)
            ≡ some (record { uri = file; range = range }) =
          ground (arith, location_of-add_location node.id node.id file range t) in
        ap (location_of node.id) same
        ∙ resolve_nodes-Keeps fs import_paths workspace_path (IsOther node.id)
            (SameLocation fs import_paths workspace_path node.id u)
            (keeps-SameLocation fs import_paths workspace_path node.id u)
            (file_infos request.requested_files []) (source_infos request.source_info []) after u
            others refl
        ∙ ap (location_of node.id) read
        ∙ written
