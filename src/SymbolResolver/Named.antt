-- ===== src/SymbolResolver/Named.antt =====
-- What a request says of a position in a file, and what the maps lead to behind `resolve`.
use capnp_ls.Prelude.{
  ℕ, List, [], ◌∷◌, ◌++◌, some, Bytes, Bool, true, false, ◌≡◌, subst, Result, find, nat_key,
  bytes_key,
}
use capnp_ls.LspTypes.{Range, Location}
use capnp_ls.SymbolResolver.{Filesystem}
use capnp_ls.SymbolResolver.Resolve.{
  Identifier, Node, SourceInfo, Request, Symbols, file_infos, source_infos, is_parameter_struct,
  resolve,
}
use capnp_ls.SymbolResolver.Steps.{FileOf, RangeOf}
use capnp_ls.SymbolResolver.Induction.{AllNodes}
use capnp_ls.SymbolResolver.Files.{location_of, IsElsewhere, IsOther}
use capnp_ls.SymbolResolver.Indexed.{AllName, SomeName, AllLead, Leads}
use capnp_ls.SymbolResolver.Requested.{resolve-Leads, resolve-located}

module _ (fs : Filesystem) (import_paths : List Bytes) (workspace_path : Bytes)
    (request : Request) where
  -- A file node for the file and no later one for it: one of its identifiers has a range that passes
  -- the test, and every one with such a range names the node `id`.
  pub record Names (file : Bytes) (holds : Range → Bool) (id : ℕ) : Type 0 where
    pub before : List Node
    pub node : Node
    pub after : List Node
    pub among : request.nodes ≡ before ++ (node ∷ after)
    pub of_file : node.is_file ≡ true
    pub found : FileOf fs import_paths workspace_path node file
    pub last : AllNodes (IsElsewhere fs import_paths workspace_path file) after
    pub identifiers : List Identifier
    pub listed : find node.id (file_infos request.requested_files []) ≡ some identifiers
    pub range : Range
    pub passes : holds range ≡ true
    pub some_name : SomeName fs import_paths workspace_path file holds id range identifiers
    pub all_name : AllName fs import_paths workspace_path file holds id identifiers

  -- A node that is neither a file nor the parameters or results of a method, no later one with its
  -- id, and the place of its declaration.
  pub record Declares (id : ℕ) (location : Location) : Type 0 where
    pub before : List Node
    pub node : Node
    pub after : List Node
    pub among : request.nodes ≡ before ++ (node ∷ after)
    pub same_id : node.id ≡ id
    pub of_symbol : node.is_file ≡ false
    pub no_parameters : is_parameter_struct node.display_name ≡ false
    pub found : FileOf fs import_paths workspace_path node location.uri
    pub last : AllNodes (IsOther node.id) after
    pub info : SourceInfo
    pub listed : find node.id (source_infos request.source_info []) ≡ some info
    pub ranged :
        RangeOf fs import_paths workspace_path location.uri info.start_byte info.end_byte
          location.range

  module _ (load : List Node → Result (Unit {0})) (s : Symbols)
      (resolves : (resolve fs import_paths workspace_path load request s).0 ≡ 0) where
    pub resolve-Names :
        (file : Bytes) (holds : Range → Bool) (id : ℕ) (n : Names file holds id)
        → Leads fs import_paths workspace_path file holds id n.range
            (resolve fs import_paths workspace_path load request s).1
          × AllLead fs import_paths workspace_path file holds id
              (resolve fs import_paths workspace_path load request s).1
    resolve-Names file holds id n =
        resolve-Leads fs import_paths workspace_path load request s resolves n.before n.after n.node
          file n.among n.found holds id n.range n.identifiers n.of_file n.listed n.last n.passes
          n.all_name n.some_name

    pub resolve-Declares :
        (id : ℕ) (location : Location)
        → Declares id location
        → location_of id (resolve fs import_paths workspace_path load request s).1 ≡ some location
    resolve-Declares id location d =
        subst
          (λ i.
            location_of i (resolve fs import_paths workspace_path load request s).1 ≡ some location)
          d.same_id
          (resolve-located fs import_paths workspace_path load request s resolves d.before d.after
            d.node location.uri d.among d.found d.info location.range d.of_symbol d.no_parameters
            d.listed d.ranged d.last)
