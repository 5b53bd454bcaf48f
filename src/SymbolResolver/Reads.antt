-- ===== src/SymbolResolver/Reads.antt =====
-- Where a request that resolves reads one of its nodes.
use capnp_ls.Prelude.{
  ℕ, List, [], ◌∷◌, ◌++◌, Bytes, ◌≡◌, inl, inr, Result-cases, sym, ap, ◌∙◌, arith, Result, ok,
  thrown, HashMap, nat_key, bytes_key,
}
use capnp_ls.LspTypes.Ranges.{range_key}
use capnp_ls.SymbolResolver.{Filesystem}
use capnp_ls.SymbolResolver.Resolve.{
  Identifier, Node, SourceInfo, Request, Symbols, file_infos, source_infos, resolve_node,
  resolve_nodes, resolve,
}
use capnp_ls.SymbolResolver.Steps.{nodes_step, nodes_thrown, resolve_loaded, resolve_thrown}
use capnp_ls.SymbolResolver.Indexed.{thrown_not_ok}

module _ (fs : Filesystem) (import_paths : List Bytes) (workspace_path : Bytes) where
  module _ (files : HashMap ℕ (List Identifier)) (infos : HashMap ℕ SourceInfo) where
    -- Where no node throws, a node is read in the state that those before it leave, and those behind
    -- it go on from there.
    pub nodes_split :
        (before after : List Node) (node : Node) (s : Symbols)
        → (resolve_nodes fs import_paths workspace_path files infos
            (before ++ (node ∷ after))
            s).outcome
          ≡ ok tt
        → (t : Symbols) × ((resolve_node fs import_paths workspace_path files infos node t).outcome
            ≡ ok tt)
          × ((resolve_nodes fs import_paths workspace_path files infos
                (before ++ (node ∷ after))
                s).symbols
              ≡ (resolve_nodes fs import_paths workspace_path files infos after
                  (resolve_node fs import_paths workspace_path files infos node t).symbols).symbols)
    nodes_split [] after node s o =
        elim (Result-cases
          (resolve_node fs import_paths workspace_path files infos node s).outcome) [
            | inl e ↦ absurd (
                thrown_not_ok tt (
                  sym (
                    ap (λ step. step.outcome)
                      (nodes_thrown fs import_paths workspace_path files infos node after s e)
                    ∙ e)
                  ∙ o))
            | inr (u, e) ↦ (
              s,
              e,
              ap (λ step. step.symbols)
                  (nodes_step fs import_paths workspace_path files infos node after s u e),
            )
          ]
    nodes_split (first ∷ before) after node s o =
        elim (Result-cases
          (resolve_node fs import_paths workspace_path files infos first s).outcome) [
            | inl e ↦ absurd (
                thrown_not_ok tt (
                  sym (
                    ap (λ step. step.outcome)
                      (nodes_thrown fs import_paths workspace_path files infos first
                        (before ++ (node ∷ after)) s e)
                    ∙ e)
                  ∙ o))
            | inr (u, e) ↦
                (let step =
                    nodes_step fs import_paths workspace_path files infos first
                      (before ++ (node ∷ after)) s u e in
                  let (t, goes, same) =
                    nodes_split before after node
                      (resolve_node fs import_paths workspace_path files infos first s).symbols
                      (sym (ap (λ r. r.outcome) step) ∙ o) in
                  (t, goes, ap (λ r. r.symbols) step ∙ same))
          ]

  resolve_stopped :
      (load : List Node → Result (Unit {0})) (request : Request) (s : Symbols) (u : Unit {0})
      → load request.nodes ≡ ok u
      → (resolve_nodes fs import_paths workspace_path
          (file_infos request.requested_files [])
          (source_infos request.source_info [])
          request.nodes
          s).outcome
        ≡ thrown
      → (resolve fs import_paths workspace_path load request s).0 ≡ 1
  unfolding resolve
  resolve_stopped load request s u e f = ground arith

  -- A request that resolves reads all of its nodes.
  pub resolve_reads :
      (load : List Node → Result (Unit {0})) (request : Request) (s : Symbols)
      → (resolve fs import_paths workspace_path load request s).0 ≡ 0
      → ((resolve_nodes fs import_paths workspace_path
            (file_infos request.requested_files [])
            (source_infos request.source_info [])
            request.nodes
            s).outcome
          ≡ ok tt)
        × ((resolve fs import_paths workspace_path load request s).1
            ≡ (resolve_nodes fs import_paths workspace_path
                (file_infos request.requested_files [])
                (source_infos request.source_info [])
                request.nodes
                s).symbols)
  resolve_reads load request s z = elim (Result-cases (load request.nodes)) [
    | inl e ↦ absurd (
        omega (
          arith,
          z,
          ap (λ r. r.0) (resolve_thrown fs import_paths workspace_path load request s e),
        ))
    | inr (u, e) ↦
        elim (Result-cases
          (resolve_nodes fs import_paths workspace_path (file_infos request.requested_files [])
            (source_infos request.source_info []) request.nodes s).outcome) [
              | inl f ↦ absurd (omega (arith, z, resolve_stopped load request s u e f))
              | inr (v, f) ↦ (f, resolve_loaded fs import_paths workspace_path load request s u e)
            ]
  ]
