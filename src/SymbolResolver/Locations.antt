-- ===== src/SymbolResolver/Locations.antt =====
-- What is in the maps of `resolve`: positions that count from one, as `handleDefinition` takes them.
use capnp_ls.Prelude.{
  ℕ, zero, suc, ◌+◌, ◌<◌, ◌≤◌, List, [], ◌∷◌, Bytes, ◌≡◌, inl, inr, Result-cases, Option-cases,
  arith, length, drop, Result, ok, HashMap, find, nat_key, bytes_key, AllEntries, upsert-AllEntries,
  erase-AllEntries, find-AllEntries,
}
use capnp_ls.LspTypes.{Position, Range}
use capnp_ls.LspTypes.Ranges.{range_key}
use capnp_ls.SymbolResolver.{Filesystem, advance, start_of_file, u32_mod, get_position_in_file}
use capnp_ls.SymbolResolver.Resolve.{
  Node, Request, Symbols, RangeMap, range_map_of, add_identifier, add_location, clear_file,
  first_position, range_in_file, resolve,
}
use capnp_ls.SymbolResolver.Positions.{step, step_room}
use capnp_ls.SymbolResolver.Induction.{Keeps, AllNodes, resolve-Keeps}
use capnp_ls.SymbolResolver.Steps.{RangeOf}

-- A line and a character from 1 on, below 2^32.
abbrev pub IsOneBased : Position → Type 0
IsOneBased p = (1 ≤ p.line) × (p.line < u32_mod) × (1 ≤ p.character) × (p.character < u32_mod)

abbrev pub IsOneBasedRange : Range → Type 0
IsOneBasedRange r = IsOneBased r.start × IsOneBased r.end

-- Every range in both maps is one-based.
abbrev pub IsOneBasedMap : RangeMap → Type 0
IsOneBasedMap = AllEntries (λ range id. IsOneBasedRange range)

pub record IsValid (s : Symbols) : Type 0 where
  pub ranges : AllEntries (λ file m. IsOneBasedMap m) s.position_to_node_id
  pub locations : AllEntries (λ id location. IsOneBasedRange location.range) s.node_location

-- No file is longer than uint32_t counts.
abbrev pub HasShortFiles : Filesystem → Type 0
HasShortFiles fs =
    (file : fs.File) (text : Bytes) → fs.read_all_text file ≡ ok text → length text + 1 < u32_mod

step-IsOneBased :
    (c : ℕ) (p : Position)
    → IsOneBased p
    → p.line + 1 < u32_mod
    → p.character + 1 < u32_mod
    → IsOneBased (step c p)
step-IsOneBased c p h l k = ground arith

advance-IsOneBased :
    (n : ℕ) (content : Bytes) (p : Position)
    → IsOneBased p
    → p.line + length content < u32_mod
    → p.character + length content < u32_mod
    → IsOneBased (advance n content p)
unfolding advance
advance-IsOneBased zero content p h l k = h
advance-IsOneBased (suc n) [] p h l k = h
advance-IsOneBased (suc n) (c ∷ cs) p h l k =
    let room = step_room c (length cs) p l k in
    advance-IsOneBased n cs (step c p) (step-IsOneBased c p h (omega arith) (omega arith)) room.0
      room.1

module _ (fs : Filesystem) (short : HasShortFiles fs) where
  start-IsOneBased :
      (n : ℕ) (file : fs.File) (text : Bytes)
      → fs.read_all_text file ≡ ok text
      → IsOneBased (advance n text start_of_file)
  start-IsOneBased n file text e =
      let room = short file text e in
      advance-IsOneBased n text start_of_file (ground arith) (omega arith) (omega arith)

  get_position-IsOneBased :
      (file_path : Bytes) (n : ℕ) (p : Position)
      → get_position_in_file fs file_path n ≡ ok p
      → IsOneBased p
  unfolding get_position_in_file advance
  get_position-IsOneBased file_path n p e = elim (Result-cases (fs.parse_path (drop 1 file_path))) [
    | inl t ↦ ground arith
    | inr (path, parses) ↦ elim (Result-cases (fs.open_file path)) [
      | inl t ↦ ground arith
      | inr (file, opens) ↦ elim (Result-cases (fs.read_all_text file)) [
        | inl t ↦ ground arith
        | inr (text, reads) ↦ ground (arith, start-IsOneBased n file text reads)
      ]
    ]
  ]

  pub range-IsOneBased :
      (import_paths : List Bytes) (workspace_path file : Bytes) (a b : ℕ) (range : Range)
      → RangeOf fs import_paths workspace_path file a b range
      → IsOneBasedRange range
  unfolding range_in_file
  range-IsOneBased import_paths workspace_path file a b range e =
      elim (Result-cases (get_position_in_file fs file a)) [
        | inl t ↦ ground arith
        | inr (p, f) ↦ elim (Result-cases (get_position_in_file fs file b)) [
          | inl t ↦ ground arith
          | inr (q, g) ↦
              ground (arith, get_position-IsOneBased file a p f, get_position-IsOneBased file b q g)
        ]
      ]

  range_map-IsOneBasedMap :
      (file : Bytes) (m : HashMap Bytes RangeMap)
      → AllEntries (λ file m. IsOneBasedMap m) m
      → IsOneBasedMap (range_map_of (find file m))
  range_map-IsOneBasedMap file m h = elim (Option-cases (find file m)) [
    | inl e ↦ rw e tt
    | inr (found, e) ↦ rw e (find-AllEntries (λ file m. IsOneBasedMap m) file found m h e)
  ]

  add_identifier-IsValid :
      (file : Bytes) (range : Range) (type_id : ℕ) (s : Symbols)
      → IsOneBasedRange range
      → IsValid s
      → IsValid (add_identifier file range type_id s)
  unfolding add_identifier
  add_identifier-IsValid file range type_id s r h = record {
    ranges =
        upsert-AllEntries (λ file m. IsOneBasedMap m) file _ s.position_to_node_id
          (upsert-AllEntries (λ range id. IsOneBasedRange range) range type_id _ r
            (range_map-IsOneBasedMap file s.position_to_node_id h.ranges))
          h.ranges;
    locations = h.locations;
  }

  add_location-IsValid :
      (id : ℕ) (file : Bytes) (range : Range) (s : Symbols)
      → IsOneBasedRange range
      → IsValid s
      → IsValid (add_location id file range s)
  unfolding add_location
  add_location-IsValid id file range s r h = record {
    ranges = h.ranges;
    locations =
        upsert-AllEntries (λ id location. IsOneBasedRange location.range) id _ s.node_location r
          h.locations;
  }

  clear_file-IsValid : (file : Bytes) (s : Symbols) → IsValid s → IsValid (clear_file file s)
  unfolding clear_file
  clear_file-IsValid file s h = record {
    ranges = erase-AllEntries (λ file m. IsOneBasedMap m) file s.position_to_node_id h.ranges;
    locations = h.locations;
  }

  any_node : (nodes : List Node) → AllNodes (λ node. Unit) nodes
  any_node [] = tt
  any_node (node ∷ nodes) = (tt, any_node nodes)

  module _ (import_paths : List Bytes) (workspace_path : Bytes) where
    keeps-IsValid : Keeps fs import_paths workspace_path (λ node. Unit) IsValid
    keeps-IsValid = record {
      clear = λ node file s k m f h. clear_file-IsValid file s h;
      locate_file = λ node file s k m f h.
          add_location-IsValid node.id file first_position s (ground arith) h;
      locate = λ node file a b range s k m f r h.
          add_location-IsValid node.id file range s
            (range-IsOneBased import_paths workspace_path file a b range r) h;
      identify = λ node file a b range type_id s k m f r h.
          add_identifier-IsValid file range type_id s
            (range-IsOneBased import_paths workspace_path file a b range r) h;
    }

    -- Where no file is longer than 2^32 - 2 bytes, `resolve` keeps every line and character in both
    -- maps between 1 and 2^32 - 1, also where it stops at an exception: the `- 1` of
    -- `handleDefinition` does not wrap.
    pub resolve-IsValid :
        (load : List Node → Result (Unit {0})) (request : Request) (s : Symbols)
        → IsValid s
        → IsValid (resolve fs import_paths workspace_path load request s).1
    resolve-IsValid load request s h =
        resolve-Keeps fs import_paths workspace_path (λ node. Unit) IsValid keeps-IsValid load
          request s (any_node request.nodes) h
