-- ===== src/SymbolResolver/Files.antt =====
-- What `resolve` leaves alone, and what it forgets: the entries of other files and nodes stay, those
-- of a file that it reads again are made anew.
use capnp_ls.Prelude.{
  ℕ, List, [], ◌∷◌, Option, none, some, Bytes, ◌≡◌, ◌≢◌, inl, inr, true, false, if◌then◌else◌,
  Bool-cases, Result-cases, refl, sym, ap, subst, ◌∙◌, arith, Result, find, upsert, nat_key,
  bytes_key, same_refl, find-upsert, find-erase, ◌==◌, same, same_iff,
}
use capnp_ls.LspTypes.{Range, Location}
use capnp_ls.LspTypes.Ranges.{range_key}
use capnp_ls.SymbolResolver.{Filesystem}
use capnp_ls.SymbolResolver.Resolve.{
  Identifier, Node, Request, Symbols, RangeMap, range_map_of, add_identifier, add_location,
  clear_file, first_position, range_in_file, resolve_identifiers, resolve_file, resolve,
}
use capnp_ls.SymbolResolver.Induction.{Keeps, AllNodes, resolve-Keeps}
use capnp_ls.SymbolResolver.Steps.{FileOf, resolve_file_found, identifiers_step, identifiers_thrown}

-- The entry of a file in the first map, of a node in the second.
abbrev pub symbols_of : Bytes → Symbols → Option RangeMap
symbols_of file s = find file s.position_to_node_id

abbrev pub location_of : ℕ → Symbols → Option Location
location_of id s = find id s.node_location

pub symbols_of-add_identifier :
    (file g : Bytes) (range : Range) (type_id : ℕ) (s : Symbols)
    → symbols_of g (add_identifier file range type_id s) ≡ (
        if same file g
        then some (upsert range type_id (range_map_of (symbols_of file s)))
        else symbols_of g s)
unfolding add_identifier
symbols_of-add_identifier file g range type_id s = find-upsert file g _ s.position_to_node_id

pub symbols_of-add_location :
    (id : ℕ) (file g : Bytes) (range : Range) (s : Symbols)
    → symbols_of g (add_location id file range s) ≡ symbols_of g s
unfolding add_location
symbols_of-add_location id file g range s = refl

symbols_of-clear_file :
    (file g : Bytes) (s : Symbols)
    → symbols_of g (clear_file file s) ≡ (if same file g then none else symbols_of g s)
unfolding clear_file
symbols_of-clear_file file g s = find-erase file g s.position_to_node_id

location_of-add_identifier :
    (id : ℕ) (file : Bytes) (range : Range) (type_id : ℕ) (s : Symbols)
    → location_of id (add_identifier file range type_id s) ≡ location_of id s
unfolding add_identifier
location_of-add_identifier id file range type_id s = refl

pub location_of-add_location :
    (id j : ℕ) (file : Bytes) (range : Range) (s : Symbols)
    → location_of j (add_location id file range s)
      ≡ (if id == j then some (record { uri = file; range = range }) else location_of j s)
unfolding add_location
location_of-add_location id j file range s = find-upsert id j _ s.node_location

location_of-clear_file :
    (id : ℕ) (file : Bytes) (s : Symbols) → location_of id (clear_file file s) ≡ location_of id s
unfolding clear_file
location_of-clear_file id file s = refl

pub cleared :
    (id : ℕ) (file : Bytes) (s : Symbols)
    → symbols_of file (add_location id file first_position (clear_file file s)) ≡ none
cleared id file s = ground (
  arith,
  symbols_of-add_location id file file first_position (clear_file file s),
  symbols_of-clear_file file file s,
  same_refl file,
)

abbrev pub IsOther : ℕ → Node → Type 0
IsOther id node = node.id ≢ id

module _ (fs : Filesystem) (import_paths : List Bytes) (workspace_path : Bytes) where
  -- The node is not the file node of the file.
  abbrev pub IsElsewhere : Bytes → Node → Type 0
  IsElsewhere g node = node.is_file ≡ true → ¬ (FileOf fs import_paths workspace_path node g)

  module _ (g : Bytes) (before : Symbols) where
    abbrev pub SameSymbols : Symbols → Type 0
    SameSymbols s = symbols_of g s ≡ symbols_of g before

    other :
        (node : Node) (file : Bytes)
        → node.is_file ≡ true
        → IsElsewhere g node
        → FileOf fs import_paths workspace_path node file
        → same file g ≡ false
    other node file k m f = elim (Bool-cases (same file g)) [
      | inl e ↦ absurd (
          m k (subst (λ x. FileOf fs import_paths workspace_path node x) ((same_iff file g).0 e) f))
      | inr e ↦ e
    ]

    pub keeps-SameSymbols : Keeps fs import_paths workspace_path (IsElsewhere g) SameSymbols
    keeps-SameSymbols = record {
      clear = λ node file s k m f h.
          ground (arith, symbols_of-clear_file file g s, other node file k m f);
      locate_file =
          λ node file s k m f h. symbols_of-add_location node.id file g first_position s ∙ h;
      locate =
          λ node file a b range s k m f r h. symbols_of-add_location node.id file g range s ∙ h;
      identify = λ node file a b range type_id s k m f r h.
          ground (arith, symbols_of-add_identifier file g range type_id s, other node file k m f);
    }

    -- A file that is not the file of a file node of the request keeps its ranges and their nodes.
    pub resolve-symbols_of :
        (load : List Node → Result (Unit {0})) (request : Request)
        → AllNodes (IsElsewhere g) request.nodes
        → symbols_of g (resolve fs import_paths workspace_path load request before).1
          ≡ symbols_of g before
    resolve-symbols_of load request m =
        resolve-Keeps fs import_paths workspace_path (IsElsewhere g) SameSymbols keeps-SameSymbols
          load request before m refl

  module _ (id : ℕ) (before : Symbols) where
    abbrev pub SameLocation : Symbols → Type 0
    SameLocation s = location_of id s ≡ location_of id before

    pub keeps-SameLocation : Keeps fs import_paths workspace_path (IsOther id) SameLocation
    keeps-SameLocation = record {
      clear = λ node file s k m f h. location_of-clear_file id file s ∙ h;
      locate_file = λ node file s k m f h.
          ground (arith, location_of-add_location node.id id file first_position s, m);
      locate = λ node file a b range s k m f r h.
          ground (arith, location_of-add_location node.id id file range s, m);
      identify = λ node file a b range type_id s k m f r h.
          location_of-add_identifier id file range type_id s ∙ h;
    }

    -- A node whose id is that of no node of the request keeps its location, or its lack of one.
    pub resolve-location_of :
        (load : List Node → Result (Unit {0})) (request : Request)
        → AllNodes (IsOther id) request.nodes
        → location_of id (resolve fs import_paths workspace_path load request before).1
          ≡ location_of id before
    resolve-location_of load request m =
        resolve-Keeps fs import_paths workspace_path (IsOther id) SameLocation keeps-SameLocation
          load request before m refl

  -- What the identifiers of a file write for it depends on its own entry only.
  identifiers-symbols_of :
      (file : Bytes) (is : List Identifier) (s t : Symbols)
      → symbols_of file s ≡ symbols_of file t
      → symbols_of file (resolve_identifiers fs import_paths workspace_path file is s).symbols
        ≡ symbols_of file (resolve_identifiers fs import_paths workspace_path file is t).symbols
  identifiers-symbols_of file [] s t e = unfold resolve_identifiers in e
  identifiers-symbols_of file (i ∷ is) s t e =
      elim (Result-cases
        (range_in_file fs import_paths workspace_path file i.start_byte i.end_byte)) [
          | inl r ↦
              rw
                (
                  identifiers_thrown fs import_paths workspace_path file i is s r,
                  identifiers_thrown fs import_paths workspace_path file i is t r,
                )
                e
          | inr (range, r) ↦
              rw
                (
                  identifiers_step fs import_paths workspace_path file i is s range r,
                  identifiers_step fs import_paths workspace_path file i is t range r,
                )
                (identifiers-symbols_of file is (add_identifier file range i.type_id s)
                  (add_identifier file range i.type_id t)
                  (symbols_of-add_identifier file file range i.type_id s
                    ∙ (ap
                          (λ m.
                            if same file file
                            then some (upsert range i.type_id (range_map_of m))
                            else m)
                          e
                        ∙ sym (symbols_of-add_identifier file file range i.type_id t))))
        ]

  -- Where the file of a node is found, what its identifiers leave for it does not depend on what
  -- earlier compilations left in the maps.
  pub resolve_file-symbols_of :
      (node : Node) (file : Bytes) (is : List Identifier) (s t : Symbols)
      → FileOf fs import_paths workspace_path node file
      → symbols_of file (resolve_file fs import_paths workspace_path node is s).symbols
        ≡ symbols_of file (resolve_file fs import_paths workspace_path node is t).symbols
  resolve_file-symbols_of node file is s t f =
      rw
        (
          resolve_file_found fs import_paths workspace_path node file is s f,
          resolve_file_found fs import_paths workspace_path node file is t f,
        )
        (identifiers-symbols_of file is _ _ (cleared node.id file s ∙ sym (cleared node.id file t)))
