-- ===== src/SymbolResolver/Indexed.antt =====
-- What a file's identifiers leave in the map of its ranges.
use capnp_ls.Prelude.{
  ℕ, List, [], ◌∷◌, some, Bytes, Bool, true, false, ◌≡◌, ◌⊎◌, inl, inr, Bool-cases, Result-cases,
  refl, sym, ap, subst, ◌∙◌, Result, ok, thrown, ◌≢◌, find, upsert, same_refl, nat_key, bytes_key,
  AllEntries, upsert-AllEntries, find-upsert,
}
use capnp_ls.LspTypes.{Range, range_eq}
use capnp_ls.LspTypes.Ranges.{range_key, range_eq_iff}
use capnp_ls.SymbolResolver.{Filesystem}
use capnp_ls.SymbolResolver.Resolve.{
  Identifier, Node, Symbols, RangeMap, range_map_of, add_identifier, add_location, clear_file,
  first_position, range_in_file, resolve_identifiers, resolve_file,
}
use capnp_ls.SymbolResolver.Steps.{
  FileOf, RangeOf, identifiers_step, identifiers_thrown, resolve_file_found,
}
use capnp_ls.SymbolResolver.Files.{symbols_of, symbols_of-add_identifier, cleared}

-- The ranges of a file, none where the map has no entry.
abbrev pub ranges_of : Bytes → Symbols → RangeMap
ranges_of file s = range_map_of (symbols_of file s)

pub ranges_of-add_identifier :
    (file : Bytes) (range : Range) (id : ℕ) (s : Symbols)
    → ranges_of file (add_identifier file range id s) ≡ upsert range id (ranges_of file s)
ranges_of-add_identifier file range id s =
    let entry : symbols_of file (add_identifier file range id s)
        ≡ some (upsert range id (ranges_of file s)) =
      symbols_of-add_identifier file file range id s ∙ rw (same_refl file) refl in
    ap range_map_of entry

true_not_false : true ≢ false
true_not_false e = cc

pub thrown_not_ok : {A : Type 0} (a : A) → thrown ≢ ok a
thrown_not_ok a e = cc

same_result : {A : Type 0} {r : Result A} {a b : A} → r ≡ ok a → r ≡ ok b → a ≡ b
same_result e f = cc

module _ (fs : Filesystem) (import_paths : List Bytes) (workspace_path : Bytes) (file : Bytes)
    (holds : Range → Bool) (id : ℕ) where
  -- Every identifier whose range the test accepts names the node `id`.
  abbrev pub AllName : List Identifier → Type 0
  AllName [] = Unit
  AllName (i ∷ is) =
      ((r : Range)
        → RangeOf fs import_paths workspace_path file i.start_byte i.end_byte r
        → holds r ≡ true
        → i.type_id ≡ id)
      × AllName is

  -- Some identifier with this range names the node.
  abbrev pub SomeName : Range → List Identifier → Type 0
  SomeName range [] = ⊥
  SomeName range (i ∷ is) =
      (RangeOf fs import_paths workspace_path file i.start_byte i.end_byte range × (i.type_id ≡ id))
      ⊎ SomeName range is

  abbrev pub AllLead : Symbols → Type 0
  AllLead s = AllEntries (λ r j. holds r ≡ true → j ≡ id) (ranges_of file s)

  abbrev pub Leads : Range → Symbols → Type 0
  Leads range s = find range (ranges_of file s) ≡ some id

  identifiers-AllLead :
      (is : List Identifier) (s : Symbols)
      → AllName is
      → AllLead s
      → AllLead (resolve_identifiers fs import_paths workspace_path file is s).symbols
  identifiers-AllLead [] s n h = unfold resolve_identifiers in h
  identifiers-AllLead (i ∷ is) s n h =
      elim (Result-cases
        (range_in_file fs import_paths workspace_path file i.start_byte i.end_byte)) [
          | inl e ↦ rw (identifiers_thrown fs import_paths workspace_path file i is s e) h
          | inr (range, e) ↦
              rw (identifiers_step fs import_paths workspace_path file i is s range e) (
                identifiers-AllLead is (add_identifier file range i.type_id s) n.1 (
                  subst (AllEntries (λ r j. holds r ≡ true → j ≡ id))
                    (sym (ranges_of-add_identifier file range i.type_id s))
                    (upsert-AllEntries (λ r j. holds r ≡ true → j ≡ id) range i.type_id
                      (ranges_of file s) (n.0 range e) h)))
        ]

  add-Leads :
      (range r : Range) (j : ℕ) (s : Symbols)
      → (r ≡ range → j ≡ id)
      → Leads range s ⊎ (r ≡ range)
      → Leads range (add_identifier file r j s)
  add-Leads range r j s names h =
      ap (find range) (ranges_of-add_identifier file r j s)
      ∙ find-upsert r range j (ranges_of file s)
      ∙ elim (Bool-cases (range_eq r range)) [
        | inl e ↦ rw e (ap some (names ((range_eq_iff r range).0 e)))
        | inr e ↦ rw e (elim h [
          | inl old ↦ old
          | inr new ↦ absurd (true_not_false (sym ((range_eq_iff r range).1 new) ∙ e))
        ])
      ]

  -- The map leads from the range to the node once an identifier with the range was read.
  identifiers-Leads :
      (range : Range) (is : List Identifier) (s : Symbols)
      → holds range ≡ true
      → AllName is
      → (resolve_identifiers fs import_paths workspace_path file is s).outcome ≡ ok tt
      → Leads range s ⊎ SomeName range is
      → Leads range (resolve_identifiers fs import_paths workspace_path file is s).symbols
  identifiers-Leads range [] s h n o (inl l) = unfold resolve_identifiers in l
  identifiers-Leads range [] s h n o (inr none_left) = elim none_left [ ]
  identifiers-Leads range (i ∷ is) s h n o l =
      elim (Result-cases
        (range_in_file fs import_paths workspace_path file i.start_byte i.end_byte)) [
          | inl e ↦ absurd (
              thrown_not_ok tt (
                sym (
                  ap (λ step. step.outcome)
                    (identifiers_thrown fs import_paths workspace_path file i is s e))
                ∙ o))
          | inr (r, e) ↦
              (let step = identifiers_step fs import_paths workspace_path file i is s r e in
                let names : r ≡ range → i.type_id ≡ id = λ q. n.0 r e (ap holds q ∙ h) in
                rw step (
                  identifiers-Leads range is (add_identifier file r i.type_id s) h n.1
                    (sym (ap (λ t. t.outcome) step) ∙ o)
                    (elim l [
                      | inl old ↦ inl (add-Leads range r i.type_id s names (inl old))
                      | inr (inl (e', t)) ↦
                          inl (add-Leads range r i.type_id s names (inr (same_result e e')))
                      | inr (inr more) ↦ inr more
                    ])))
        ]

  -- The file node of the file, read without an exception.
  pub resolve_file-Leads :
      (node : Node) (range : Range) (is : List Identifier) (s : Symbols)
      → FileOf fs import_paths workspace_path node file
      → holds range ≡ true
      → AllName is
      → SomeName range is
      → (resolve_file fs import_paths workspace_path node is s).outcome ≡ ok tt
      → Leads range (resolve_file fs import_paths workspace_path node is s).symbols
        × AllLead (resolve_file fs import_paths workspace_path node is s).symbols
  resolve_file-Leads node range is s f h n some_name o =
      let start = add_location node.id file first_position (clear_file file s) in
      let found = resolve_file_found fs import_paths workspace_path node file is s f in
      let nothing : AllLead start =
        subst (AllEntries (λ r j. holds r ≡ true → j ≡ id))
          (sym (ap range_map_of (cleared node.id file s))) tt in
      rw found (
        identifiers-Leads range is start h n (sym (ap (λ t. t.outcome) found) ∙ o) (inr some_name),
        identifiers-AllLead is start n nothing,
      )
