-- ===== src/LspMessageHandler/Orders.antt =====
-- The order in which kj's maps hold their entries, which the loop of `handleDefinition` follows.
use mathlib.Core.List.{Permᴰ}
use mathlib.Core.List.Permᴰ
use mathlib.Core.Logic.{∥∥₁_elim}
use capnp_ls.Prelude.{
  if◌then◌else◌, ℕ, Bytes, true, false, Option, none, some, [], ◌∷◌, Perm, Result-cases, thrown,
  ◌≡◌, ◌≢◌, inl, inr, refl, sym, ap, ◌∙◌, subst₂, arith, HashMap, find, nat_key, bytes_key,
  AllEntries,
}
use capnp_ls.LspTypes.{Range, Location}
use capnp_ls.Utils.{uri_to_path}
use capnp_ls.SymbolResolver.Resolve.{RangeMap, Symbols, range_map_of}
use capnp_ls.SymbolResolver.Files.{symbols_of, location_of}
use capnp_ls.SymbolResolver.Indexed.{ranges_of}
use capnp_ls.LspMessageHandler.Json.{JsonValue, Mismatch}
use capnp_ls.LspMessageHandler.Definition.{
  read_query, holds_position, find_location, location_at, definition_of, handle_definition,
}
use capnp_ls.LspMessageHandler.Search.{
  Covers, Has, Unanswered, Answers, Outcome, find_location-Outcome,
}
use capnp_ls.LspMessageHandler.Answers.{definition_read, handle_definition_value}

true_not_false : true ≢ false
true_not_false e = cc

some_not_none : {A : Type 0} {a : A} → some a ≢ none
some_not_none e = cc

Has-Permᴰ :
    {xs ys : RangeMap} (range : Range) (id : ℕ) → Permᴰ xs ys → Has range id xs → Has range id ys
Has-Permᴰ range id Permᴰ.nil h = h
Has-Permᴰ range id (Permᴰ.cons {a = (r, i)} {b = (r', i')} e p) (inl (f, g)) =
    inl (sym (ap (λ x. x.0) e) ∙ f, sym (ap (λ x. x.1) e) ∙ g)
Has-Permᴰ range id (Permᴰ.cons {a = (r, i)} {b = (r', i')} e p) (inr h) =
    inr (Has-Permᴰ range id p h)
Has-Permᴰ range id (Permᴰ.trans p q) h = Has-Permᴰ range id q (Has-Permᴰ range id p h)
Has-Permᴰ range id (Permᴰ.swap {a = (r, i)} {b = (r', i')} {a' = (q, j)} {b' = (q', j')} e f) h =
    elim h [
      | inl (g, k) ↦ inr (inl (sym (ap (λ x. x.0) e) ∙ g, sym (ap (λ x. x.1) e) ∙ k))
      | inr (inl (g, k)) ↦ inl (sym (ap (λ x. x.0) f) ∙ g, sym (ap (λ x. x.1) f) ∙ k)
      | inr (inr more) ↦ inr (inr more)
    ]

Location-IsSet : IsSet Location
Location-IsSet = hlevel

IsSet-location : IsSet (Option Location)
IsSet-location = hlevel

all-Has :
    (P : Range → ℕ → Type 0) (ranges : RangeMap) (range : Range) (id : ℕ)
    → AllEntries P ranges
    → Has range id ranges
    → P range id
all-Has P [] range id all none_left = elim none_left [ ]
all-Has P ((r, i) ∷ ranges) range id all (inl (e, f)) = subst₂ P e f all.0
all-Has P ((r, i) ∷ ranges) range id all (inr h) = all-Has P ranges range id all.1 h

Covers-holds_position :
    (range : Range) (line character : ℕ)
    → Covers range line character
    → holds_position range line character ≡ true
unfolding holds_position
Covers-holds_position range line character h = ground (arith, h.0.0, h.0.1, h.1.0, h.1.1)

module _ (line character : ℕ) (locations : HashMap ℕ Location) where
  not_both :
      (ranges : RangeMap) (location : Location)
      → Unanswered line character locations ranges
      → Answers line character locations ranges location
      → ⊥
  not_both ranges location none_holds a =
      let holds = Covers-holds_position a.range line character a.covers in
      elim (all-Has _ ranges a.range a.id none_holds a.entry) [
        | inl misses ↦ true_not_false (sym holds ∙ misses)
        | inr no_place ↦ some_not_none (sym a.located ∙ no_place)
      ]

  Answers-Permᴰ :
      {xs ys : RangeMap} (location : Location)
      → Permᴰ xs ys
      → Answers line character locations xs location
      → Answers line character locations ys location
  Answers-Permᴰ location p a = record {
    range = a.range;
    id = a.id;
    entry = Has-Permᴰ a.range a.id p a.entry;
    covers = a.covers;
    located = a.located;
  }

  -- The entries that answer agree.
  abbrev pub Agrees : RangeMap → Type 0
  Agrees ranges =
      (l l' : Location)
      → Answers line character locations ranges l
      → Answers line character locations ranges l'
      → l ≡ l'

  same-Outcome :
      {xs ys : RangeMap} (o o' : Option Location)
      → Permᴰ xs ys
      → Agrees xs
      → Outcome line character locations xs o
      → Outcome line character locations ys o'
      → o ≡ o'
  same-Outcome none none p g h k = refl
  same-Outcome {xs} {ys} none (some l') p g h k =
      absurd (not_both xs l' h (Answers-Permᴰ l' (Permᴰ.symm p) k))
  same-Outcome {xs} {ys} (some l) none p g h k = absurd (not_both ys l k (Answers-Permᴰ l p h))
  same-Outcome (some l) (some l') p g h k = ap some (g l l' h (Answers-Permᴰ l' (Permᴰ.symm p) k))

  find_location-Perm :
      (xs ys : RangeMap)
      → Perm xs ys
      → Agrees xs
      → find_location xs line character locations ≡ find_location ys line character locations
  find_location-Perm xs ys p g = ∥∥₁_elim p (IsSet-location _ _) (λ q.
      same-Outcome _ _ q g (find_location-Outcome line character locations xs)
        (find_location-Outcome line character locations ys))

find_location-locations :
    (line character : ℕ) (locations locations' : HashMap ℕ Location)
    → ((id : ℕ) → find id locations ≡ find id locations')
    → (ranges : RangeMap)
    → find_location ranges line character locations ≡ find_location ranges line character locations'
unfolding find_location
find_location-locations line character locations locations' same [] = refl
find_location-locations line character locations locations' same ((range, id) ∷ ranges) =
    rw (same id) (
      ap
        (λ later.
          if holds_position range line character
          then (elim (find id locations') [ some location ↦ some location | none ↦ later ])
          else later)
        (find_location-locations line character locations locations' same ranges))

location_at-ranges :
    (o : Option RangeMap) (line character : ℕ) (locations : HashMap ℕ Location)
    → location_at o line character locations
      ≡ find_location (range_map_of o) line character locations
unfolding location_at find_location
location_at-ranges none line character locations = refl
location_at-ranges (some ranges) line character locations = refl

-- Two states of the maps with the same entries for every file, in any order, and the same location
-- of every node.
pub record SameEntries (s s' : Symbols) : Type 0 where
  pub ranges : (file : Bytes) → Perm (ranges_of file s) (ranges_of file s')
  pub locations : (id : ℕ) → location_of id s ≡ location_of id s'

module _ (mismatch : Mismatch) (params : JsonValue) (s s' : Symbols) where
  definition_thrown :
      (t : Symbols)
      → (read_query mismatch params).outcome ≡ thrown
      → definition_of mismatch (read_query mismatch params) t ≡ none
  unfolding definition_of
  definition_thrown t e = ground (arith, e)

  -- The answer to a definition request does not depend on the order in which the maps hold their
  -- entries, where all ranges of the file that hold the position and whose nodes have a location lead
  -- to the same one.
  pub handle_definition-SameEntries :
      SameEntries s s'
      → Agrees
          (read_query mismatch params).state.line
          (read_query mismatch params).state.character
          s.node_location
          (ranges_of (uri_to_path (read_query mismatch params).state.uri) s)
      → handle_definition mismatch params s ≡ handle_definition mismatch params s'
  handle_definition-SameEntries same agrees =
      elim (Result-cases (read_query mismatch params).outcome) [
        | inl e ↦
            handle_definition_value mismatch params s none (definition_thrown s e)
            ∙ sym (handle_definition_value mismatch params s' none (definition_thrown s' e))
        | inr (u, e) ↦
            (let q = (read_query mismatch params).state in
              let file = uri_to_path q.uri in
              let here =
                definition_read mismatch params s u e
                ∙ location_at-ranges (symbols_of file s) q.line q.character s.node_location in
              let there =
                definition_read mismatch params s' u e
                ∙ location_at-ranges (symbols_of file s') q.line q.character s'.node_location in
              let found =
                find_location-Perm q.line q.character s.node_location (ranges_of file s)
                  (ranges_of file s') (same.ranges file) agrees
                ∙ find_location-locations q.line q.character s.node_location s'.node_location
                    same.locations (ranges_of file s') in
              handle_definition_value mismatch params s _ (here ∙ (found ∙ sym there))
              ∙ sym (handle_definition_value mismatch params s' _ refl))
      ]
