-- ===== src/LspMessageHandler/Search.antt =====
-- The search of `handleDefinition` over the ranges of a file.
use capnp_ls.Prelude.{
  ℕ, ◌≤◌, true, false, Bool-cases, Option, none, some, Option-cases, [], ◌∷◌, ◌≡◌, ◌⊎◌, inl, inr,
  refl, arith, HashMap, find, nat_key, bytes_key, AllEntries,
}
use capnp_ls.LspTypes.{Range, Location}
use capnp_ls.SymbolResolver.Resolve.{RangeMap}
use capnp_ls.LspMessageHandler.Definition.{holds_position, find_location}

-- The line lies between the lines of the range, the character between its characters.
abbrev pub Covers : Range → ℕ → ℕ → Type 0
Covers range line character =
    ((range.start.line ≤ line) × (line ≤ range.end.line))
    × ((range.start.character ≤ character) × (character ≤ range.end.character))

abbrev pub Has : Range → ℕ → RangeMap → Type 0
Has range id [] = ⊥
Has range id ((r, i) ∷ ranges) = ((r ≡ range) × (i ≡ id)) ⊎ Has range id ranges

holds_position-true : (range : Range) (l c : ℕ) → holds_position range l c ≡ true → Covers range l c
unfolding holds_position
holds_position-true range l c e = ground arith

module _ (line character : ℕ) (locations : HashMap ℕ Location) where
  -- Of the entries, none both holds the position and has a node with a location.
  abbrev pub Unanswered : RangeMap → Type 0
  Unanswered =
      AllEntries
        (λ range id. (holds_position range line character ≡ false) ⊎ (find id locations ≡ none))

  -- An entry that holds the position, and the location of its node.
  pub record Answers (ranges : RangeMap) (location : Location) : Type 0 where
    pub range : Range
    pub id : ℕ
    pub entry : Has range id ranges
    pub covers : Covers range line character
    pub located : find id locations ≡ some location

  pub find_location_skip :
      (range : Range) (id : ℕ) (ranges : RangeMap)
      → (holds_position range line character ≡ false) ⊎ (find id locations ≡ none)
      → find_location ((range, id) ∷ ranges) line character locations
        ≡ find_location ranges line character locations
  unfolding find_location
  find_location_skip range id ranges h = ground arith

  pub find_location_take :
      (range : Range) (id : ℕ) (ranges : RangeMap) (location : Location)
      → holds_position range line character ≡ true
      → find id locations ≡ some location
      → find_location ((range, id) ∷ ranges) line character locations ≡ some location
  unfolding find_location
  find_location_take range id ranges location h e = ground arith

  later-Answers :
      (r : Range) (i : ℕ) (ranges : RangeMap) (location : Location)
      → Answers ranges location
      → Answers ((r, i) ∷ ranges) location
  later-Answers r i ranges location a = record {
    range = a.range;
    id = a.id;
    entry = inr a.entry;
    covers = a.covers;
    located = a.located;
  }

  abbrev pub Outcome : RangeMap → Option Location → Type 0
  Outcome ranges none = Unanswered ranges
  Outcome ranges (some location) = Answers ranges location

  skipped-Outcome :
      (r : Range) (i : ℕ) (ranges : RangeMap) (o : Option Location)
      → (holds_position r line character ≡ false) ⊎ (find i locations ≡ none)
      → Outcome ranges o
      → Outcome ((r, i) ∷ ranges) o
  skipped-Outcome r i ranges none h k = (h, k)
  skipped-Outcome r i ranges (some location) h k = later-Answers r i ranges location k

  pub find_location-Outcome :
      (ranges : RangeMap) → Outcome ranges (find_location ranges line character locations)
  find_location-Outcome [] = unfold find_location in tt
  find_location-Outcome ((r, i) ∷ ranges) =
      let later = find_location-Outcome ranges in
      elim (Bool-cases (holds_position r line character)) [
        | inr e ↦
            rw (find_location_skip r i ranges (inl e)) (skipped-Outcome r i ranges _ (inl e) later)
        | inl e ↦ elim (Option-cases (find i locations)) [
          | inl f ↦
              rw (find_location_skip r i ranges (inr f))
                (skipped-Outcome r i ranges _ (inr f) later)
          | inr (location, f) ↦ rw (find_location_take r i ranges location e f) (record {
            range = r;
            id = i;
            entry = inl (refl, refl);
            covers = holds_position-true r line character e;
            located = f;
          })
        ]
      ]
