-- ===== src/SymbolResolver.antt =====
-- symbol_resolver.cpp: positions of byte offsets, the search for a schema file, and the maps that
-- `resolve` fills. kj's file system and the schema loader are parameters.
pub mod Positions
pub mod Resolve
pub mod Steps
pub mod Induction
pub mod Offsets
pub mod Locations
pub mod Files
pub mod Indexed
pub mod Reads
pub mod Requested
pub mod Named
pub mod Search
pub mod Sample
mod Tests
use capnp_ls.Prelude.{
  ℕ, zero, suc, ◌+◌, ◌%◌, ◌^◌, Bool, true, false, ◌||◌, ◌==◌, if◌then◌else◌, Option, none, some,
  List, [], ◌∷◌, Bytes, bytes, drop, starts_with, ends_with, HashMap, find, upsert, erase, nat_key,
  bytes_key, Result, ok, thrown, ◌>>=◌,
}
use capnp_ls.LspTypes.{Position, Range, Location}
use capnp_ls.LspTypes.Ranges.{range_key}

abbrev pub u32_mod : ℕ
u32_mod = 2 ^ 32

abbrev pub start_of_file : Position
start_of_file = record { line = 1; character = 1 }

-- The loop of `getPositionInFile`: `n` is byteOffset - i, the list what is left of the content.
unfoldable pub advance : ℕ → Bytes → Position → Position
advance zero content pos = pos
advance (suc n) [] pos = pos
advance (suc n) (c ∷ cs) pos = advance n cs (
    if c == 10
    then record { line = (pos.line + 1) % u32_mod; character = 1 }
    else record pos { character = (pos.character + 1) % u32_mod })

-- What the code uses of kj::Path and of kj::Filesystem. Parsing and evaluating a path may throw, and
-- so may opening and reading a file.
pub record Filesystem : Type 1 where
  pub FilePath : Type 0
  pub File : Type 0
  pub parse_path : Bytes → Result FilePath
  pub eval : FilePath → Bytes → Result FilePath
  pub eval_native : FilePath → Bytes → Result FilePath
  pub to_native_string : FilePath → Bytes
  pub current_path : FilePath
  pub exists_in_current : FilePath → Bool
  pub exists_in_root : FilePath → Bool
  pub open_file : FilePath → Result File
  pub read_all_text : File → Result Bytes

-- The part of a display name in front of its first colon, without a leading slash.
unfoldable pub before_colon : Bytes → Bytes
before_colon [] = []
before_colon (c ∷ cs) = let more = before_colon cs in if c == b':' then [] else c ∷ more

unfoldable pub relative_path : Bytes → Bytes
unfolding before_colon starts_with
relative_path display_name =
    let path = before_colon display_name in
    if starts_with (bytes "/") path then drop 1 path else path

module _ (fs : Filesystem) where
  open fs use {
    parse_path, eval, eval_native, to_native_string, current_path, exists_in_current,
    exists_in_root, open_file, read_all_text,
  }

  -- `getPositionInFile`
  unfoldable pub get_position_in_file : Bytes → ℕ → Result Position
  unfolding advance
  get_position_in_file file_path byte_offset = do
    path ← parse_path (drop 1 file_path)
    file ← open_file path
    if byte_offset == 0
        then ok start_of_file
        else do content ← read_all_text file; ok (advance byte_offset content start_of_file)

  -- The loop of `extractFilePath` over the import paths.
  unfoldable pub search_imports : Bytes → List Bytes → Result Bytes
  search_imports relative [] = thrown
  search_imports relative (import_path ∷ import_paths) =
      let later = search_imports relative import_paths in
      if starts_with (bytes "/") import_path
      then (do
        parsed ← parse_path (drop 1 import_path)
        found ← eval_native parsed relative
        if exists_in_root found then ok (to_native_string found) else later)
      else (do
        parsed ← parse_path import_path
        found ← eval parsed relative
        if exists_in_current found
            then (do
              base ← eval current_path import_path
              full ← eval base relative
              ok (to_native_string full))
            else later)

  -- `extractFilePath`; its third parameter, the workspace path, is not used.
  unfoldable pub extract_file_path : Bytes → List Bytes → Bytes → Result Bytes
  unfolding search_imports relative_path
  extract_file_path display_name import_paths workspace_path = do
    let relative = relative_path display_name
    path ← parse_path relative
    if exists_in_current path
        then (do full ← eval current_path relative; ok (to_native_string full))
        else search_imports relative import_paths
