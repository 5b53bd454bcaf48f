-- ===== src/SymbolResolver/Offsets.antt =====
-- `getPositionInFile` and the ranges against the text of the file.
use capnp_ls.Prelude.{ℕ, ◌+◌, ◌<◌, ◌≤◌, List, Bytes, ◌≡◌, arith, length, take, drop, ok, ap, ◌∙◌}
use capnp_ls.LspTypes.{Range}
use capnp_ls.SymbolResolver.{Filesystem, advance, start_of_file, u32_mod, get_position_in_file}
use capnp_ls.SymbolResolver.Resolve.{range_in_file}
use capnp_ls.SymbolResolver.Positions.{
  newlines, last_line, Precedes, advance-start_of_file, advance-Precedes,
}

-- The file at a path can be opened and holds the text.
pub record Holds (fs : Filesystem) (file_path content : Bytes) : Type 0 where
  pub path : fs.FilePath
  pub file : fs.File
  pub parses : fs.parse_path (drop 1 file_path) ≡ ok path
  pub opens : fs.open_file path ≡ ok file
  pub reads : fs.read_all_text file ≡ ok content

module _ (fs : Filesystem) (file_path content : Bytes) (held : Holds fs file_path content) where
  get_position_lem :
      (n : ℕ) → get_position_in_file fs file_path n ≡ ok (advance n content start_of_file)
  unfolding get_position_in_file advance
  get_position_lem n = ground (arith, held.parses, held.opens, held.reads)

  -- Where a file shorter than 2^32 - 1 bytes can be read, the position of a byte offset is one more
  -- than the newlines in front of it, and one more than the bytes between the last of these and it.
  pub get_position_in_file_lem :
      (n : ℕ)
      → length content + 1 < u32_mod
      → get_position_in_file fs file_path n
        ≡ ok (record {
          line = 1 + newlines (take n content);
          character = 1 + last_line 0 (take n content);
        })
  get_position_in_file_lem n h = get_position_lem n ∙ ap ok (advance-start_of_file n content h)

  range_lem :
      (import_paths : List Bytes) (workspace_path : Bytes) (m n : ℕ)
      → range_in_file fs import_paths workspace_path file_path m n
        ≡ ok (record {
          start = advance m content start_of_file;
          end = advance n content start_of_file;
        })
  unfolding range_in_file
  range_lem import_paths workspace_path m n = ground (arith, get_position_lem m, get_position_lem n)

  -- Where a file shorter than 2^32 - 1 bytes can be read, the range of two offsets in order, of which
  -- the second is no further than the end of the file, is there, and its start precedes its end.
  pub range_in_file-Precedes :
      (import_paths : List Bytes) (workspace_path : Bytes) (m n : ℕ)
      → length content + 1 < u32_mod
      → m < n
      → n ≤ length content
      → (range : Range) × ((range_in_file fs import_paths workspace_path file_path m n ≡ ok range)
          × Precedes range.start range.end)
  range_in_file-Precedes import_paths workspace_path m n h lt le =
      let range : Range = record {
        start = advance m content start_of_file;
        end = advance n content start_of_file;
      } in
      (
        range,
        (
          range_lem import_paths workspace_path m n,
          advance-Precedes m n content start_of_file lt le (omega arith) (omega arith),
        ),
      )
