-- ===== src/SymbolResolver/Search.antt =====
-- The order in which `extractFilePath` looks for a schema file.
use capnp_ls.Prelude.{
  List, [], ◌∷◌, ◌++◌, Bytes, bytes, ◌≡◌, ◌⊎◌, inl, inr, true, false, refl, arith, drop,
  starts_with, ok, ◌∙◌,
}
use capnp_ls.SymbolResolver.{Filesystem, relative_path, search_imports, extract_file_path}

module _ (fs : Filesystem) where
  -- A relative path below a directory that is given by an absolute path.
  pub record AbsoluteImport (import_path relative : Bytes) : Type 0 where
    pub base : fs.FilePath
    pub target : fs.FilePath
    pub is_absolute : starts_with (bytes "/") import_path ≡ true
    pub parses : fs.parse_path (drop 1 import_path) ≡ ok base
    pub evaluates : fs.eval_native base relative ≡ ok target

  -- The same for a path below the directory of the process; `full` is its absolute form.
  pub record RelativeImport (import_path relative : Bytes) : Type 0 where
    pub base : fs.FilePath
    pub target : fs.FilePath
    pub full_base : fs.FilePath
    pub full : fs.FilePath
    pub is_relative : starts_with (bytes "/") import_path ≡ false
    pub parses : fs.parse_path import_path ≡ ok base
    pub evaluates : fs.eval base relative ≡ ok target
    pub evaluates_base : fs.eval fs.current_path import_path ≡ ok full_base
    pub evaluates_full : fs.eval full_base relative ≡ ok full

  -- The import path leads to no file of this name.
  abbrev pub IsMissing : Bytes → Bytes → Type 0
  IsMissing relative import_path =
      ((i : AbsoluteImport import_path relative) × (fs.exists_in_root i.target ≡ false))
      ⊎ ((i : RelativeImport import_path relative) × (fs.exists_in_current i.target ≡ false))

  -- It leads to the file that the last argument names.
  abbrev pub LeadsTo : Bytes → Bytes → Bytes → Type 0
  LeadsTo relative import_path file =
      ((i : AbsoluteImport import_path relative) × ((fs.exists_in_root i.target ≡ true)
          × (file ≡ fs.to_native_string i.target)))
      ⊎ ((i : RelativeImport import_path relative) × ((fs.exists_in_current i.target ≡ true)
            × (file ≡ fs.to_native_string i.full)))

  abbrev pub AllMissing : Bytes → List Bytes → Type 0
  AllMissing relative [] = Unit
  AllMissing relative (import_path ∷ import_paths) =
      IsMissing relative import_path × AllMissing relative import_paths

  search-IsMissing :
      (relative import_path : Bytes) (import_paths : List Bytes)
      → IsMissing relative import_path
      → search_imports fs relative (import_path ∷ import_paths)
        ≡ search_imports fs relative import_paths
  unfolding search_imports
  search-IsMissing relative import_path import_paths (inl (i, h)) =
      ground (arith, i.is_absolute, i.parses, i.evaluates)
  search-IsMissing relative import_path import_paths (inr (i, h)) =
      ground (arith, i.is_relative, i.parses, i.evaluates)

  search-LeadsTo :
      (relative import_path : Bytes) (import_paths : List Bytes) (file : Bytes)
      → LeadsTo relative import_path file
      → search_imports fs relative (import_path ∷ import_paths) ≡ ok file
  unfolding search_imports
  search-LeadsTo relative import_path import_paths file (inl (i, h)) =
      ground (arith, i.is_absolute, i.parses, i.evaluates)
  search-LeadsTo relative import_path import_paths file (inr (i, h)) =
      ground (arith, i.is_relative, i.parses, i.evaluates, i.evaluates_base, i.evaluates_full)

  search-AllMissing :
      (relative : Bytes) (missing import_paths : List Bytes)
      → AllMissing relative missing
      → search_imports fs relative (missing ++ import_paths)
        ≡ search_imports fs relative import_paths
  search-AllMissing relative [] import_paths h = refl
  search-AllMissing relative (import_path ∷ missing) import_paths h =
      search-IsMissing relative import_path (missing ++ import_paths) h.0
      ∙ search-AllMissing relative missing import_paths h.1

  -- What becomes of a display name that is not a file of the process's directory.
  extract_lem :
      (display_name : Bytes) (import_paths : List Bytes) (workspace_path : Bytes)
      (path : fs.FilePath)
      → fs.parse_path (relative_path display_name) ≡ ok path
      → fs.exists_in_current path ≡ false
      → extract_file_path fs display_name import_paths workspace_path
        ≡ search_imports fs (relative_path display_name) import_paths
  unfolding extract_file_path
  extract_lem display_name import_paths workspace_path path e h = ground arith

  -- Where the directory of the process has no file of the display name's path and the import
  -- paths in front of one lead to none, the file is the one that this import path leads to,
  -- whatever follows it.
  pub extract_file_path-first :
      (display_name : Bytes) (missing : List Bytes) (import_path : Bytes) (later : List Bytes)
      (workspace_path : Bytes) (path : fs.FilePath) (file : Bytes)
      → fs.parse_path (relative_path display_name) ≡ ok path
      → fs.exists_in_current path ≡ false
      → AllMissing (relative_path display_name) missing
      → LeadsTo (relative_path display_name) import_path file
      → extract_file_path fs display_name (missing ++ (import_path ∷ later)) workspace_path
        ≡ ok file
  extract_file_path-first display_name missing import_path later workspace_path path file e h m l =
      extract_lem display_name (missing ++ (import_path ∷ later)) workspace_path path e h
      ∙ (search-AllMissing (relative_path display_name) missing (import_path ∷ later) m
          ∙ search-LeadsTo (relative_path display_name) import_path later file l)
