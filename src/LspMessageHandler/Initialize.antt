-- ===== src/LspMessageHandler/Initialize.antt =====
-- `handleInitialize`: what it reads from the parameters, and its answer.
use capnp_ls.Prelude.{true, Bytes, bytes, List, [], ◌∷◌, ◌++◌, same, if◌then◌else◌}
use capnp_ls.LspTypes.{lsp_result}
use capnp_ls.Utils.{uri_to_path}
use capnp_ls.LspMessageHandler.Json.{
  whole, JsonValue, boolean_value, number_value, object_value, JsonValues, no_values, value_and,
  JsonFields, no_fields, field_and, Mismatch, get_object, get_array, get_string, Ran, ended, with,
  each_field, each_value,
}

-- The members that the request sets.
pub record Config : Type 0 where
  pub workspace_path : Bytes
  pub compiler_path : Bytes
  pub import_paths : List Bytes

module _ (mismatch : Mismatch) where
  unfoldable pub read_folder : Bytes → JsonValue → Config → Ran Config
  unfolding with get_string same uri_to_path
  read_folder name value c =
      if same name (bytes "uri")
      then with (get_string mismatch value) c
          (λ uri. ended (record c { workspace_path = uri_to_path uri }))
      else ended c

  -- `folders[0]`
  unfoldable pub read_folders : JsonValues → Config → Ran Config
  unfolding with get_object each_field read_folder
  read_folders no_values c = ended c
  read_folders (value_and folder folders) c =
      with (get_object mismatch folder) c (λ fields. each_field read_folder fields c)

  unfoldable pub add_import_path : JsonValue → Config → Ran Config
  unfolding with get_string
  add_import_path value c =
      with (get_string mismatch value) c
        (λ path. ended (record c { import_paths = c.import_paths ++ (path ∷ []) }))

  unfoldable pub read_capnp_config : Bytes → JsonValue → Config → Ran Config
  unfolding with get_string get_array each_value add_import_path same
  read_capnp_config name value c =
      if same name (bytes "compilerPath")
      then with (get_string mismatch value) c (λ path. ended (record c { compiler_path = path }))
      else if same name (bytes "importPaths")
      then with (get_array mismatch value) c (λ paths. each_value add_import_path paths c)
      else ended c

  unfoldable pub read_option : Bytes → JsonValue → Config → Ran Config
  unfolding with get_object each_field read_capnp_config same
  read_option name value c =
      if same name (bytes "capnp")
      then with (get_object mismatch value) c (λ config. each_field read_capnp_config config c)
      else ended c

  unfoldable pub read_initialize_param : Bytes → JsonValue → Config → Ran Config
  unfolding with get_object get_array each_field read_folders read_option same
  read_initialize_param name value c =
      if same name (bytes "workspaceFolders")
      then with (get_array mismatch value) c (λ folders. read_folders folders c)
      else if same name (bytes "initializationOptions")
      then with (get_object mismatch value) c (λ options. each_field read_option options c)
      else ended c

  -- The `try` block of `handleInitialize`.
  unfoldable pub configure : JsonValue → Config → Config
  unfolding with get_object each_field read_initialize_param
  configure params c =
      (with (get_object mismatch params) c
        (λ fields. each_field read_initialize_param fields c)).state

abbrev pub enabled : Bytes → JsonFields → JsonFields
enabled name fields = field_and name (boolean_value true) fields

-- The response that `handleInitialize` builds.
abbrev pub initialize_response : JsonValue
initialize_response = object_value (
    field_and lsp_result
      (object_value (
        field_and (bytes "capabilities")
          (object_value (
            field_and (bytes "textDocumentSync")
              (object_value (
                enabled (bytes "openClose") (
                  field_and (bytes "change") (number_value (whole 1))
                    (enabled (bytes "save") no_fields))))
              (enabled (bytes "definitionProvider") (
                enabled (bytes "completionProvider")
                  (enabled (bytes "workspace/didChangeWatchedFiles") no_fields)))))
          no_fields))
      no_fields)
