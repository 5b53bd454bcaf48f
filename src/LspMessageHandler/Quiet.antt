-- ===== src/LspMessageHandler/Quiet.antt =====
-- What a request to initialize sets, and the notifications that change nothing.
use capnp_ls.Prelude.{
  Bool, true, false, Option, none, some, Bytes, bytes, List, [], ◌∷◌, ◌++◌, append_assoc,
  append-nil, same, ◌≡◌, ◌⊎◌, inl, inr, refl, sym, ap, ◌∙◌, arith, Result, ok, thrown, Result-cases,
  if◌then◌else◌,
}
use capnp_ls.LspTypes.{
  LspMethod, initialize, shutdown, definition, did_open, did_save, did_change_watched_files,
  did_change, initialized, set_trace, cancel_request, formatting, try_parse_lsp_method,
}
use capnp_ls.LspMessageHandler.Json.{
  JsonValue, JsonValues, JsonFields, no_values, value_and, no_fields, field_and, Mismatch,
  get_object, get_array, get_string, Ran, with, each_field, each_value,
}
use capnp_ls.LspMessageHandler.Initialize.{
  Config, read_folder, read_folders, add_import_path, read_capnp_config, read_option,
  read_initialize_param, configure,
}
use capnp_ls.LspMessageHandler.Messages.{Message, dispatch, respond, handle_read}
use capnp_ls.LspMessageHandler.Handlers.{handle_formatting_lem, Handler, World}
use capnp_ls.LspMessageHandler.Induction.{read_thrown, read_answered}

-- What a loop keeps if its body does, also where an exception ends it.
module _ {S : Type 0} (Inv : S → Type 0) where
  with_keeps :
      {A : Type 0} (r : Result A) (s : S) (rest : A → Ran S)
      → Inv s
      → ((a : A) → Inv (rest a).state)
      → Inv (with r s rest).state
  unfolding with
  with_keeps thrown s rest h k = h
  with_keeps (ok a) s rest h k = k a

  if_keeps : (t : Bool) (a b : Ran S) → Inv a.state → Inv b.state → Inv (if t then a else b).state
  if_keeps true a b h k = h
  if_keeps false a b h k = k

  field_step :
      (body : Bytes → JsonValue → S → Ran S) (name : Bytes) (value : JsonValue) (more : JsonFields)
      (s : S)
      → (((body name value s).outcome ≡ thrown)
          × (each_field body (field_and name value more) s ≡ body name value s))
        ⊎ (each_field body (field_and name value more) s
            ≡ each_field body more (body name value s).state)
  unfolding each_field
  field_step body name value more s = elim (Result-cases (body name value s).outcome) [
    | inl e ↦ inl (e, ground arith)
    | inr (u, e) ↦ inr (ground arith)
  ]

  each_field_keeps :
      (body : Bytes → JsonValue → S → Ran S)
      → ((name : Bytes) (value : JsonValue) (s : S) → Inv s → Inv (body name value s).state)
      → (members : JsonFields) (s : S) → Inv s
      → Inv (each_field body members s).state
  each_field_keeps body k no_fields s h = unfold each_field in h
  each_field_keeps body k (field_and name value more) s h =
      elim (field_step body name value more s) [
        | inl (e, f) ↦ rw f (k name value s h)
        | inr f ↦ rw f (each_field_keeps body k more (body name value s).state (k name value s h))
      ]

  value_step :
      (body : JsonValue → S → Ran S) (value : JsonValue) (more : JsonValues) (s : S)
      → (((body value s).outcome ≡ thrown)
          × (each_value body (value_and value more) s ≡ body value s))
        ⊎ (each_value body (value_and value more) s ≡ each_value body more (body value s).state)
  unfolding each_value
  value_step body value more s = elim (Result-cases (body value s).outcome) [
    | inl e ↦ inl (e, ground arith)
    | inr (u, e) ↦ inr (ground arith)
  ]

  each_value_keeps :
      (body : JsonValue → S → Ran S)
      → ((value : JsonValue) (s : S) → Inv s → Inv (body value s).state)
      → (values : JsonValues) (s : S) → Inv s
      → Inv (each_value body values s).state
  each_value_keeps body k no_values s h = unfold each_value in h
  each_value_keeps body k (value_and value more) s h = elim (value_step body value more s) [
    | inl (e, f) ↦ rw f (k value s h)
    | inr f ↦ rw f (each_value_keeps body k more (body value s).state (k value s h))
  ]

-- The import paths are those that were there, and more behind them.
abbrev pub Adds : List Bytes → Config → Type 0
Adds before c = (added : List Bytes) × (c.import_paths ≡ before ++ added)

Adds-one :
    (before : List Bytes) (path : Bytes) (c : Config)
    → Adds before c
    → Adds before (record c { import_paths = c.import_paths ++ (path ∷ []) })
Adds-one before path c (added, e) =
    (added ++ (path ∷ []), ap (λ ps. ps ++ (path ∷ [])) e ∙ append_assoc before added (path ∷ []))

module _ (mismatch : Mismatch) (before : List Bytes) where
  add-Adds :
      (value : JsonValue) (c : Config)
      → Adds before c
      → Adds before (add_import_path mismatch value c).state
  unfolding add_import_path
  add-Adds value c h =
      with_keeps (Adds before) (get_string mismatch value) c _ h (λ path. Adds-one before path c h)

  folder-Adds :
      (name : Bytes) (value : JsonValue) (c : Config)
      → Adds before c
      → Adds before (read_folder mismatch name value c).state
  unfolding read_folder
  folder-Adds name value c h =
      if_keeps (Adds before) (same name (bytes "uri")) _ _
        (with_keeps (Adds before) (get_string mismatch value) c _ h (λ uri. h)) h

  folders-Adds :
      (values : JsonValues) (c : Config)
      → Adds before c
      → Adds before (read_folders mismatch values c).state
  unfolding read_folders
  folders-Adds no_values c h = h
  folders-Adds (value_and value more) c h =
      with_keeps (Adds before) (get_object mismatch value) c _ h
        (λ members. each_field_keeps (Adds before) (read_folder mismatch) folder-Adds members c h)

  capnp-Adds :
      (name : Bytes) (value : JsonValue) (c : Config)
      → Adds before c
      → Adds before (read_capnp_config mismatch name value c).state
  unfolding read_capnp_config
  capnp-Adds name value c h =
      if_keeps (Adds before) (same name (bytes "compilerPath")) _ _
        (with_keeps (Adds before) (get_string mismatch value) c _ h (λ path. h))
        (if_keeps (Adds before) (same name (bytes "importPaths")) _ _
          (with_keeps (Adds before) (get_array mismatch value) c _ h
            (λ paths. each_value_keeps (Adds before) (add_import_path mismatch) add-Adds paths c h))
          h)

  option-Adds :
      (name : Bytes) (value : JsonValue) (c : Config)
      → Adds before c
      → Adds before (read_option mismatch name value c).state
  unfolding read_option
  option-Adds name value c h =
      if_keeps (Adds before) (same name (bytes "capnp")) _ _
        (with_keeps (Adds before) (get_object mismatch value) c _ h (λ members.
          each_field_keeps (Adds before) (read_capnp_config mismatch) capnp-Adds members c h))
        h

  param-Adds :
      (name : Bytes) (value : JsonValue) (c : Config)
      → Adds before c
      → Adds before (read_initialize_param mismatch name value c).state
  unfolding read_initialize_param
  param-Adds name value c h =
      if_keeps (Adds before) (same name (bytes "workspaceFolders")) _ _
        (with_keeps (Adds before) (get_array mismatch value) c _ h
          (λ values. folders-Adds values c h))
        (if_keeps (Adds before) (same name (bytes "initializationOptions")) _ _
          (with_keeps (Adds before) (get_object mismatch value) c _ h (λ members.
            each_field_keeps (Adds before) (read_option mismatch) option-Adds members c h))
          h)

-- Whatever the parameters of a request to initialize, also where reading them stops at an exception,
-- the import paths of earlier ones stay in front of those that it adds.
pub configure-Adds :
    (mismatch : Mismatch) (params : JsonValue) (c : Config)
    → Adds c.import_paths (configure mismatch params c)
unfolding configure
configure-Adds mismatch params c =
    let same_paths : Adds c.import_paths c = ([], sym (append-nil c.import_paths)) in
    with_keeps (Adds c.import_paths) (get_object mismatch params) c _ same_paths (λ members.
      each_field_keeps (Adds c.import_paths) (read_initialize_param mismatch)
        (param-Adds mismatch c.import_paths) members c same_paths)

-- The methods whose handlers change the state.
abbrev pub is_effective : Option LspMethod → Bool
is_effective (some initialize) = true
is_effective (some shutdown) = true
is_effective (some did_open) = true
is_effective (some did_save) = true
is_effective _ = false

module _ {Reader : Type 0} (world : World Reader) where
  dispatch_quiet :
      (method : Option LspMethod) (params : JsonValue) (h : Handler)
      → is_effective method ≡ false
      → (dispatch world method params h).handler ≡ h
  unfolding dispatch
  dispatch_quiet none params h e = refl
  dispatch_quiet (some initialize) params h e = cc
  dispatch_quiet (some shutdown) params h e = cc
  dispatch_quiet (some did_open) params h e = cc
  dispatch_quiet (some did_save) params h e = cc
  dispatch_quiet (some definition) params h e = refl
  dispatch_quiet (some did_change_watched_files) params h e = refl
  dispatch_quiet (some did_change) params h e = refl
  dispatch_quiet (some initialized) params h e = refl
  dispatch_quiet (some set_trace) params h e = refl
  dispatch_quiet (some cancel_request) params h e = refl
  dispatch_quiet (some formatting) params h e = handle_formatting_lem world params h

  -- A message without an id whose method is unknown or none of initialize, shutdown, didOpen and
  -- didSave, didChangeWatchedFiles among them, leaves the configuration, the maps, the manager and the
  -- shutdown as they were, begins no compilation, and sends neither a response nor diagnostics. The
  -- lines that are logged for it, such as the error for an unknown method, are not meant: they go to
  -- the client by way of the logger.
  pub handle_read_quiet :
      (m : Ran Message) (h : Handler)
      → m.state.request_id ≡ none
      → is_effective (try_parse_lsp_method m.state.method) ≡ false
      → handle_read world m h ≡ h
  handle_read_quiet m h n e = elim (Result-cases m.outcome) [
    | inl t ↦ read_thrown world m h t
    | inr (u, o) ↦
        read_answered world m u h o
        ∙ ap
            (λ id.
              respond world id
                (dispatch world (try_parse_lsp_method m.state.method) m.state.params h))
            n
        ∙ unfold respond in dispatch_quiet (try_parse_lsp_method m.state.method) m.state.params h e
  ]
