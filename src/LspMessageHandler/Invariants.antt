-- ===== src/LspMessageHandler/Invariants.antt =====
-- What holds of the handler behind any message, whatever the client sends.
use capnp_ls.Prelude.{
  true, Option, Bytes, List, [], ◌∷◌, ◌++◌, append_assoc, append-nil, length, ◌≡◌, sym, ap, ◌∙◌,
  inl, inr, refl, arith, ok, thrown, Result-cases,
}
use capnp_ls.StdinReader.{digits_from}
use capnp_ls.StdinReader.Frames.{IsLength, Frame, IsFrame, text}
use capnp_ls.LspTypes.{Diagnostic}
use capnp_ls.CompileErrorParser.{DiagnosticMap}
use capnp_ls.SymbolResolver.Locations.{IsValid, HasShortFiles}
use capnp_ls.CompilationManager.Effects.{compile-IsValid}
use capnp_ls.LspMessageHandler.Json.{JsonValue}
use capnp_ls.LspMessageHandler.Publish.{
  Output, message_of, notification, notifications, publish_diagnostics,
}
use capnp_ls.LspMessageHandler.Messages.{handle_message}
use capnp_ls.LspMessageHandler.Handlers.{Handler, World, handle_initialize, publish, compile_params}
use capnp_ls.LspMessageHandler.Induction.{Keeps, handle_message-Keeps}

-- The numbers that the output prints for the bodies that it encodes are decimal, and below 2^64 - 20.
abbrev pub PrintsLengths : Output → Type 0
PrintsLengths output =
    (value : JsonValue) (body : Bytes)
    → output.encode value ≡ ok body
    → IsLength (output.decimal (length body))
      × (digits_from 0 (output.decimal (length body)) ≡ length body)

-- Every text is a message with a header that gives the length of its body.
abbrev pub AllFramed : List Bytes → Type 0
AllFramed [] = Unit
AllFramed (t ∷ ts) = ((f : Frame) × IsFrame f × (t ≡ text f)) × AllFramed ts

AllFramed-append : (xs ys : List Bytes) → AllFramed xs → AllFramed ys → AllFramed (xs ++ ys)
AllFramed-append [] ys h k = k
AllFramed-append (x ∷ xs) ys h k = (h.0, AllFramed-append xs ys h.1 k)

-- From `before` to `after`, messages were written behind the earlier ones.
abbrev pub Writes : List Bytes → List Bytes → Type 0
Writes before after = (texts : List Bytes) × (after ≡ before ++ texts) × AllFramed texts

module _ (output : Output) where
  pub notifications_thrown :
      (workspace_path file : Bytes) (ds : List Diagnostic) (m : DiagnosticMap)
      → output.encode (notification workspace_path file ds) ≡ thrown
      → notifications output workspace_path ((file, ds) ∷ m) ≡ []
  unfolding notifications
  notifications_thrown workspace_path file ds m e = ground arith

  pub notifications_step :
      (workspace_path file : Bytes) (ds : List Diagnostic) (m : DiagnosticMap) (body : Bytes)
      → output.encode (notification workspace_path file ds) ≡ ok body
      → notifications output workspace_path ((file, ds) ∷ m)
        ≡ message_of output body ∷ notifications output workspace_path m
  unfolding notifications
  notifications_step workspace_path file ds m body e = ground arith

module _ (output : Output) (prints : PrintsLengths output) where
  pub message-AllFramed :
      (value : JsonValue) (body : Bytes)
      → output.encode value ≡ ok body
      → AllFramed (message_of output body ∷ [])
  unfolding message_of
  message-AllFramed value body e =
      let printed = prints value body e in
      let f : Frame = record { digits = output.decimal (length body); body = body } in
      ((f, record { length_digits = printed.0; length_body = printed.1 }, refl), tt)

  notifications-AllFramed :
      (workspace_path : Bytes) (m : DiagnosticMap)
      → AllFramed (notifications output workspace_path m)
  notifications-AllFramed workspace_path [] = unfold notifications in tt
  notifications-AllFramed workspace_path ((file, ds) ∷ m) =
      elim (Result-cases (output.encode (notification workspace_path file ds))) [
        | inl e ↦ rw (notifications_thrown output workspace_path file ds m e) tt
        | inr (body, e) ↦
            let one = message-AllFramed (notification workspace_path file ds) body e in
            rw (notifications_step output workspace_path file ds m body e)
              (one.0, notifications-AllFramed workspace_path m)
      ]

  pub publish-AllFramed :
      (workspace_path file : Bytes) (m : DiagnosticMap)
      → AllFramed (publish_diagnostics output workspace_path file m)
  unfolding publish_diagnostics
  publish-AllFramed workspace_path file [] =
      notifications-AllFramed workspace_path ((file, []) ∷ [])
  publish-AllFramed workspace_path file (entry ∷ m) =
      notifications-AllFramed workspace_path (entry ∷ m)

module _ {Reader : Type 0} (world : World Reader) where
  abbrev HasValidSymbols : Handler → Type 0
  HasValidSymbols h = IsValid h.compiled.symbols

  keeps-IsValid : HasShortFiles world.fs → Keeps world HasValidSymbols
  unfolding publish handle_initialize
  keeps-IsValid short = record {
    shuts = λ h i. i;
    configures = λ params h i. i;
    compiles = λ path h i.
        compile-IsValid world.os world.fs world.load world.request_of world.bundled short
          (compile_params world path h.config) h.manager h.compiled i;
    writes = λ value body h e i. i;
  }

  -- Where no file is longer than 2^32 - 2 bytes, every message leaves every line and character in the
  -- handler's maps between 1 and 2^32 - 1.
  pub handle_message-IsValid :
      HasShortFiles world.fs
      → (message : Option Bytes) (h : Handler) → IsValid h.compiled.symbols
      → IsValid (handle_message world message h).compiled.symbols
  handle_message-IsValid short message h i =
      handle_message-Keeps world HasValidSymbols (keeps-IsValid short) message h i

  module _ (prints : PrintsLengths world.output) (before : List Bytes) where
    abbrev HasWritten : Handler → Type 0
    HasWritten h = Writes before h.written

    pub Writes-more :
        (now texts : List Bytes)
        → Writes before now
        → AllFramed texts
        → Writes before (now ++ texts)
    Writes-more now texts (earlier, e, f) g = (
      earlier ++ texts,
      ap (λ ts. ts ++ texts) e ∙ append_assoc before earlier texts,
      AllFramed-append earlier texts f g,
    )

    keeps-Writes : Keeps world HasWritten
    unfolding publish handle_initialize
    keeps-Writes = record {
      shuts = λ h i. i;
      configures = λ params h i. i;
      compiles = λ path h i.
          Writes-more h.written _ i
            (publish-AllFramed world.output prints h.config.workspace_path path _);
      writes = λ value body h e i.
          Writes-more h.written _ i (message-AllFramed world.output prints value body e);
    }

  -- Where numbers are printed in decimal and encoded values are not longer than size_t counts, a
  -- message only adds to what was written, and each text that it adds is a header with the length of
  -- the body, and the body.
  pub handle_message-Writes :
      PrintsLengths world.output
      → (message : Option Bytes) (h : Handler)
      → Writes h.written (handle_message world message h).written
  handle_message-Writes prints message h =
      handle_message-Keeps world (HasWritten prints h.written) (keeps-Writes prints h.written)
        message h ([], sym (append-nil h.written), tt)

  -- A server that was told to shut down stays so.
  keeps-shut_down : Keeps world (λ h. h.shut_down ≡ true)
  unfolding publish handle_initialize
  keeps-shut_down = record {
    shuts = λ h i. refl;
    configures = λ params h i. i;
    compiles = λ path h i. i;
    writes = λ value body h e i. i;
  }

  -- Where the server was told to shut down, no later message takes that back.
  pub handle_message-shut_down :
      (message : Option Bytes) (h : Handler)
      → h.shut_down ≡ true
      → (handle_message world message h).shut_down ≡ true
  handle_message-shut_down message h i =
      handle_message-Keeps world (λ h. h.shut_down ≡ true) keeps-shut_down message h i
