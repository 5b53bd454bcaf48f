-- ===== src/Server/Sent.antt =====
-- What the server writes are messages of the protocol.
use capnp_ls.Prelude.{
  true, Bytes, List, [], ◌∷◌, ◌++◌, append-nil, append_assoc, Result-cases, ok, ◌≡◌, refl, sym, ap,
  ◌∙◌, inl, inr,
}
use capnp_ls.CompileErrorParser.{DiagnosticMap}
use capnp_ls.LspMessageHandler.Json.{JsonValue}
use capnp_ls.LspMessageHandler.Publish.{
  Output, message_of, notification, notifications, publish_diagnostics,
}
use capnp_ls.LspMessageHandler.Schema.{is_server_message}
use capnp_ls.LspMessageHandler.Conforming.{notification-is_server_message}
use capnp_ls.LspMessageHandler.Handlers.{World, publish, handle_initialize}
use capnp_ls.LspMessageHandler.Invariants.{notifications_thrown, notifications_step}
use capnp_ls.Server.Loop.{Server, Reach}
use capnp_ls.Server.Induction.{Keeps, Reach-Keeps}

module _ (output : Output) where
  -- The text is the header and the encoding of a message that a server may send.
  pub record IsSent (written : Bytes) : Type 0 where
    pub value : JsonValue
    pub body : Bytes
    pub allowed : is_server_message value ≡ true
    pub encoded : output.encode value ≡ ok body
    pub framed : message_of output body ≡ written

  abbrev pub AllSent : List Bytes → Type 0
  AllSent [] = Unit
  AllSent (written ∷ more) = IsSent written × AllSent more

  AllSent-append : (xs ys : List Bytes) → AllSent xs → AllSent ys → AllSent (xs ++ ys)
  AllSent-append [] ys a b = b
  AllSent-append (x ∷ xs) ys a b = (a.0, AllSent-append xs ys a.1 b)

  notifications-AllSent :
      (workspace_path : Bytes) (m : DiagnosticMap) → AllSent (notifications output workspace_path m)
  notifications-AllSent workspace_path [] = unfold notifications in tt
  notifications-AllSent workspace_path ((file, ds) ∷ m) =
      elim (Result-cases (output.encode (notification workspace_path file ds))) [
        | inl e ↦ rw (notifications_thrown output workspace_path file ds m e) tt
        | inr (body, e) ↦ rw (notifications_step output workspace_path file ds m body e) (
          record {
            value = notification workspace_path file ds;
            body = body;
            allowed = notification-is_server_message workspace_path file ds;
            encoded = e;
            framed = refl;
          },
          notifications-AllSent workspace_path m,
        )
      ]

  publish-AllSent :
      (workspace_path file : Bytes) (m : DiagnosticMap)
      → AllSent (publish_diagnostics output workspace_path file m)
  unfolding publish_diagnostics
  publish-AllSent workspace_path file [] = notifications-AllSent workspace_path ((file, []) ∷ [])
  publish-AllSent workspace_path file (entry ∷ m) = notifications-AllSent workspace_path (entry ∷ m)

  -- From `before` to `after`, such texts were written behind the earlier ones.
  abbrev pub Sends : List Bytes → List Bytes → Type 0
  Sends before after = (texts : List Bytes) × (after ≡ before ++ texts) × AllSent texts

  Sends-more :
      (before now texts : List Bytes)
      → Sends before now
      → AllSent texts
      → Sends before (now ++ texts)
  Sends-more before now texts (earlier, e, f) g = (
    earlier ++ texts,
    ap (λ ts. ts ++ texts) e ∙ append_assoc before earlier texts,
    AllSent-append earlier texts f g,
  )

module _ {Reader : Type 0} (world : World Reader) where
  keeps-Sends : (before : List Bytes) → Keeps world (λ h. Sends world.output before h.written)
  unfolding publish handle_initialize
  keeps-Sends before = record {
    shuts = λ h i. i;
    configures = λ params h i. i;
    checks = λ compatible h i. i;
    clears = λ h i. i;
    results = λ job r h i. i;
    publishes = λ path h i.
        Sends-more world.output before h.written _ i
          (publish-AllSent world.output h.config.workspace_path path _);
    writes = λ value body h m e i.
        Sends-more world.output before h.written _ i
          (record { value = value; body = body; allowed = m; encoded = e; framed = refl }, tt);
  }

  -- Whatever the client sends, and whatever the handlers' tasks and the log come to in between, all
  -- that the server writes are messages whose bodies encode values of the protocol: a response with
  -- the version, a number as its id and a result that is an object or null, or a notification
  -- textDocument/publishDiagnostics, window/logMessage or window/showMessage with exactly the
  -- parameters of its schema, each of its type.
  pub Reach-Sends :
      {s t : Server} → Reach world s t → Sends world.output s.handler.written t.handler.written
  Reach-Sends {s = s} r =
      Reach-Keeps world (λ h. Sends world.output s.handler.written h.written)
        (keeps-Sends s.handler.written) ([], sym (append-nil s.handler.written), tt) r
