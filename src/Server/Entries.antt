-- ===== src/Server/Entries.antt =====
-- The messages that a server writes, responses and notifications apart.
use capnp_ls.Prelude.{
  true, [], ◌∷◌, ◌++◌, append_assoc, append-nil, Bytes, List, ok, thrown, Result, Result-cases, ◌≡◌,
  refl, sym, ap, ◌∙◌, inl, inr,
}
use capnp_ls.CompileErrorParser.{DiagnosticMap}
use capnp_ls.LspMessageHandler.Json.{JsonValue}
use capnp_ls.LspMessageHandler.Publish.{
  Output, message_of, notification, notifications, publish_diagnostics,
}
use capnp_ls.LspMessageHandler.Schema.{is_notification}
use capnp_ls.LspMessageHandler.Conforming.{notification-is_notification}
use capnp_ls.LspMessageHandler.Messages.{response_value}
use capnp_ls.LspMessageHandler.Invariants.{notifications_thrown, notifications_step}
use capnp_ls.Server.Tasks.{Reply}

pub data Entry : Type 0 where
  response : Reply → Entry
  notice : JsonValue → Entry

abbrev pub value_of : Entry → JsonValue
value_of (response reply) = response_value reply.request_id reply.response
value_of (notice value) = value

abbrev pub replies : List Entry → List Reply
replies [] = []
replies (response reply ∷ entries) = reply ∷ replies entries
replies (notice value ∷ entries) = replies entries

-- The notices are notifications that a server may send.
abbrev pub AllNotify : List Entry → Type 0
AllNotify [] = Unit
AllNotify (response reply ∷ entries) = AllNotify entries
AllNotify (notice value ∷ entries) = (is_notification value ≡ true) × AllNotify entries

pub replies-append : (xs ys : List Entry) → replies (xs ++ ys) ≡ replies xs ++ replies ys
replies-append [] ys = refl
replies-append (response reply ∷ xs) ys = ap (λ rs. reply ∷ rs) (replies-append xs ys)
replies-append (notice value ∷ xs) ys = replies-append xs ys

AllNotify-append : (xs ys : List Entry) → AllNotify xs → AllNotify ys → AllNotify (xs ++ ys)
AllNotify-append [] ys a b = b
AllNotify-append (response reply ∷ xs) ys a b = AllNotify-append xs ys a b
AllNotify-append (notice value ∷ xs) ys a b = (a.0, AllNotify-append xs ys a.1 b)

module _ (output : Output) where
  -- One text to a value, and none where the encoder throws.
  abbrev pub text_of : Result Bytes → List Bytes
  text_of thrown = []
  text_of (ok body) = message_of output body ∷ []

  abbrev pub texts : List Entry → List Bytes
  texts [] = []
  texts (entry ∷ entries) = text_of (output.encode (value_of entry)) ++ texts entries

  texts-append : (xs ys : List Entry) → texts (xs ++ ys) ≡ texts xs ++ texts ys
  texts-append [] ys = refl
  texts-append (x ∷ xs) ys =
      let text = text_of (output.encode (value_of x)) in
      ap (λ l. text ++ l) (texts-append xs ys) ∙ sym (append_assoc text (texts xs) (texts ys))

  pub text_of-ok :
      (entry : Entry) (body : Bytes)
      → output.encode (value_of entry) ≡ ok body
      → message_of output body ∷ [] ≡ texts (entry ∷ [])
  text_of-ok entry body e = sym (append-nil _ ∙ ap text_of e)

  pub text_of-thrown :
      (entry : Entry) → output.encode (value_of entry) ≡ thrown → texts (entry ∷ []) ≡ []
  text_of-thrown entry e = append-nil _ ∙ ap text_of e

  -- From `before` to `after`, just the entries were written, each once and in order.
  pub record Wrote (before after : List Bytes) (answers : List Reply) : Type 0 where
    pub entries : List Entry
    pub written : after ≡ before ++ texts entries
    pub notify : AllNotify entries
    pub answering : replies entries ≡ answers

  pub no_entries : (before : List Bytes) → Wrote before before []
  no_entries before = record {
    entries = [];
    written = sym (append-nil before);
    notify = tt;
    answering = refl;
  }

  pub Wrote-Wrote :
      {before now after : List Bytes} (a : List Reply) {b : List Reply}
      → Wrote before now a
      → Wrote now after b
      → Wrote before after (a ++ b)
  Wrote-Wrote {before} a v w = record {
    entries = v.entries ++ w.entries;
    written =
        w.written
        ∙ (ap (λ l. l ++ texts w.entries) v.written
            ∙ (append_assoc before (texts v.entries) (texts w.entries)
                ∙ ap (λ l. before ++ l) (sym (texts-append v.entries w.entries))));
    notify = AllNotify-append v.entries w.entries v.notify w.notify;
    answering =
        replies-append v.entries w.entries
        ∙ (ap (λ l. l ++ replies w.entries) v.answering ∙ ap (λ l. a ++ l) w.answering);
  }

  pub one_notice :
      (before : List Bytes) (value : JsonValue) (body : Bytes)
      → is_notification value ≡ true
      → output.encode value ≡ ok body
      → Wrote before (before ++ (message_of output body ∷ [])) []
  one_notice before value body n e = record {
    entries = notice value ∷ [];
    written = ap (λ l. before ++ l) (text_of-ok (notice value) body e);
    notify = (n, tt);
    answering = refl;
  }

  Wrote-behind :
      (before : List Bytes) {after : List Bytes} {a : List Reply}
      → Wrote [] after a
      → Wrote before (before ++ after) a
  Wrote-behind before w = record {
    entries = w.entries;
    written = ap (λ l. before ++ l) w.written;
    notify = w.notify;
    answering = w.answering;
  }

  notices :
      (workspace_path : Bytes) (m : DiagnosticMap)
      → Wrote [] (notifications output workspace_path m) []
  notices workspace_path [] = unfold notifications in no_entries []
  notices workspace_path ((file, ds) ∷ m) =
      elim (Result-cases (output.encode (notification workspace_path file ds))) [
        | inl e ↦ rw (notifications_thrown output workspace_path file ds m e) (no_entries [])
        | inr (body, e) ↦
            (let first =
                one_notice [] (notification workspace_path file ds) body
                  (notification-is_notification workspace_path file ds) e in
              let later = notices workspace_path m in
              rw (notifications_step output workspace_path file ds m body e)
                (Wrote-Wrote [] first (Wrote-behind (message_of output body ∷ []) later)))
      ]

  published :
      (workspace_path file : Bytes) (m : DiagnosticMap)
      → Wrote [] (publish_diagnostics output workspace_path file m) []
  unfolding publish_diagnostics
  published workspace_path file [] = notices workspace_path ((file, []) ∷ [])
  published workspace_path file (entry ∷ m) = notices workspace_path (entry ∷ m)

  pub published-Wrote :
      (before : List Bytes) (workspace_path file : Bytes) (m : DiagnosticMap)
      → Wrote before (before ++ publish_diagnostics output workspace_path file m) []
  published-Wrote before workspace_path file m =
      Wrote-behind before (published workspace_path file m)
