-- ===== src/LspLogger/Levels.antt =====
-- The values of CPP_LOG that set a level, and the text of a log message.
use capnp_ls.Prelude.{
  ℕ, some, Bytes, bytes, [], ◌∷◌, ◌++◌, drop, same_iff, starts_with, starts_with-append, true,
  false, Bool-cases, ◌≡◌, ◌≢◌, ◌↔◌, inl, inr, refl, sym, ap, ◌∙◌, subst, arith, ok, thrown,
  Result-cases,
}
use capnp_ls.LspMessageHandler.Publish.{Output, message_of}
use capnp_ls.LspMessageHandler.Invariants.{PrintsLengths, AllFramed, message-AllFramed}
use capnp_ls.LspLogger.{
  LogLevel, error_level, warning_level, info_level, LogSeverity, named_level, log_level,
  log_notification, send_lsp_log_message, log_message,
}

true_ne_false : true ≡ false → ⊥
true_ne_false e = cc

thrown_ne_ok : (t : Bytes) → thrown ≡ ok t → ⊥
thrown_ne_ok t e = cc

ok_injective : (s t : Bytes) → ok s ≡ ok t → s ≡ t
ok_injective s t e = cc

abbrev pub level_name : LogLevel → Bytes
level_name error_level = bytes "error"
level_name warning_level = bytes "warning"
level_name info_level = bytes "info"

abbrev pub prefix : Bytes
prefix = bytes "lsp_server="

-- A text that starts with another is it, and what follows.
starts_with-split : (p s : Bytes) → starts_with p s ≡ true → (rest : Bytes) × (s ≡ p ++ rest)
unfolding starts_with
starts_with-split [] s e = (s, refl)
starts_with-split (x ∷ p) [] e = cc
starts_with-split (x ∷ p) (y ∷ s) e =
    let (rest, f) = starts_with-split p s (ground arith) in (rest, ground arith)

named_level_iff :
    (name : Bytes) (l : LogLevel)
    → l ≢ warning_level
    → (named_level name ≡ l) ↔ (name ≡ level_name l)
unfolding named_level
named_level_iff name error_level ne = ground (
  arith,
  same_iff name (bytes "error"),
  same_iff name (bytes "info"),
  same_iff name (bytes "warning"),
)
named_level_iff name warning_level ne = absurd (ne refl)
named_level_iff name info_level ne = ground (
  arith,
  same_iff name (bytes "error"),
  same_iff name (bytes "info"),
  same_iff name (bytes "warning"),
)

level_of_rest : (rest : Bytes) → log_level (some (prefix ++ rest)) ≡ named_level rest
unfolding log_level starts_with
level_of_rest rest = refl

level_of_other :
    (value : Bytes) → starts_with prefix value ≡ false → log_level (some value) ≡ warning_level
unfolding log_level
level_of_other value e = ground arith

-- The level is set to another than the default, warning, exactly if the variable is "lsp_server="
-- and this level's name.
pub log_level_iff :
    (value : Bytes) (l : LogLevel)
    → l ≢ warning_level
    → (log_level (some value) ≡ l) ↔ (value ≡ prefix ++ level_name l)
log_level_iff value l ne = elim (Bool-cases (starts_with prefix value)) [
  | inl e ↦
      let (rest, f) = starts_with-split prefix value e in
      let named = named_level_iff rest l ne in
      (
        λ h.
            f
            ∙ ap (λ r. prefix ++ r)
                (named.0 (sym (level_of_rest rest) ∙ ap (λ v. log_level (some v)) (sym f) ∙ h)),
        λ h.
            ap (λ v. log_level (some v)) f
            ∙ level_of_rest rest
            ∙ named.1 (ap (drop 11) (sym f ∙ h)),
      )
  | inr e ↦ (
    λ h. absurd (ne (sym h ∙ level_of_other value e)),
    λ h. absurd (
        true_ne_false
          (sym (ap (starts_with prefix) h ∙ starts_with-append prefix (level_name l)) ∙ e)),
  )
]

send_lem :
    (output : Output) (severity : LogSeverity) (body_text body : Bytes)
    → output.encode (log_notification severity body_text) ≡ ok body
    → send_lsp_log_message output severity body_text ≡ ok (message_of output body)
unfolding send_lsp_log_message
send_lem output severity body_text body e = ground arith

send_thrown :
    (output : Output) (severity : LogSeverity) (body_text : Bytes)
    → output.encode (log_notification severity body_text) ≡ thrown
    → send_lsp_log_message output severity body_text ≡ thrown
unfolding send_lsp_log_message
send_thrown output severity body_text e = ground arith

-- What is written is the message of an encoded notification.
pub log_message-ok :
    (output : Output) (severity : LogSeverity) (file : Bytes) (line : ℕ) (message written : Bytes)
    → log_message output severity file line message ≡ ok written
    → (text : Bytes) × (body : Bytes) × (output.encode (log_notification severity text) ≡ ok body)
      × (message_of output body ≡ written)
unfolding log_message
log_message-ok output severity file line message written h =
    let full = file ++ (bytes ":" ++ (output.decimal line ++ (bytes ": " ++ message))) in
    elim (Result-cases (output.encode (log_notification severity full))) [
      | inl e ↦ absurd (thrown_ne_ok written (sym (send_thrown output severity full e) ∙ h))
      | inr (body, e) ↦
          (full, body, e, ok_injective _ _ (sym (send_lem output severity full body e) ∙ h))
    ]

-- Where numbers are printed in decimal and encoded values are not longer than size_t counts, what a
-- log message writes is one header with the length of the body, and the body.
pub log_message-AllFramed :
    (output : Output) (severity : LogSeverity) (file : Bytes) (line : ℕ) (message written : Bytes)
    → PrintsLengths output
    → log_message output severity file line message ≡ ok written
    → AllFramed (written ∷ [])
log_message-AllFramed output severity file line message written prints h =
    let (text, body, e, same) = log_message-ok output severity file line message written h in
    subst (λ t. AllFramed (t ∷ [])) same
      (message-AllFramed output prints (log_notification severity text) body e)
