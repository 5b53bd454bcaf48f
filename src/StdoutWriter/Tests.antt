-- ===== src/StdoutWriter/Tests.antt =====
-- Runs of the writer on the response to a request of a client.
use capnp_ls.Prelude.{◌<◌, Bytes, bytes, [], ◌∷◌, length, some, ◌≡◌, refl, ap, ◌∙◌, same, arith}
use capnp_ls.LspTypes.{try_parse_lsp_method}
use capnp_ls.StdinReader.{drain, parse_next_message, is_digit, size_mod}
use capnp_ls.StdinReader.Frames.{framed, text}
use capnp_ls.StdinReader.Sample.{answer, answer-IsFrame}
use capnp_ls.LspMessageHandler.Json.{whole, with, each_field, get_object, get_string}
use capnp_ls.LspMessageHandler.Publish.{message_of}
use capnp_ls.LspMessageHandler.Messages.{read_message, read_field, read_id, handle_message}
use capnp_ls.LspMessageHandler.Requests.{handle_message-definition}
use capnp_ls.LspMessageHandler.Sample.{asked, short_output-PrintsLengths, definition_message}
use capnp_ls.Server.Loop.{started}
use capnp_ls.Server.Runs.{Holds, Holds_here}
use capnp_ls.Server.Handled.{handle_message-Holds}
use capnp_ls.StdoutWriter.{OutputStream, TakesAll, write, write_all}
use capnp_ls.StdoutWriter.Framing.{drain-Reach}
use capnp_ls.StdoutWriter.Cuts.{parse_next_message-cut}

abbrev wide : OutputStream
wide = record { taken = λ sent message. length message }

wide-TakesAll : TakesAll wide
wide-TakesAll sent message = omega arith

abbrev question : Bytes
question = framed (bytes "2") (bytes "{}")

-- The server that was asked for a definition.
abbrev replied : Holds asked started (handle_message asked (some question) started.handler) []
replied = handle_message-Holds asked (some question) started.handler (Holds_here asked started refl)

replied_written : replied.server.handler.written ≡ question ∷ []
unfolding read_message read_field read_id with each_field get_object get_string same
    try_parse_lsp_method is_digit message_of
replied_written =
    ap (λ h. h.written)
      (replied.handler_is
        ∙ handle_message-definition asked (bytes "2") (bytes "{}") definition_message tt (whole 1)
            (bytes "{}") started.handler (ground arith) refl refl refl refl refl)

sent_small : length (write_all wide replied.server.handler.written []) < size_mod
unfolding write_all write framed
sent_small = rw replied_written (omega arith)

drain-Reach_example :
    let sent = write_all wide replied.server.handler.written [] in
    drain 2 sent (length sent) 0
    ≡ some (record { processed_pos = length sent; messages = replied.server.handler.written })
drain-Reach_example =
    drain-Reach asked wide 2 short_output-PrintsLengths wide-TakesAll replied.reached sent_small
      (omega (arith, ap length replied_written))

-- A stream that takes no more than 22 bytes of a message.
abbrev narrow : OutputStream
narrow = record { taken = λ sent message. 22 }

parse_next_message-cut_example :
    let sent = write_all narrow (text answer ∷ bytes "Content-Length: 0\r\n\r\n" ∷ []) [] in
    parse_next_message sent (length sent) 0
    ≡ record { processed_size = 24; content = some (framed (bytes "3") (bytes "xCo")) }
unfolding framed
parse_next_message-cut_example =
    parse_next_message-cut narrow answer (bytes "Content-Length: 0\r\n\r\n") 1 answer-IsFrame refl
      (omega arith) (omega arith) (omega arith) (omega arith)
