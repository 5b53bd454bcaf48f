-- ===== src/Lib.antt =====
-- A verification library for capnp-ls, a language server for Cap'n Proto schemas (C++, src/).
--
-- The server reads LSP messages from standard input (stdin_reader), gives each to the message handler
-- (lsp_message_handler), which compiles schemas by running the capnp tool (compilation_manager,
-- subprocess_runner), turns the tool's error output into diagnostics (compile_error_parser) and its
-- request message into positions and locations (symbol_resolver), and writes responses to standard
-- output.
--
-- Files:
--   Prelude: shared names; byte strings (StringPtr, strstr), maps (kj::HashMap as an association
--     list with one entry to a key), results of code that throws, and a backtracking matcher for the
--     part of std::regex that the source uses.
--   LspTypes: src/lsp_types.h, src/lsp_types.cpp (tryParseLspMethod, KJ_STRINGIFY, Range).
--   Utils: src/utils.cpp (uriToPath).
--   StdinReader: src/stdin_reader.cpp. `parse_next_message` is parseNextMessage; `drain` is the loop
--     of monitorStdin, `compact` what follows it, `receive` the write of tryRead, `monitor_stdin` one
--     read and `monitor_all` the reads of a whole input. The buffer's memory is modelled with what
--     earlier reads left in it, since strstr searches past the bytes that were read.
--   SubprocessRunner: src/subprocess_runner.cpp. `build_args` is buildArgs, `run` is run over a record
--     `Processes` of what the operating system does; `exec` and `child_end` are the child's side of it,
--     `collect` the parent's. `launch` has the descriptors: the two pipes, fork, what the child and the
--     parent close. It stands beside `run`, which asks `Processes` whether a launch succeeds.
--   CompileErrorParser: src/compile_error_parser.cpp. `error_pattern` is the regular expression,
--     `handle_lines` the loop over the lines of the output, `add_diagnostic` addDiagnostic.
--   SymbolResolver: src/symbol_resolver.cpp. `advance` is the loop of getPositionInFile,
--     `search_imports` that of extractFilePath, `resolve` the reading of a request into the maps
--     fileSourceInfoMap and nodeLocationMap. A record `Filesystem` stands for kj's.
--     Indexed, Requested and Named say what a request asks the maps to hold, and what they hold.
--   CompilationManager: src/compilation_manager.cpp. `compile` is compile,
--     `check_capnp_version_compatible` the version check, `build_command` buildCommand; the state is
--     the flag of the manager, the symbols and the diagnostics. The compiler's run, the file system,
--     the schema loader and the decoding of the request are parameters.
--   LspMessageHandler: src/lsp_message_handler.cpp. `handle_message` is handleMessage, `dispatch` its
--     switch, `handle_did_save` and its like the handlers, `notifications` the loop of
--     publishDiagnostics; the state `Handler` holds the members, what was written to
--     StdoutWriter, and whether ServerContext was told to shut down. The JSON codec and kj's printing of
--     numbers are parameters.
--     Schema has the messages that the protocol lets the server send; Navigation and Goto join the
--     handler with the manager and the resolver.
--   Server: src/main.cpp, src/server_context.h, and the promises of the handler and the manager.
--     `begin_message` is handleMessage up to its first wait, `turn` what follows a wait of its promise
--     (`turn_job` for the chain of compile, `turn_reply` for the response), `Server` the handler with
--     the tasks of StdinReader, `Step` what the event loop may do next, in no fixed order: a message is
--     begun, a task has a turn, a line is logged, a signal arrives, run returns. These are more runs
--     than the code has: a task may have a turn between two messages of one read, and messages may be
--     begun where run was told to shut down and has not returned. `handle_message` of
--     LspMessageHandler stands for a task that nothing comes between; Refines compares the two.
--     `Session` joins the reads of StdinReader to these steps: one read begins all its messages with
--     nothing between them. Requests has the responses that messages ask for, Entries reads what is
--     written back as a list of entries, Sent has the shape of what is written.
--   StdoutWriter: src/stdout_writer.cpp. `write` is write with its promise dropped, as its callers do;
--     the number of bytes that the stream takes at once is a parameter.
--   LspLogger: src/logger.h. `log_level` is the constructor's reading of CPP_LOG, `log_message`
--     logMessage.
--
-- Bounds and fuel: size_t wraps at 2 ^ 64 and uint32_t at 2 ^ 32 where the code computes with them.
-- `drain` takes fuel: one round to a message; the theorems on it say how much is enough. `build_args`
-- gives itself one round to a byte and one more. Byte strings are lists of numbers; a C string ends
-- at its first NUL, and memory past the end of the buffer is not modelled (strstr stops there).
--
-- Not modelled: which lines the components log and at which level, those at ERROR and FATAL that are
-- always written among them (`Step` allows any line between others, or none), kj's own order of turns
-- (the steps allow any), a file system that changes during a run, the current directory that chdir
-- sets for the files that are looked up, an atoi that overflows, a second initialize while a
-- compilation waits (its StringPtrs would point to freed strings), memory and lifetimes, and the
-- sample extension.
mod Prelude
pub mod Server
pub mod StdoutWriter
pub mod LspLogger
pub mod LspMessageHandler
pub mod LspTypes
pub mod Utils
pub mod StdinReader
pub mod SubprocessRunner
pub mod CompilationManager
pub mod CompileErrorParser
pub mod SymbolResolver
