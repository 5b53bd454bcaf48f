-- ===== src/Server.antt =====
-- The server as it runs (main.cpp, server_context.h, the task set of stdin_reader.h): handlers that
-- wait for a process, and the turns of the event loop that go on with them, in any order.
pub mod Tasks
pub mod Loop
pub mod Induction
pub mod Stages
pub mod Alone
pub mod Begins
pub mod Refines
pub mod Diagnostics
pub mod Safety
pub mod Ends
pub mod Runs
pub mod Overlap
pub mod Current
pub mod Requests
pub mod Entries
pub mod Answered
pub mod Responses
pub mod Sent
pub mod Handled
pub mod Session
mod Tests
