-- ===== src/LspMessageHandler.antt =====
-- lsp_message_handler.cpp: the messages of the client, what they do to the state, and what is written.
pub mod Json
pub mod Initialize
pub mod Definition
pub mod Publish
pub mod Schema
pub mod Conforming
pub mod Handlers
pub mod Messages
pub mod Induction
pub mod Invariants
pub mod Search
pub mod Answers
pub mod Orders
pub mod Navigation
pub mod Quiet
pub mod Requests
pub mod Goto
pub mod Sample
mod Tests
mod NavigationTests
