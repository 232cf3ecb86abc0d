-- ===== src/Cli.antt =====
-- The command line interface of cli_server/: the commands that a client sends, and their handler.
pub mod Text
pub mod Parser
pub mod Reply
pub mod Settings
pub mod Directory
pub mod Connection
pub mod Session
mod Examples
mod Tests
