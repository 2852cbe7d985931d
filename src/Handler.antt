-- ===== src/Handler.antt =====
-- The connection handler of crates/websocket/src/handler.rs: what a command of the browser does.
pub mod Rate
pub mod RateLaws
pub mod Command
pub mod CommandLaws
pub mod Shell
pub mod ShellLaws
pub mod Ingress
pub mod IngressLaws
pub mod Tests
