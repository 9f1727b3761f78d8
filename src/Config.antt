-- ===== src/Config.antt =====
-- src/config: the environment that the server refuses to start without.
pub mod Env
