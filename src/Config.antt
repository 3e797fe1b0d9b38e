-- ===== src/Config.antt =====
-- types.go: the configuration records. A handler or a hook of the application is named by a
-- number: what a call of it does is up to the environment. A nil function is `none`.
pub mod Tests
pub mod Queue
pub mod Sdk
