-- ===== src/Shadow.antt =====
-- shadow/: the forward-only replay of one frozen candidate, its database and its notifications.
pub mod Boundary
pub mod Tables
pub mod Store
pub mod Sender
pub mod Bootstrap
pub mod Download
pub mod Engine
