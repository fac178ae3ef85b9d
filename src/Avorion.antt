-- ===== src/Avorion.antt =====
-- The package avorion: the game server and what is known of its players.
pub mod Jumps
pub mod Server
pub mod Lifecycle
pub mod Players
pub mod Sectors
pub mod Events
pub mod Integration
pub mod Supervisor
pub mod Database
