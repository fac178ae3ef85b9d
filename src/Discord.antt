-- ===== src/Discord.antt =====
-- The package discord.
pub mod Roles
pub mod Relay
pub mod Cache
