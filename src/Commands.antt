-- ===== src/Commands.antt =====
-- The package discord/commands: output pages, the registrar with its permission checks, and the
-- argument helpers.
pub mod Output
pub mod Embed
pub mod Args
pub mod Errors
pub mod Registrar
pub mod Process
pub mod Functions
