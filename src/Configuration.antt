-- ===== src/Configuration.antt =====
-- The package configuration: the settings, their YAML form, loading and saving, and the methods
-- that the commands call.
pub mod Data
pub mod Pipes
pub mod Yaml
pub mod Storage
pub mod Aliases
pub mod Auth
pub mod Mods
pub mod ModFile
pub mod Tests
