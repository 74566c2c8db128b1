-- ===== src/Plugins.antt =====
-- packages/contracts: the contracts of plug-ins and their registry, with the application's built-in
-- plug-ins (apps/api/app/plugin_registry.py).
pub mod Metadata
pub mod Settings
pub mod Registry
pub mod Builtin
