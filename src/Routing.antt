-- ===== src/Routing.antt =====
-- libifstate/routing/__init__.py: routes and policy rules.
pub mod Match
pub mod Lookup
pub mod Config
pub mod Tables
mod Tests
pub mod Rules
