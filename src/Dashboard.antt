-- ===== src/Dashboard.antt =====
-- `main` of scripts/build_full_kibana_dashboard.py.
pub mod Parts
pub mod Objects
pub mod Panels
pub mod References
pub mod Main
pub mod Wiring
pub mod Layout
pub mod Runs
mod Tests
