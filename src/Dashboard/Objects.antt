-- ===== src/Dashboard/Objects.antt =====
-- The visualizations that the dashboard shows.
pub mod Banner
pub mod Cards
pub mod MoreCards
pub mod Figure1
pub mod Figure4
pub mod Figure2
pub mod Figure3
pub mod Pies
pub mod Tables
pub mod DetailTables
