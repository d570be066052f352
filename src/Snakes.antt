-- ===== src/Snakes.antt =====
-- Snakes and ladders: the board, the engine, the layout generator of the level editor and the
-- check of a stored level. The files are named in each child.
mod Examples
pub mod BoardMap
pub mod WeightedRandom
pub mod Engine
pub mod Layout
pub mod Schema
pub mod Questions
