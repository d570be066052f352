-- ===== src/Levels.antt =====
-- The pages on which a level is played, kept and made: frontend/src/features/content/OfficialLevelPage.tsx,
-- frontend/src/features/content/LocalLevelPage.tsx, frontend/src/features/dashboard/DashboardPage.tsx
-- (LocalContentSection) and frontend/src/features/maker/MakerPage.tsx.
pub mod Official
pub mod Local
pub mod Finished
pub mod Kept
mod Examples
