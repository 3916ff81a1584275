-- ===== src/Utils.antt =====
-- The utilities (src/utils).
pub mod Glob
