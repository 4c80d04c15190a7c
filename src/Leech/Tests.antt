-- ===== src/Leech/Tests.antt =====
-- leechVM-master: programs and the theorems at concrete inputs.
mod Programs
mod Theorems
