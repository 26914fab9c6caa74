-- ===== src/Guides.antt =====
-- packages/guardian_guides: migration guides written by a language model, checked and cached.
pub mod Syntax
pub mod Service
mod Tests
