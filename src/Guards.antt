-- ===== src/Guards.antt =====
-- The page guards: src/storage/page/page_guard.cpp and src/include/storage/page/page_guard.hpp.
pub mod Guard
pub mod Scope
pub mod Held
pub mod Balance
