-- ===== src/Chat.antt =====
-- The multicast chat of Assignment3P1.
pub mod Courses
pub mod Menu
pub mod Table
pub mod Talk
mod Tests
