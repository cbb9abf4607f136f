-- ===== src/Engine/Complete.antt =====
-- That `bfs_posts` misses no document unless it has reached its limit. `Scan` is about one row, `Cover`
-- the invariant of the loop, and `Misses` the theorem.
pub mod Scan
pub mod Cover
pub mod Misses
