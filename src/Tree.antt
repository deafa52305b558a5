-- ===== src/Tree.antt =====
-- The behaviour tree of motion_policy/nodes/: its nodes, and what one `tick` and one `halt` do.
mod Types
pub mod Leaf
pub mod Decorator
pub mod Walk
pub mod Operators
unfoldable pub use Types.*
