-- ===== src/Go.antt =====
-- What the program uses of Go itself: dynamic values, errors, contexts. Each child is one of them.
pub mod Value
pub mod Int
pub mod Number
pub mod Context
