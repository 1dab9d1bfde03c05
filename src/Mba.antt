-- ===== src/Mba.antt =====
-- The two passes that replace arithmetic by mixed Boolean-arithmetic: lib/MBAAdd.cpp in `Add` and
-- lib/MBASub.cpp in `Sub`. The walk over a block and a function is the same in both, and stands in
-- `Rewrite`, over what the two passes choose.
pub mod Rewrite
pub mod Add
pub mod Sub
mod Tests
