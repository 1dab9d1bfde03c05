-- ===== src/Machine.antt =====
-- What instructions do, as far as the passes over straight-line code rely on it: the integer
-- operations of LLVM's language reference on iw, and everything else (memory, calls, branches,
-- floating point) as an arbitrary function on an arbitrary world. It is the yardstick for
-- lib/MBAAdd.cpp and lib/MBASub.cpp and translates no code of the repository.
pub mod Exec
pub mod Agreement
pub mod Function
pub mod Flow
