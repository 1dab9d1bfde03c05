-- ===== src/Merge.antt =====
-- lib/MergeBB.cpp: merges identical blocks. `Insts` has canRemoveInst and canMergeInstructions,
-- `Lockstep` the iterator, `Targets` updateBranchTargets, `Pass` mergeDuplicatedBlock and run.
pub mod Insts
pub mod Lockstep
pub mod Targets
pub mod Pass
mod Tests
