-- ===== src/Lib.antt =====
-- A verification library for llvm-tutor, a collection of out-of-tree LLVM passes. Each pass is a
-- plugin of its own: `opt` loads it, its registration callback adds the pass for a pipeline name,
-- and LLVM runs it on a function or a module. Passes meet in LLVM's data structures and through
-- the analysis manager: ConvertFCmpEq runs on what FindFCmpEq found, and printers print what an
-- analysis computed.
--
-- What the passes share:
--   Prelude   helper lemmas; `Prelude.Containers` has LLVM's sets and maps as lists;
--   Ir        the part of llvm/IR that the passes read and write, as data, and `Ir.Query` for what
--             LLVM's classes answer about it, which `Ir.Described` describes;
--   Machine   a meaning for functions: registers, a world with unknown operations, and runs of
--             basic blocks with fuel for the number of blocks;
--             `Machine.Flow` adds PHI nodes and branches that the code itself spells out;
--   Printf    llvm::format with the conversions of texts that the printers use, and
--             `Printf.Prints` for the parts of a text; a printer stands in the module `Printer` of
--             its pass, and gives the text that goes to the output stream;
--   Builder   IRBuilder as an interface with the law LLVM documents, filled by a folding builder.
-- The passes, each with its source:
--   Mba       lib/MBAAdd.cpp and lib/MBASub.cpp: `run_on_basic_block` is runOnBasicBlock, `run` is
--             run; the two passes differ in their Rewriter, `mba_add` and `mba_sub`;
--   Riv       lib/RIV.cpp: `build_riv` is buildRIV, `riv_loop` its while loop; the dominator tree
--             is an argument;
--   Merge     lib/MergeBB.cpp and include/MergeBB.h: `Insts` has canRemoveInst and
--             canMergeInstructions, `Lockstep` LockstepReverseIterator, `Targets`
--             updateBranchTargets, `Pass` mergeDuplicatedBlock and run;
--   Fcmp      lib/FindFCmpEq.cpp (`find_fcmp_eq`) and lib/ConvertFCmpEq.cpp
--             (`convert_fcmp_eq_instruction`, `convert_run`, `convert_pass`);
--   Opcodes   lib/OpcodeCounter.cpp: `generate_opcode_map` is generateOpcodeMap;
--   StaticCalls  lib/StaticCallCounter.cpp: `run_on_module` is runOnModule, with the global
--             CallerResult passed in and out;
--   DuplicateBb  lib/DuplicateBB.cpp: `find_bbs_to_duplicate` is findBBsToDuplicate, on the result
--             of Riv; `Clone` has cloneBB, as `clone_bb` with the loop `clone_insts`, and run;
--   Inject    lib/InjectFuncCall.cpp: `say_hello_all` is STEP 3 of runOnModule, `log_functions`
--             the loop of loggingReturn;
--   DynamicCalls  lib/DynamicCallCounter.cpp: `instrument_all` is STEP 1 of runOnModule,
--             `run_on_module` all of it; `Increment` has a machine with a
--             cell for each global, `Printed` what STEP 4 hands to printf;
--   HelloWorld  the passes of HelloWorld/HelloWorld.cpp: LogReturn is `log_return_run`, HelloWorld
--             is `hello_world_run`;
--   StaticMain  tools/StaticMain.cpp: `main` is main, on what parseIRFile gives;
--   Plugins   the registration callbacks of lib/*.cpp and HelloWorld/HelloWorld.cpp, with the
--             analyses they register and those that passes ask for.
--
-- State and bounds. A pointer is the identity of what it points to. An instruction that a pass
-- creates takes the next free identity, which the passes thread along. `riv_loop` takes fuel, one
-- round for each node of the dominator tree, since each node is pushed and popped once. The walk
-- over two blocks takes as many rounds as the first block has instructions, since each round
-- moves the first pointer back. A counter of type `unsigned` wraps at 2^32; STATISTIC counters,
-- which are 64 bits wide and only reported, are plain numbers.
--
-- What LLVM implements and a pass only calls is an argument: IRBuilder, the dominator tree,
-- predecessors(BB), Instruction::isSameOperationAs, DeleteDeadBlock, getOpcodeName,
-- SplitBlockAndInsertIfThenElse, parseIRFile, the random numbers, and how LLVM prints values,
-- types, blocks and rows with a number. An instruction that cloneBB replaces by a PHI node hands its
-- identity on to the node, so that ReMapper, which the model keeps and reads as the code does, maps
-- values to themselves. Not modelled: the names that cloneBB gives to blocks, debug output, and the
-- attributes of printf.
pub mod Prelude
pub mod Ir
pub mod Machine
pub mod Builder
pub mod Mba
pub mod Riv
pub mod Merge
pub mod Fcmp
pub mod Opcodes
pub mod StaticCalls
pub mod DuplicateBb
pub mod Inject
pub mod DynamicCalls
pub mod HelloWorld
pub mod Plugins
pub mod Printf
pub mod StaticMain
