-- ===== src/HelloWorld.antt =====
-- HelloWorld/HelloWorld.cpp: the pass LogReturn, which calls log_function_return before every return
-- of a function, and HelloWorld, which prints. The address of the message, Builder.CreateInBoundsGEP,
-- is an argument.
pub mod Kept
pub mod Visitor
mod Tests
use Prim.Native.String.{String, ◌++◌ as append}
use llvm_tutor.Prelude.{
  ℕ, ◌+◌, Bool, true, false, Option, none, some, List, [], ◌∷◌, ◌++◌, if◌then◌else◌, length,
}
use llvm_tutor.Prelude.Containers.{string_eq, ◌===◌}
use llvm_tutor.Ir.{
  Value, function, Ty, void_ty, Opcode, call_base, Instruction, BasicBlock, Function, string_data,
  GlobalVariable, Module, PreservedAnalyses,
}
use llvm_tutor.Builder.{Build}
use llvm_tutor.Inject.{pointer_ty, string_ty, find_function, Injected, is_return}

abbrev pub log_declaration : ℕ → Function
log_declaration id = record {
  id = id;
  name = "log_function_return";
  args = pointer_ty ∷ [];
  blocks = [];
  opt_none = false;
}

-- M->getOrInsertFunction("log_function_return", ...).
unfoldable pub get_or_insert_log : ℕ → List Function → ℕ × List Function
get_or_insert_log new_id fs = elim (find_function "log_function_return" fs) [
  | some k ↦ (k, fs)
  | none ↦ (new_id, fs ++ (log_declaration new_id ∷ []))
]

abbrev pub log_call : ℕ → ℕ → Value → Instruction
log_call id log_func v = record {
  id = id;
  opcode = call_base (some log_func) false;
  ty = void_ty;
  operands = v ∷ function log_func ∷ [];
}

-- The instructions, and the next free identity.
pub record Logged (A : Type 0) : Type 0 where
  pub now : A
  pub next : ℕ

pub record LogRun : Type 0 where
  pub blocks : List BasicBlock
  pub functions : List Function
  pub globals : List GlobalVariable
  pub preserved : PreservedAnalyses

module _ (create_gep : ℕ → Build) where
  unfoldable pub log_returns : (log_func msg : ℕ) → List Instruction → ℕ → Logged (List Instruction)
  log_returns log_func msg [] n = record { now = []; next = n }
  log_returns log_func msg (i ∷ is) n =
      let ptr = create_gep msg n in
      let after = log_returns log_func msg is (ptr.next + 1) in
      let rest = log_returns log_func msg is n in
      if is_return i.opcode
      then record {
        now = ptr.code ++ (log_call ptr.next log_func ptr.value ∷ i ∷ after.now);
        next = after.next;
      }
      else record { now = i ∷ rest.now; next = rest.next }

  unfoldable pub log_all_returns :
      (log_func msg : ℕ) → List BasicBlock → ℕ → Logged (List BasicBlock)
  log_all_returns log_func msg [] n = record { now = []; next = n }
  log_all_returns log_func msg (b ∷ bs) n =
      let here = log_returns log_func msg b.instructions n in
      let rest = log_all_returns log_func msg bs here.next in
      record { now = record b { instructions = here.now } ∷ rest.now; next = rest.next }

  -- LogReturn::run on a function of the module.
  unfoldable pub log_return_run : (new_id n : ℕ) → Module → Function → LogRun
  log_return_run new_id n m f =
      let log_func = get_or_insert_log new_id m.functions in
      let out = log_all_returns log_func.0 (length m.globals) f.blocks n in
      if f.name === "log_function_return"
      then record {
        blocks = f.blocks;
        functions = m.functions;
        globals = m.globals;
        preserved = PreservedAnalyses.all_preserved;
      }
      else record {
        blocks = out.now;
        functions = log_func.1;
        globals =
            m.globals
            ++ (record {
              name = ".str";
              value_ty = string_ty;
              initializer = some (string_data (append "Returning from " f.name));
            }
                ∷ []);
        preserved = PreservedAnalyses.none_preserved;
      }
