-- ===== src/HelloWorld/Visitor.antt =====
-- HelloWorld/HelloWorld.cpp, visitor and HelloWorld::run: what the pass writes to stderr about a
-- function. How LLVM prints a number and the return type are
-- parameters.
use Prim.Native.String.{String, ◌++◌ as append}
use llvm_tutor.Prelude.{ℕ, length}
use llvm_tutor.Ir.{Function, PreservedAnalyses, all_preserved}

module _ (number_text : ℕ → String) (return_type : Function → String) where
  unfoldable pub visitor : Function → String
  visitor f = append "(llvm-tutor) Hello from: " (
      append f.name (
        append "\n(llvm-tutor)   number of arguments: " (
          append (number_text (length f.args))
            (append "\n(llvm-tutor) func return type:" (append (return_type f) "\n")))))

  unfoldable pub hello_world_run : Function → String × PreservedAnalyses
  hello_world_run f = (visitor f, all_preserved)
