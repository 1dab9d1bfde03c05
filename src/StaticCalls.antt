-- ===== src/StaticCalls.antt =====
-- lib/StaticCallCounter.cpp: how often each function is called directly in a module, and from where.
-- A `const Function *` is the function's identity.
pub mod Correct
pub mod Printer
mod Tests
use llvm_tutor.Prelude.{
  ℕ, ◌+◌, wrap_unsigned, Bool, true, false, Option, none, some, List, [], ◌∷◌, if◌then◌else◌,
}
use llvm_tutor.Prelude.Containers.{nat_eq, find, modify, insert}
use llvm_tutor.Ir.{Opcode, call_base, Instruction, BasicBlock, Function, Module, PreservedAnalyses}

abbrev pub ResultStaticCc : Type 0
ResultStaticCc = List (ℕ × ℕ)

-- A MapVector of SetVectors.
abbrev pub ResultCaller : Type 0
ResultCaller = List (ℕ × List ℕ)

-- Res, and the global CallerResult, which no run resets.
pub record CallState : Type 0 where
  pub res : ResultStaticCc
  pub caller_result : ResultCaller

-- dyn_cast<CallBase> and getCalledFunction.
abbrev pub called_function : Opcode → Option ℕ
called_function (call_base f d) = f
called_function _ = none

-- CallerResult[DirectInvoc].insert(&Func), and the count in Res, which starts with 0.
unfoldable pub count_call : ℕ → ℕ → CallState → CallState
count_call func callee st = record {
  res = modify callee 0 (λ n. wrap_unsigned (n + 1)) st.res;
  caller_result = modify callee [] (insert func) st.caller_result;
}

unfoldable pub visit_instruction : ℕ → Instruction → CallState → CallState
visit_instruction func i st = elim (called_function i.opcode) [
  | none ↦ st
  | some callee ↦ count_call func callee st
]

unfoldable pub visit_block : ℕ → List Instruction → CallState → CallState
visit_block func [] st = st
visit_block func (i ∷ is) st = visit_block func is (visit_instruction func i st)

unfoldable pub visit_blocks : ℕ → List BasicBlock → CallState → CallState
visit_blocks func [] st = st
visit_blocks func (b ∷ bs) st = visit_blocks func bs (visit_block func b.instructions st)

abbrev pub is_declaration : Function → Bool
is_declaration f = elim f.blocks [ [] ↦ true | b ∷ bs ↦ false ]

unfoldable pub visit_functions : List Function → CallState → CallState
visit_functions [] st = st
visit_functions (f ∷ fs) st =
    let here = if is_declaration f then st else visit_blocks f.id f.blocks st in
    visit_functions fs here

-- runOnModule: Res starts empty, CallerResult is what earlier runs left.
unfoldable pub run_on_module : ResultCaller → Module → CallState
run_on_module callers m = visit_functions m.functions (record { res = []; caller_result = callers })
