-- ===== src/DynamicCalls.antt =====
-- lib/DynamicCallCounter.cpp: every function definition counts its calls in a global, and a new
-- function, run when the program ends, prints the numbers. A StringMap stands as a list; its order
-- is that of insertion, which LLVM does not promise. Linkage, alignment and the attributes of printf
-- are left out.
pub mod Globals
pub mod Increment
pub mod Counted
pub mod Strings
pub mod Printed
mod Tests
use Prim.Native.String.{String, ◌++◌ as append}
use llvm_tutor.Prelude.{
  ℕ, ◌+◌, ◌==◌, Bool, true, false, Option, none, some, List, [], ◌∷◌, ◌++◌, if◌then◌else◌,
}
use llvm_tutor.Prelude.Containers.{string_eq, lookup, modify}
use llvm_tutor.Ir.{
  Value, global, function, instruction, constant_int, Ty, int_ty, void_ty, BinaryOp, add, Opcode,
  binary, call_base, phi, ret, landing_pad, other, Instruction, BasicBlock, Function, string_data,
  int_data, GlobalVariable, Module, PreservedAnalyses,
}
use llvm_tutor.Inject.{
  pointer_ty, WithGlobals, initialized_global, string_global, create_global_string, find_function,
  get_or_insert_printf, has_definition,
}

-- The opcodes of loads and stores, by their numbers in LLVM.
abbrev pub load : Opcode
load = other 32

abbrev pub store : Opcode
store = other 33

abbrev pub create_global_counter : String → List GlobalVariable → WithGlobals ℕ
create_global_counter name = initialized_global name (int_ty 32) (int_data 0)

abbrev pub counter_name : String → String
counter_name name = append "CounterFor_" name

-- Load2, Inc2 and the store back.
abbrev pub counter_code : ℕ → ℕ → List Instruction
counter_code n var =
    record { id = n; opcode = load; ty = int_ty 32; operands = global var ∷ [] }
    ∷ record {
      id = n + 1;
      opcode = binary add;
      ty = int_ty 32;
      operands = constant_int 32 1 ∷ instruction n ∷ [];
    }
    ∷ record {
      id = n + 2;
      opcode = store;
      ty = void_ty;
      operands = instruction (n + 1) ∷ global var ∷ [];
    }
    ∷ []

-- Before getFirstInsertionPt(): after the PHI nodes and a landing pad.
unfoldable pub insert_code : List Instruction → List Instruction → List Instruction
insert_code cs [] = cs
insert_code cs (i ∷ is) =
    let rest = insert_code cs is in
    elim i.opcode [ phi ls ↦ i ∷ rest | landing_pad ↦ i ∷ (cs ++ is) | _ ↦ cs ++ (i ∷ is) ]

-- CallCounterMap and FuncNameMap, with the globals and the next identity.
pub record CounterState : Type 0 where
  pub globals : List GlobalVariable
  pub next : ℕ
  pub call_counter_map : List (String × ℕ)
  pub func_name_map : List (String × ℕ)

abbrev pub assign : String → ℕ → List (String × ℕ) → List (String × ℕ)
assign name v = modify name 0 (λ k. v)

-- A round of STEP 1: what it makes of the state, and the function.
abbrev pub count_function : Function → CounterState → CounterState
count_function f st =
    let var = create_global_counter (counter_name f.name) st.globals in
    let name = create_global_string f.name var.globals in
    record {
      globals = name.globals;
      next = st.next + 3;
      call_counter_map = assign f.name var.value st.call_counter_map;
      func_name_map = assign f.name name.value st.func_name_map;
    }

unfoldable pub instrument : Function → CounterState → Function × CounterState
instrument f st = elim f.blocks [
  | [] ↦ (f, st)
  | b ∷ bs ↦
      let var = create_global_counter (counter_name f.name) st.globals in
      (
        record f {
          blocks =
              record b {
                instructions = insert_code (counter_code st.next var.value) b.instructions;
              }
              ∷ bs;
        },
        count_function f st,
      )
]

unfoldable pub instrument_all : List Function → CounterState → List Function × CounterState
instrument_all [] st = ([], st)
instrument_all (f ∷ fs) st =
    let here = instrument f st in let rest = instrument_all fs here.1 in (here.0 ∷ rest.0, rest.1)

abbrev pub printf_with : ℕ → ℕ → List Value → Instruction
printf_with printf n vs = record {
  id = n;
  opcode = call_base (some printf) false;
  ty = int_ty 32;
  operands = vs ++ (function printf ∷ []);
}

-- The loads and calls of STEP 4, one pair for each counter.
unfoldable pub print_counters :
    (printf format : ℕ) → List (String × ℕ) → List (String × ℕ) → ℕ → List Instruction
print_counters printf format names [] n =
    record { id = n; opcode = ret; ty = void_ty; operands = [] } ∷ []
print_counters printf format names ((name, var) ∷ items) n =
    record { id = n; opcode = load; ty = int_ty 32; operands = global var ∷ [] }
    ∷ printf_with printf (n + 1) (global format ∷ global (lookup name 0 names) ∷ instruction n ∷ [])
    ∷ print_counters printf format names items (n + 2)

-- BasicBlock::Create puts the block at the end of the function.
unfoldable pub add_block : ℕ → BasicBlock → List Function → List Function
add_block id b [] = []
add_block id b (f ∷ fs) =
    if f.id == id then record f { blocks = f.blocks ++ (b ∷ []) } ∷ fs else f ∷ add_block id b fs

abbrev pub wrapper_declaration : ℕ → Function
wrapper_declaration id = record {
  id = id;
  name = "printf_wrapper";
  args = [];
  blocks = [];
  opt_none = false;
}

unfoldable pub get_or_insert_wrapper : ℕ → List Function → ℕ × List Function
get_or_insert_wrapper new_id fs = elim (find_function "printf_wrapper" fs) [
  | some k ↦ (k, fs)
  | none ↦ (new_id, fs ++ (wrapper_declaration new_id ∷ []))
]

abbrev pub result_header : String
result_header =
    "=================================================\nLLVM-TUTOR: dynamic analysis results\n=================================================\nNAME                 #N DIRECT CALLS\n-------------------------------------------------\n"

-- The module, the function appended to the global destructors, and what runOnModule returns.
pub record DynamicRun : Type 0 where
  pub output : Module
  pub dtor : Option ℕ
  pub changed : Bool

abbrev pub counter_start : ℕ → List GlobalVariable → CounterState
counter_start n gs = record { globals = gs; next = n; call_counter_map = []; func_name_map = [] }

-- runOnModule, with the identities for two new functions, for the new block and for instructions.
unfoldable pub run_on_module : (printf_id wrapper_id label n : ℕ) → Module → DynamicRun
run_on_module printf_id wrapper_id label n m =
    let step1 = instrument_all m.functions (counter_start n m.globals) in
    if has_definition m.functions
    then (let printf = get_or_insert_printf printf_id step1.0 in
        let format = string_global "ResultFormatStrIR" "%-20s %-10lu\n" step1.1.globals in
        let header = string_global "ResultHeaderStrIR" result_header format.globals in
        let wrapper = get_or_insert_wrapper wrapper_id printf.1 in
        let block : BasicBlock = record {
          label = label;
          instructions =
              printf_with printf.0 step1.1.next (global header.value ∷ [])
              ∷ print_counters printf.0 format.value step1.1.func_name_map step1.1.call_counter_map
                  (step1.1.next + 1);
        } in
        record {
          output = record {
            functions = add_block wrapper.0 block wrapper.1;
            globals = header.globals;
          };
          dtor = some wrapper.0;
          changed = true;
        })
    else record { output = m; dtor = none; changed = false }

abbrev pub dynamic_run :
    (printf_id wrapper_id label n : ℕ) → Module → DynamicRun × PreservedAnalyses
dynamic_run printf_id wrapper_id label n m =
    let out = run_on_module printf_id wrapper_id label n m in
    (out, if out.changed then PreservedAnalyses.none_preserved else PreservedAnalyses.all_preserved)
