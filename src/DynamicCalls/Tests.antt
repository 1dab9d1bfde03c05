-- ===== src/DynamicCalls/Tests.antt =====
-- DynamicCallCounter on a module with one function.
use Prim.Native.String.{◌++◌ as append}
use llvm_tutor.DynamicCalls.Globals.{name_at}
use llvm_tutor.DynamicCalls.Increment.{Memory}
use llvm_tutor.DynamicCalls.Strings.{IsString}
use llvm_tutor.DynamicCalls.Printed.{number, address, calls_made, row_call, wrapper_code-calls}
use llvm_tutor.Prelude.{ℕ, some, Any, map, ◌≡◌, refl, false, List, [], ◌∷◌, ◌++◌, All}
use llvm_tutor.Prelude.Containers.{string_eq, find, lookup, modify}
use llvm_tutor.Ir.{
  global, function, instruction, int_ty, void_ty, ret, Instruction, Function, Module,
}
use llvm_tutor.Inject.{
  global_index, set_initializer, initialized_global, find_function, get_or_insert_printf,
  has_definition, printf_declaration,
}
use llvm_tutor.DynamicCalls.{
  load, counter_code, insert_code, instrument, instrument_all, counter_start, printf_with,
  print_counters, add_block, wrapper_declaration, get_or_insert_wrapper, run_on_module,
}
use llvm_tutor.DynamicCalls.Counted.{
  IsCounterMap, AreCounted, IsDefinition, HasCounter, instrument_all-AreCounted,
}

abbrev return : ℕ → Instruction
return n = record { id = n; opcode = ret; ty = void_ty; operands = [] }

abbrev foo : List Instruction → Function
foo is = record {
  id = 1;
  name = "foo";
  args = [];
  blocks = record { label = 0; instructions = is } ∷ [];
  opt_none = false;
}

abbrev sample : Module
sample = record { functions = foo (return 5 ∷ []) ∷ []; globals = [] }

-- Global 0 is the counter, 1 the name, 2 and 3 are the format and the header.
instrumented : (run_on_module 8 9 7 20 sample).output.functions ≡ (
    foo (counter_code 20 0 ++ (return 5 ∷ []))
    ∷ printf_declaration 8
    ∷ record (wrapper_declaration 9) {
      blocks =
          record {
            label = 7;
            instructions =
                printf_with 8 23 (global 3 ∷ [])
                ∷ record { id = 24; opcode = load; ty = int_ty 32; operands = global 0 ∷ [] }
                ∷ printf_with 8 25 (global 2 ∷ global 1 ∷ instruction 24 ∷ [])
                ∷ return 26
                ∷ [];
          }
          ∷ [];
    }
    ∷ [])
unfolding find lookup modify global_index set_initializer initialized_global find_function
    get_or_insert_printf has_definition insert_code instrument instrument_all print_counters
    add_block get_or_insert_wrapper run_on_module
instrumented = refl

instrument_all-AreCounted_example :
    AreCounted
      (instrument_all sample.functions (counter_start 20 [])).1.globals
      sample.functions
      (instrument_all sample.functions (counter_start 20 [])).0
    × IsCounterMap
        (instrument_all sample.functions (counter_start 20 [])).1.globals
        (instrument_all sample.functions (counter_start 20 [])).1.call_counter_map
    × All
        (λ f.
          IsDefinition f
          → HasCounter
              (instrument_all sample.functions (counter_start 20 [])).1.globals
              (instrument_all sample.functions (counter_start 20 [])).1.call_counter_map
              f.name)
        sample.functions
instrument_all-AreCounted_example = instrument_all-AreCounted 20 [] sample.functions

-- At the end of a run in which the counter has reached 3.
abbrev at_exit : Memory
at_exit = record { registers = λ k. 0; cells = λ g. 3 }

wrapper_code-calls_example :
    let st = (instrument_all sample.functions (counter_start 20 [])).1 in
    let calls = calls_made (print_counters 8 2 st.func_name_map st.call_counter_map 24) at_exit in
    (calls ≡ map (row_call 8 2 st.func_name_map at_exit.cells) st.call_counter_map)
    × All
        (λ f.
          IsDefinition f
          → (k : ℕ) × (var : ℕ) × IsString k f.name st.globals
            × (name_at var st.globals ≡ some (append "CounterFor_" f.name))
            × Any
                (λ c.
                  c
                  ≡ address (global 2)
                    ∷ address (global k)
                    ∷ number (at_exit.cells var)
                    ∷ address (function 8)
                    ∷ [])
                calls)
        sample.functions
wrapper_code-calls_example = wrapper_code-calls 8 2 20 24 [] sample.functions at_exit

printed_at_exit :
    calls_made (print_counters 8 2 (("foo", 1) ∷ []) (("foo", 0) ∷ []) 24) at_exit
    ≡ ((address (global 2) ∷ address (global 1) ∷ number 3 ∷ address (function 8) ∷ []) ∷ [])
unfolding calls_made print_counters lookup find
printed_at_exit = refl
