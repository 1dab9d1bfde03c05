-- ===== src/Plugins.antt =====
-- The registration callbacks of lib/*.cpp and HelloWorld/HelloWorld.cpp: which pass a plugin adds to
-- the pipeline for a name given to `opt -passes=`; none if the callback returns false.
pub mod Names
pub mod Analyses
mod Tests
use Prim.Native.String.{String}
use llvm_tutor.Prelude.{Bool, Option, none, some, if◌then◌else◌}
use llvm_tutor.Prelude.Containers.{string_eq, ◌===◌}

pub data Pass : Type 0 where
  hello_world log_return opcode_counter_printer riv_printer static_call_counter_printer : Pass
  dynamic_call_counter inject_func_call mba_add mba_sub merge_bb duplicate_bb : Pass
  find_fcmp_eq_printer convert_fcmp_eq : Pass

pub data Plugin : Type 0 where
  hello_world_plugin opcode_counter_plugin riv_plugin static_call_counter_plugin : Plugin
  dynamic_call_counter_plugin inject_func_call_plugin mba_add_plugin mba_sub_plugin : Plugin
  merge_bb_plugin duplicate_bb_plugin find_fcmp_eq_plugin convert_fcmp_eq_plugin : Plugin

unfoldable pub parse_hello_world : String → Option Pass
parse_hello_world name =
    if name === "hello-world"
    then some hello_world
    else if name === "log-return"
    then some log_return
    else none

unfoldable pub parse_opcode_counter : String → Option Pass
parse_opcode_counter name =
    if name === "print<opcode-counter>" then some opcode_counter_printer else none

unfoldable pub parse_riv : String → Option Pass
parse_riv name = if name === "print<riv>" then some riv_printer else none

unfoldable pub parse_static_call_counter : String → Option Pass
parse_static_call_counter name =
    if name === "print<static-cc>" then some static_call_counter_printer else none

unfoldable pub parse_dynamic_call_counter : String → Option Pass
parse_dynamic_call_counter name = if name === "dynamic-cc" then some dynamic_call_counter else none

unfoldable pub parse_inject_func_call : String → Option Pass
parse_inject_func_call name = if name === "inject-func-call" then some inject_func_call else none

unfoldable pub parse_mba_add : String → Option Pass
parse_mba_add name = if name === "mba-add" then some mba_add else none

unfoldable pub parse_mba_sub : String → Option Pass
parse_mba_sub name = if name === "mba-sub" then some mba_sub else none

unfoldable pub parse_merge_bb : String → Option Pass
parse_merge_bb name = if name === "merge-bb" then some merge_bb else none

unfoldable pub parse_duplicate_bb : String → Option Pass
parse_duplicate_bb name = if name === "duplicate-bb" then some duplicate_bb else none

-- formatv("print<{0}>", PassArg).
unfoldable pub parse_find_fcmp_eq : String → Option Pass
parse_find_fcmp_eq name = if name === "print<find-fcmp-eq>" then some find_fcmp_eq_printer else none

unfoldable pub parse_convert_fcmp_eq : String → Option Pass
parse_convert_fcmp_eq name = if name === "convert-fcmp-eq" then some convert_fcmp_eq else none

abbrev pub parse : Plugin → String → Option Pass
parse hello_world_plugin = parse_hello_world
parse opcode_counter_plugin = parse_opcode_counter
parse riv_plugin = parse_riv
parse static_call_counter_plugin = parse_static_call_counter
parse dynamic_call_counter_plugin = parse_dynamic_call_counter
parse inject_func_call_plugin = parse_inject_func_call
parse mba_add_plugin = parse_mba_add
parse mba_sub_plugin = parse_mba_sub
parse merge_bb_plugin = parse_merge_bb
parse duplicate_bb_plugin = parse_duplicate_bb
parse find_fcmp_eq_plugin = parse_find_fcmp_eq
parse convert_fcmp_eq_plugin = parse_convert_fcmp_eq
