-- ===== src/Plugins/Names.antt =====
-- The names are unambiguous, so the plugins can be loaded together.
use Prim.Native.String.{String}
use llvm_tutor.Prelude.{
  ◌≡◌, refl, sym, ap, ◌∙◌, Option, none, some, if◌then◌else◌, arith, Bool-cases, inl, inr,
}
use llvm_tutor.Prelude.Containers.{string_eq, ◌===◌}
use llvm_tutor.Plugins.{
  Pass, hello_world, log_return, opcode_counter_printer, riv_printer, static_call_counter_printer,
  dynamic_call_counter, inject_func_call, mba_add, mba_sub, merge_bb, duplicate_bb,
  find_fcmp_eq_printer, convert_fcmp_eq, Plugin, hello_world_plugin, opcode_counter_plugin,
  riv_plugin, static_call_counter_plugin, dynamic_call_counter_plugin, inject_func_call_plugin,
  mba_add_plugin, mba_sub_plugin, merge_bb_plugin, duplicate_bb_plugin, find_fcmp_eq_plugin,
  convert_fcmp_eq_plugin, parse_hello_world, parse_opcode_counter, parse_riv,
  parse_static_call_counter, parse_dynamic_call_counter, parse_inject_func_call, parse_mba_add,
  parse_mba_sub, parse_merge_bb, parse_duplicate_bb, parse_find_fcmp_eq, parse_convert_fcmp_eq,
  parse,
}

abbrev pub name_of : Pass → String
name_of hello_world = "hello-world"
name_of log_return = "log-return"
name_of opcode_counter_printer = "print<opcode-counter>"
name_of riv_printer = "print<riv>"
name_of static_call_counter_printer = "print<static-cc>"
name_of dynamic_call_counter = "dynamic-cc"
name_of inject_func_call = "inject-func-call"
name_of mba_add = "mba-add"
name_of mba_sub = "mba-sub"
name_of merge_bb = "merge-bb"
name_of duplicate_bb = "duplicate-bb"
name_of find_fcmp_eq_printer = "print<find-fcmp-eq>"
name_of convert_fcmp_eq = "convert-fcmp-eq"

abbrev pub plugin_of : Pass → Plugin
plugin_of hello_world = hello_world_plugin
plugin_of log_return = hello_world_plugin
plugin_of opcode_counter_printer = opcode_counter_plugin
plugin_of riv_printer = riv_plugin
plugin_of static_call_counter_printer = static_call_counter_plugin
plugin_of dynamic_call_counter = dynamic_call_counter_plugin
plugin_of inject_func_call = inject_func_call_plugin
plugin_of mba_add = mba_add_plugin
plugin_of mba_sub = mba_sub_plugin
plugin_of merge_bb = merge_bb_plugin
plugin_of duplicate_bb = duplicate_bb_plugin
plugin_of find_fcmp_eq_printer = find_fcmp_eq_plugin
plugin_of convert_fcmp_eq = convert_fcmp_eq_plugin

-- The pass that is registered under a name.
unfoldable owner : String → Option Pass
owner name =
    if name === "hello-world"
    then some hello_world
    else if name === "log-return"
    then some log_return
    else if name === "print<opcode-counter>"
    then some opcode_counter_printer
    else if name === "print<riv>"
    then some riv_printer
    else if name === "print<static-cc>"
    then some static_call_counter_printer
    else if name === "dynamic-cc"
    then some dynamic_call_counter
    else if name === "inject-func-call"
    then some inject_func_call
    else if name === "mba-add"
    then some mba_add
    else if name === "mba-sub"
    then some mba_sub
    else if name === "merge-bb"
    then some merge_bb
    else if name === "duplicate-bb"
    then some duplicate_bb
    else if name === "print<find-fcmp-eq>"
    then some find_fcmp_eq_printer
    else if name === "convert-fcmp-eq"
    then some convert_fcmp_eq
    else none

owner-name_of : (a : Pass) → owner (name_of a) ≡ some a
unfolding owner
owner-name_of hello_world = refl
owner-name_of log_return = refl
owner-name_of opcode_counter_printer = refl
owner-name_of riv_printer = refl
owner-name_of static_call_counter_printer = refl
owner-name_of dynamic_call_counter = refl
owner-name_of inject_func_call = refl
owner-name_of mba_add = refl
owner-name_of mba_sub = refl
owner-name_of merge_bb = refl
owner-name_of duplicate_bb = refl
owner-name_of find_fcmp_eq_printer = refl
owner-name_of convert_fcmp_eq = refl

name_of-injective : (a b : Pass) → name_of a ≡ name_of b → a ≡ b
name_of-injective a b h = ground (arith, sym (owner-name_of a) ∙ ap owner h ∙ owner-name_of b)

accepted :
    (p : Pass) (name : String) (a : Pass)
    → (if name === name_of p then some p else none) ≡ some a
    → (name ≡ name_of a) × (plugin_of a ≡ plugin_of p)
accepted p name a h = elim (Bool-cases (name === name_of p)) [
  | inl e ↦
      let same : p ≡ a = ground (arith, h, e) in
      ((string_eq.beq_iff name (name_of p)).0 e ∙ ap name_of same, sym (ap plugin_of same))
  | inr e ↦ absurd (ground (arith, h, e))
]

accepted_hello :
    (name : String) (a : Pass)
    → parse hello_world_plugin name ≡ some a
    → (name ≡ name_of a) × (plugin_of a ≡ hello_world_plugin)
unfolding parse_hello_world
accepted_hello name a h = elim (Bool-cases (name === "hello-world")) [
  | inl e ↦ accepted hello_world name a (ground (arith, h, e))
  | inr e ↦ accepted log_return name a (ground (arith, h, e))
]

-- A plugin that accepts a name adds a pass of its own, and the name is that pass's.
parse-own :
    (p : Plugin) (name : String) (a : Pass)
    → parse p name ≡ some a
    → (name ≡ name_of a) × (plugin_of a ≡ p)
unfolding parse_opcode_counter parse_riv parse_static_call_counter parse_dynamic_call_counter
    parse_inject_func_call parse_mba_add parse_mba_sub parse_merge_bb parse_duplicate_bb
    parse_find_fcmp_eq parse_convert_fcmp_eq
parse-own hello_world_plugin name a h = accepted_hello name a h
parse-own opcode_counter_plugin name a h = accepted opcode_counter_printer name a h
parse-own riv_plugin name a h = accepted riv_printer name a h
parse-own static_call_counter_plugin name a h = accepted static_call_counter_printer name a h
parse-own dynamic_call_counter_plugin name a h = accepted dynamic_call_counter name a h
parse-own inject_func_call_plugin name a h = accepted inject_func_call name a h
parse-own mba_add_plugin name a h = accepted mba_add name a h
parse-own mba_sub_plugin name a h = accepted mba_sub name a h
parse-own merge_bb_plugin name a h = accepted merge_bb name a h
parse-own duplicate_bb_plugin name a h = accepted duplicate_bb name a h
parse-own find_fcmp_eq_plugin name a h = accepted find_fcmp_eq_printer name a h
parse-own convert_fcmp_eq_plugin name a h = accepted convert_fcmp_eq name a h

-- No two of the plugins accept the same name, and each name means one pass.
pub parse-unambiguous :
    (p q : Plugin) (name : String) (a b : Pass)
    → parse p name ≡ some a
    → parse q name ≡ some b
    → (p ≡ q) × (a ≡ b)
parse-unambiguous p q name a b g h =
    let first = parse-own p name a g in
    let second = parse-own q name b h in
    let same = name_of-injective a b (sym first.0 ∙ second.0) in
    (sym first.1 ∙ ap plugin_of same ∙ second.1, same)
