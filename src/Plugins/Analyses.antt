-- ===== src/Plugins/Analyses.antt =====
-- What else the registration callbacks of lib/*.cpp do: which analysis a plugin registers, which
-- passes it adds before the vectoriser, and which analysis of the repository a pass asks for.
use Prim.Native.String.{String}
use llvm_tutor.Prelude.{
  ◌≡◌, ◌⊎◌, refl, Bool, true, false, inl, inr, Option, none, some, List, [], ◌∷◌, arith,
}
use llvm_tutor.Plugins.{
  Pass, opcode_counter_printer, riv_printer, static_call_counter_printer, duplicate_bb,
  find_fcmp_eq_printer, convert_fcmp_eq, Plugin, hello_world_plugin, opcode_counter_plugin,
  riv_plugin, static_call_counter_plugin, dynamic_call_counter_plugin, inject_func_call_plugin,
  mba_add_plugin, mba_sub_plugin, merge_bb_plugin, duplicate_bb_plugin, find_fcmp_eq_plugin,
  convert_fcmp_eq_plugin, parse_hello_world, parse_opcode_counter, parse_riv,
  parse_static_call_counter, parse_dynamic_call_counter, parse_inject_func_call, parse_mba_add,
  parse_mba_sub, parse_merge_bb, parse_duplicate_bb, parse_find_fcmp_eq, parse_convert_fcmp_eq,
  parse,
}

pub data Analysis : Type 0 where
  riv_analysis opcode_counter_analysis static_call_counter_analysis find_fcmp_eq_analysis : Analysis

abbrev pub same_analysis : Analysis → Analysis → Bool
same_analysis riv_analysis riv_analysis = true
same_analysis opcode_counter_analysis opcode_counter_analysis = true
same_analysis static_call_counter_analysis static_call_counter_analysis = true
same_analysis find_fcmp_eq_analysis find_fcmp_eq_analysis = true
same_analysis _ _ = false

-- FAM.registerPass or MAM.registerPass in registerAnalysisRegistrationCallback.
abbrev pub register_analysis : Plugin → Option Analysis
register_analysis opcode_counter_plugin = some opcode_counter_analysis
register_analysis riv_plugin = some riv_analysis
register_analysis static_call_counter_plugin = some static_call_counter_analysis
register_analysis find_fcmp_eq_plugin = some find_fcmp_eq_analysis
register_analysis _ = none

-- registerVectorizerStartEPCallback.
abbrev pub vectorizer_start : Plugin → List Pass
vectorizer_start opcode_counter_plugin = opcode_counter_printer ∷ []
vectorizer_start _ = []

-- getResult in the run of the pass, of an analysis that LLVM does not have.
abbrev pub required_analysis : Pass → Option Analysis
required_analysis opcode_counter_printer = some opcode_counter_analysis
required_analysis riv_printer = some riv_analysis
required_analysis static_call_counter_printer = some static_call_counter_analysis
required_analysis find_fcmp_eq_printer = some find_fcmp_eq_analysis
required_analysis duplicate_bb = some riv_analysis
required_analysis convert_fcmp_eq = some find_fcmp_eq_analysis
required_analysis _ = none

abbrev pub registers : Plugin → Analysis → Bool
registers q a = elim (register_analysis q) [ none ↦ false | some b ↦ same_analysis b a ]

-- The pass needs nothing, or what its own plugin registers, or is one of the two others.
abbrev IsServed : Plugin → Pass → Type 0
IsServed q p =
    (required_analysis p ≡ none)
    ⊎ (((a : Analysis) × (required_analysis p ≡ some a) × (registers q a ≡ true))
        ⊎ ((p ≡ duplicate_bb) ⊎ (p ≡ convert_fcmp_eq)))

-- A plugin adds for a name only passes that need nothing or what the plugin itself registers, besides
-- DuplicateBB and ConvertFCmpEq.
parse-IsServed : (q : Plugin) (name : String) (p : Pass) → parse q name ≡ some p → IsServed q p
unfolding parse_hello_world parse_opcode_counter parse_riv parse_static_call_counter
    parse_dynamic_call_counter parse_inject_func_call parse_mba_add parse_mba_sub parse_merge_bb
    parse_duplicate_bb parse_find_fcmp_eq parse_convert_fcmp_eq
parse-IsServed hello_world_plugin name p h = inl (ground (arith, h))
parse-IsServed opcode_counter_plugin name p h =
    inr (inl (opcode_counter_analysis, ground (arith, h), refl))
parse-IsServed riv_plugin name p h = inr (inl (riv_analysis, ground (arith, h), refl))
parse-IsServed static_call_counter_plugin name p h =
    inr (inl (static_call_counter_analysis, ground (arith, h), refl))
parse-IsServed dynamic_call_counter_plugin name p h = inl (ground (arith, h))
parse-IsServed inject_func_call_plugin name p h = inl (ground (arith, h))
parse-IsServed mba_add_plugin name p h = inl (ground (arith, h))
parse-IsServed mba_sub_plugin name p h = inl (ground (arith, h))
parse-IsServed merge_bb_plugin name p h = inl (ground (arith, h))
parse-IsServed duplicate_bb_plugin name p h = inr (inr (inl (ground (arith, h))))
parse-IsServed find_fcmp_eq_plugin name p h =
    inr (inl (find_fcmp_eq_analysis, ground (arith, h), refl))
parse-IsServed convert_fcmp_eq_plugin name p h = inr (inr (inr (ground (arith, h))))
