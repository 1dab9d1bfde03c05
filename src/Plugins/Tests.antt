-- ===== src/Plugins/Tests.antt =====
-- The plugins at one name.
use llvm_tutor.Prelude.{◌≡◌, refl, some}
use llvm_tutor.Plugins.{riv_plugin, riv_printer, parse_riv, parse}
use llvm_tutor.Plugins.Names.{parse-unambiguous}

riv_accepts : parse riv_plugin "print<riv>" ≡ some riv_printer
unfolding parse_riv
riv_accepts = refl

parse-unambiguous_example : (riv_plugin ≡ riv_plugin) × (riv_printer ≡ riv_printer)
parse-unambiguous_example =
    parse-unambiguous riv_plugin riv_plugin "print<riv>" riv_printer riv_printer riv_accepts
      riv_accepts
