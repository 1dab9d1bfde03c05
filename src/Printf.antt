-- ===== src/Printf.antt =====
-- llvm::format with the conversions of texts that lib/*.cpp use, "%-20s" and the like: a text shorter
-- than the width is filled up with spaces on the right, a longer one is printed whole. How LLVM
-- formats a row with a number, format("%-20s %-10lu\n", Name, Count), is a parameter.
pub mod Prints
mod Tests
use Prim.Native.String.{String, ◌++◌ as append, len}
use llvm_tutor.Prelude.{ℕ, zero, suc, ◌-◌, List, [], ◌∷◌}

unfoldable pub spaces : ℕ → String
spaces zero = ""
spaces (suc n) = append " " (spaces n)

unfoldable pub pad : ℕ → String → String
pad width s = append s (spaces (width - len s))

abbrev pub double_rule : String
double_rule = "=================================================\n"

abbrev pub single_rule : String
single_rule = "-------------------------------------------------\n"

-- format("%-20s %-10s\n", Str1, Str2).
unfoldable pub title_row : String → String → String
title_row a b = append (pad 20 a) (append " " (append (pad 10 b) "\n"))

-- The loop that prints a row for each entry of a table.
unfoldable pub count_rows : (String → ℕ → String) → List (String × ℕ) → String
count_rows count_row [] = ""
count_rows count_row ((name, n) ∷ rows) = append (count_row name n) (count_rows count_row rows)
