-- ===== src/Printf/Tests.antt =====
-- Rows as they are printed.
use llvm_tutor.Prelude.{◌≡◌, refl}
use llvm_tutor.Printf.{spaces, pad, title_row}

title : title_row "NAME" "#N DIRECT CALLS" ≡ "NAME                 #N DIRECT CALLS\n"
unfolding title_row pad spaces
title = refl

-- A name that is longer than its column is printed whole.
long_title : title_row "a_name_of_twenty_four_by" "n" ≡ "a_name_of_twenty_four_by n         \n"
unfolding title_row pad spaces
long_title = refl
