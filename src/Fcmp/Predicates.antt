-- ===== src/Fcmp/Predicates.antt =====
-- What the predicates mean, and what ConvertFCmpEq makes of that.
use llvm_tutor.Prelude.{◌≡◌, refl, sym, ap, ◌∙◌, Bool, true, false, Option, none, some, arith}
use llvm_tutor.Ir.{
  Predicate, fcmp_false, fcmp_oeq, fcmp_ogt, fcmp_oge, fcmp_olt, fcmp_ole, fcmp_one, fcmp_ord,
  fcmp_uno, fcmp_ueq, fcmp_ugt, fcmp_uge, fcmp_ult, fcmp_ule, fcmp_une, fcmp_true,
}
use llvm_tutor.Fcmp.{is_equality, convert_predicate}

-- How two floating-point numbers compare; unordered if one is no number.
pub data Comparison : Type 0 where
  less equal greater unordered : Comparison

unfoldable pub holds : Predicate → Comparison → Bool
holds fcmp_false c = false
holds fcmp_true c = true
holds fcmp_ord c = elim c [ unordered ↦ false | _ ↦ true ]
holds fcmp_uno c = elim c [ unordered ↦ true | _ ↦ false ]
holds fcmp_oeq c = elim c [ equal ↦ true | _ ↦ false ]
holds fcmp_ogt c = elim c [ greater ↦ true | _ ↦ false ]
holds fcmp_oge c = elim c [ greater ↦ true | equal ↦ true | _ ↦ false ]
holds fcmp_olt c = elim c [ less ↦ true | _ ↦ false ]
holds fcmp_ole c = elim c [ less ↦ true | equal ↦ true | _ ↦ false ]
holds fcmp_one c = elim c [ less ↦ true | greater ↦ true | _ ↦ false ]
holds fcmp_ueq c = elim c [ equal ↦ true | unordered ↦ true | _ ↦ false ]
holds fcmp_ugt c = elim c [ greater ↦ true | unordered ↦ true | _ ↦ false ]
holds fcmp_uge c = elim c [ less ↦ false | _ ↦ true ]
holds fcmp_ult c = elim c [ less ↦ true | unordered ↦ true | _ ↦ false ]
holds fcmp_ule c = elim c [ greater ↦ false | _ ↦ true ]
holds fcmp_une c = elim c [ equal ↦ false | _ ↦ true ]

-- Two numbers whose distance compares to the epsilon like this count as equal or as different.
abbrev pub up_to_epsilon : Comparison → Comparison
up_to_epsilon less = equal
up_to_epsilon equal = greater
up_to_epsilon greater = greater
up_to_epsilon unordered = unordered

unfoldable from_converted : Predicate → Option Predicate → Comparison → Bool
from_converted p none c = holds p (up_to_epsilon c)
from_converted p (some q) c = holds q c

from_converted-holds :
    (p : Predicate) (c : Comparison)
    → from_converted p (convert_predicate p) c ≡ holds p (up_to_epsilon c)
unfolding convert_predicate holds from_converted
from_converted-holds fcmp_oeq less = refl
from_converted-holds fcmp_oeq equal = refl
from_converted-holds fcmp_oeq greater = refl
from_converted-holds fcmp_oeq unordered = refl
from_converted-holds fcmp_one less = refl
from_converted-holds fcmp_one equal = refl
from_converted-holds fcmp_one greater = refl
from_converted-holds fcmp_one unordered = refl
from_converted-holds fcmp_ueq less = refl
from_converted-holds fcmp_ueq equal = refl
from_converted-holds fcmp_ueq greater = refl
from_converted-holds fcmp_ueq unordered = refl
from_converted-holds fcmp_une less = refl
from_converted-holds fcmp_une equal = refl
from_converted-holds fcmp_une greater = refl
from_converted-holds fcmp_une unordered = refl
from_converted-holds _ c = refl

-- The new predicate on the distance and the epsilon says what the old one said of two numbers, with
-- a distance below the epsilon taken for equality, and every other for a difference.
pub convert_predicate-holds :
    (p q : Predicate) (c : Comparison)
    → convert_predicate p ≡ some q
    → holds q c ≡ holds p (up_to_epsilon c)
unfolding from_converted
convert_predicate-holds p q c h = sym (ap (λ o. from_converted p o c) h) ∙ from_converted-holds p c

-- There is a new predicate exactly for the equality comparisons.
pub is_equality-convert_predicate :
    (p : Predicate) → is_equality p ≡ (elim (convert_predicate p) [ none ↦ false | some q ↦ true ])
unfolding convert_predicate is_equality
is_equality-convert_predicate fcmp_oeq = refl
is_equality-convert_predicate fcmp_one = refl
is_equality-convert_predicate fcmp_ueq = refl
is_equality-convert_predicate fcmp_une = refl
is_equality-convert_predicate _ = refl

-- No new predicate is an equality comparison.
pub is_equality-converted : (p q : Predicate) → convert_predicate p ≡ some q → is_equality q ≡ false
unfolding is_equality convert_predicate
is_equality-converted fcmp_oeq q h = ground (arith, h)
is_equality-converted fcmp_one q h = ground (arith, h)
is_equality-converted fcmp_ueq q h = ground (arith, h)
is_equality-converted fcmp_une q h = ground (arith, h)
is_equality-converted _ q h = ground (arith, h)
