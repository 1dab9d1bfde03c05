-- ===== src/Printf/Prints.antt =====
-- Which parts a text has, and in which order.
use Prim.Native.String.append
use Prim.Native.String.{String, ◌++◌ as append}
use text.Mathlib.TextLemmas.{append_assoc}
use llvm_tutor.Prelude.{
  ℕ, ◌≡◌, sym, ap, ◌∙◌, some, List, [], ◌∷◌, inl, inr, arith, Bool-cases, Option-cases,
}
use llvm_tutor.Prelude.Containers.{Eq, string_eq, ◌===◌, find, lookup}
use llvm_tutor.Printf.{count_rows}

-- The text has the part somewhere.
abbrev pub Prints : (text part : String) → Type 0
Prints text part = (a : String) × (b : String) × (text ≡ append a (append part b))

-- The text has the first part and, after it, the second.
abbrev pub PrintsAfter : (text first second : String) → Type 0
PrintsAfter text first second =
    (a : String) × (b : String) × (c : String) × (text
      ≡ append a (append first (append b (append second c))))

pub Prints-here : (part b : String) → Prints (append part b) part
Prints-here part b = ("", b, sym (append.nil (append part b)))

pub Prints-behind : (a text part : String) → Prints text part → Prints (append a text) part
Prints-behind a text part (x, y, e) =
    (append a x, y, ap (append a) e ∙ sym (append_assoc a x (append part y)))

pub Prints-before : (text b part : String) → Prints text part → Prints (append text b) part
Prints-before text b part (x, y, e) = (
  x,
  append y b,
  ap (λ t. append t b) e ∙ append_assoc x (append part y) b ∙ ap (append x) (append_assoc part y b),
)

-- A part of what follows a first part.
pub PrintsAfter-start :
    (first text second : String) → Prints text second → PrintsAfter (append first text) first second
PrintsAfter-start first text second (x, y, e) = ("", x, y, ap (append first) e ∙ sym (append.nil _))

-- The same where the first part is written in three pieces.
pub PrintsAfter-started :
    (p q r text second : String)
    → Prints text second
    → PrintsAfter (append p (append q (append r text))) (append p (append q r)) second
PrintsAfter-started p q r text second h =
    let out = PrintsAfter-start (append p (append q r)) text second h in
    (
      out.0,
      out.1,
      out.2,
      sym (append_assoc p (append q r) text ∙ ap (append p) (append_assoc q r text)) ∙ out.3,
    )

-- What the map has for a number that is not the default.
pub find-lookup {ℓ} :
    {K : Type ℓ} ⦃e : Eq K⦄ (k : K) (n : ℕ) (m : List (K × ℕ))
    → lookup k 0 m ≡ n
    → (n ≡ 0 → ⊥)
    → find k m ≡ some n
unfolding lookup
find-lookup k n m h g = elim (Option-cases (find k m)) [
  | inl e ↦ absurd (g (ground (arith, h, e)))
  | inr (v, e) ↦ ground (arith, h, e)
]

-- The table has a row for each of its entries.
pub count_rows-Prints :
    (count_row : String → ℕ → String) (rows : List (String × ℕ)) (name : String) (n : ℕ)
    → find name rows ≡ some n
    → Prints (count_rows count_row rows) (count_row name n)
unfolding count_rows find
count_rows-Prints count_row [] name n h = absurd (ground (arith, h))
count_rows-Prints count_row ((k, m) ∷ rows) name n h = elim (Bool-cases (k === name)) [
  | inl e ↦
      let value : m ≡ n = ground (arith, h, e) in
      let key = (string_eq.beq_iff k name).0 e in
      rw (← value, ← key) (Prints-here (count_row k m) (count_rows count_row rows))
  | inr e ↦
      Prints-behind (count_row k m) (count_rows count_row rows) (count_row name n)
        (count_rows-Prints count_row rows name n (ground (arith, h, e)))
]
