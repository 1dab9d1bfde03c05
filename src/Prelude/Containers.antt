-- ===== src/Prelude/Containers.antt =====
-- Decidable equality as an interface, with LLVM's containers over it: a set of pointers
-- (SmallPtrSet) as a list without repetition, and MapVector, StringMap and std::map as association
-- lists whose keys stand in order of insertion.
use Prim.Native.Nat.{ℕ}
use Prim.Native.String.{String}
use mathlib.Core.Path.{◌≡◌, refl}
use mathlib.Core.Logic.{◌↔◌, inl, inr}
use mathlib.Core.Bool.{Bool, true, false, ◌||◌}
use mathlib.Core.Option.{Option, none, some}
use mathlib.Core.List.{List, [], ◌∷◌}
use native.Mathlib.Omega.{arith}
use text.Mathlib.Text.{◌==◌ as str_eq}
use text.Mathlib.TextEquality.{eq_iff}
use llvm_tutor.Prelude.Tests.{if◌then◌else◌, ◌==◌ as nat_beq, ==_iff, Bool-cases}
use llvm_tutor.Prelude.Lists.{All}

pub record Eq {ℓ} (A : Type ℓ) : Type ℓ where
  pub beq : A → A → Bool
  pub beq_iff : (a b : A) → (beq a b ≡ true) ↔ (a ≡ b)

infix 50 ◌===◌
abbrev pub ◌===◌ {ℓ} : {A : Type ℓ} ⦃e : Eq A⦄ → A → A → Bool
◌===◌ ⦃e⦄ = e.beq

instance abbrev pub nat_eq : Eq ℕ
nat_eq = record { beq = nat_beq; beq_iff = ==_iff }

instance abbrev pub string_eq : Eq String
string_eq = record { beq = str_eq; beq_iff = eq_iff }

module _ {ℓ} {A : Type ℓ} ⦃e : Eq A⦄ where
  unfoldable pub contains : List A → A → Bool
  contains [] a = false
  contains (x ∷ xs) a = x === a || contains xs a

  -- SmallPtrSet::insert of one element and of a range.
  unfoldable pub insert : A → List A → List A
  insert a [] = a ∷ []
  insert a (x ∷ xs) = if x === a then x ∷ xs else x ∷ insert a xs

  unfoldable pub insert_range : List A → List A → List A
  insert_range [] s = s
  insert_range (x ∷ xs) s = insert_range xs (insert x s)

  pub contains-insert : (a b : A) (s : List A) → contains (insert a s) b ≡ (a === b || contains s b)
  unfolding contains insert
  contains-insert a b [] = refl
  contains-insert a b (x ∷ s) =
      ground (arith, contains-insert a b s, e.beq_iff x a, e.beq_iff x b, e.beq_iff a b)

  pub contains-insert_range :
      (xs s : List A) (b : A) → contains (insert_range xs s) b ≡ (contains xs b || contains s b)
  unfolding contains insert_range
  contains-insert_range [] s b = refl
  contains-insert_range (x ∷ xs) s b =
      ground (arith, contains-insert_range xs (insert x s) b, contains-insert x b s)

module _ {ℓ κ} {K : Type ℓ} {V : Type κ} ⦃e : Eq K⦄ where
  unfoldable pub find : K → List (K × V) → Option V
  find k [] = none
  find k ((j, v) ∷ m) = if j === k then some v else find k m

  -- `m[k] = f(m[k])`, where reading a missing key first inserts the default `d` at the end.
  unfoldable pub modify : K → V → (V → V) → List (K × V) → List (K × V)
  modify k d f [] = (k, f d) ∷ []
  modify k d f ((j, v) ∷ m) = if j === k then (j, f v) ∷ m else (j, v) ∷ modify k d f m

  -- `m.lookup(k)`: the value, or the default.
  unfoldable pub lookup : K → V → List (K × V) → V
  unfolding find
  lookup k d m = elim (find k m) [ none ↦ d | some v ↦ v ]

  pub find-modify :
      (k j : K) (d : V) (f : V → V) (m : List (K × V))
      → find j (modify k d f m) ≡ (if k === j then some (f (lookup k d m)) else find j m)
  unfolding find modify lookup
  find-modify k j d f [] = refl
  find-modify k j d f ((i, v) ∷ m) =
      ground (arith, find-modify k j d f m, e.beq_iff i k, e.beq_iff i j, e.beq_iff k j)

  pub lookup-modify :
      (k j : K) (d : V) (f : V → V) (m : List (K × V))
      → lookup j d (modify k d f m) ≡ (if k === j then f (lookup k d m) else lookup j d m)
  unfolding lookup
  lookup-modify k j d f m = ground (arith, find-modify k j d f m)

  -- What holds of the keys and of the values of a map.
  pub All-modify :
      (P : K → Type 0) (Q : V → Type 0) (k : K) (d : V) (f : V → V) (m : List (K × V))
      → P k
      → Q (f d)
      → ((v : V) → Q v → Q (f v))
      → All (λ p. P p.0 × Q p.1) m
      → All (λ p. P p.0 × Q p.1) (modify k d f m)
  unfolding modify
  All-modify P Q k d f [] p q g h = ((p, q), tt)
  All-modify P Q k d f ((j, v) ∷ m) p q g h = elim (Bool-cases (j === k)) [
    | inl e ↦ rw (All, e) ((h.0.0, g v h.0.1), h.1)
    | inr e ↦ rw (All, e) (h.0, All-modify P Q k d f m p q g h.1)
  ]
