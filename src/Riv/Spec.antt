-- ===== src/Riv/Spec.antt =====
-- An independent description of what RIV computes, by the strict dominators of a block.
use llvm_tutor.Prelude.{
  ℕ, ◌+◌, ◌≤◌, ◌==◌, ◌≡◌, refl, Bool, true, false, ◌||◌, Option, none, some, List, [], ◌∷◌,
  if◌then◌else◌, arith, Bool-cases, Option-cases, inl, inr,
}
use llvm_tutor.Riv.{Forest, nil, cons}

abbrev pub one_if : Bool → ℕ
one_if true = 1
one_if false = 0

-- How often a block stands in a forest, and how often as one of its roots.
unfoldable pub count_in : Forest → ℕ → ℕ
count_in nil k = 0
count_in (cons l ds rest) k = one_if (l == k) + count_in ds k + count_in rest k

unfoldable pub roots_in : Forest → ℕ → ℕ
roots_in nil k = 0
roots_in (cons l ds rest) k = one_if (l == k) + roots_in rest k

unfoldable pub below_in : Forest → ℕ → ℕ
below_in nil k = 0
below_in (cons l ds rest) k = count_in ds k + below_in rest k

pub count-roots-below : (fs : Forest) (k : ℕ) → count_in fs k ≡ roots_in fs k + below_in fs k
unfolding count_in roots_in below_in
count-roots-below nil k = omega arith
count-roots-below (cons l ds rest) k = omega (arith, count-roots-below rest k)

-- The blocks on the way from a root down to k, k left out: its strict dominators.
unfoldable pub strict_dominators : Forest → ℕ → Option (List ℕ)
strict_dominators nil k = none
strict_dominators (cons l ds rest) k = if l == k then some [] else elim (strict_dominators ds k) [
  | some path ↦ some (l ∷ path)
  | none ↦ strict_dominators rest k
]

or_regroup : (a b c : Bool) → (((a || b) || c) || false) ≡ (b || (a || c))
or_regroup a b c = ground arith

module _ {A : Type 0} (defs : ℕ → A → Bool) where
  -- One of the blocks defines the value.
  abbrev pub any_defines : List ℕ → A → Bool
  any_defines [] v = false
  any_defines (l ∷ ls) v = defs l v || any_defines ls v

  -- What the walk adds up: at a root S, and below a block of the forest also what it defines.
  unfoldable pub visible_in : Forest → (A → Bool) → ℕ → A → Bool
  visible_in nil S k v = false
  visible_in (cons l ds rest) S k v =
      (if l == k then S v else visible_in ds (λ u. defs l u || S u) k v) || visible_in rest S k v

  abbrev pub by_path : Option (List ℕ) → (A → Bool) → A → Bool
  by_path none S v = false
  by_path (some path) S v = S v || any_defines path v

  pub visible-absent :
      (fs : Forest) (S : A → Bool) (k : ℕ) (v : A) → count_in fs k ≡ 0 → visible_in fs S k v ≡ false
  unfolding count_in visible_in
  visible-absent nil S k v h = refl
  visible-absent (cons l ds rest) S k v h =
      ground (arith, visible-absent ds (λ u. defs l u || S u) k v, visible-absent rest S k v)

  dominators-absent : (fs : Forest) (k : ℕ) → count_in fs k ≡ 0 → strict_dominators fs k ≡ none
  unfolding count_in strict_dominators
  dominators-absent nil k h = refl
  dominators-absent (cons l ds rest) k h =
      ground (arith, dominators-absent ds k, dominators-absent rest k)

  dominators-present : (fs : Forest) (k : ℕ) → strict_dominators fs k ≡ none → count_in fs k ≡ 0
  unfolding count_in strict_dominators
  dominators-present nil k h = refl
  dominators-present (cons l ds rest) k h =
      ground (arith, dominators-present ds k, dominators-present rest k)

  -- In a tree that names each block once the sum is over the strict dominators.
  pub visible-by_path :
      (fs : Forest) (S : A → Bool) (k : ℕ) (v : A)
      → count_in fs k ≤ 1
      → visible_in fs S k v ≡ by_path (strict_dominators fs k) S v
  unfolding count_in visible_in strict_dominators
  visible-by_path nil S k v h = refl
  visible-by_path (cons l ds rest) S k v h = elim (Bool-cases (l == k)) [
    | inl here ↦ rw here (ground (arith, visible-absent rest S k v))
    | inr below ↦
        let inner = visible-by_path ds (λ u. defs l u || S u) k v (ground arith) in
        elim (Option-cases (strict_dominators ds k)) [
          | inl missing ↦
              let absent =
                visible-absent ds (λ u. defs l u || S u) k v (dominators-present ds k missing) in
              rw (below, missing, absent) (visible-by_path rest S k v (ground arith))
          | inr (path, found) ↦
              let alone : count_in rest k ≡ 0 = ground (arith, dominators-absent ds k) in
              rw (below, inner, found, visible-absent rest S k v alone)
                (or_regroup (defs l v) (S v) (any_defines path v))
        ]
  ]
