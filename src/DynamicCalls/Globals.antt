-- ===== src/DynamicCalls/Globals.antt =====
-- The names of a module's global variables, which no later insertion changes.
use Prim.Native.String.{String}
use llvm_tutor.Prelude.{
  ℕ, zero, suc, ◌+◌, ◌≡◌, refl, sym, ap, ◌∙◌, inl, inr, Option, none, some, List, [], ◌∷◌, ◌++◌,
  length, arith, Bool-cases,
}
use llvm_tutor.Prelude.Containers.{string_eq, ◌===◌}
use llvm_tutor.Ir.{Ty, Initializer, GlobalVariable}
use llvm_tutor.Inject.{global_index, set_initializer, WithGlobals, initialized_global}

unfoldable pub name_at : ℕ → List GlobalVariable → Option String
name_at k [] = none
name_at zero (g ∷ gs) = some g.name
name_at (suc k) (g ∷ gs) = name_at k gs

-- The globals hs have the names of gs, and perhaps more.
abbrev pub KeepsNames : List GlobalVariable → List GlobalVariable → Type 0
KeepsNames gs hs = (k : ℕ) (s : String) → name_at k gs ≡ some s → name_at k hs ≡ some s

pub name_at-append : (gs hs : List GlobalVariable) → KeepsNames gs (gs ++ hs)
unfolding name_at
name_at-append [] hs k s h = absurd (ground (arith, h))
name_at-append (g ∷ gs) hs zero s h = h
name_at-append (g ∷ gs) hs (suc k) s h = name_at-append gs hs k s h

name_at-last :
    (gs : List GlobalVariable) (g : GlobalVariable)
    → name_at (length gs) (gs ++ (g ∷ [])) ≡ some g.name
unfolding name_at
name_at-last [] g = refl
name_at-last (h ∷ gs) g = name_at-last gs g

name_at-set_initializer :
    (k j : ℕ) (v : Initializer) (gs : List GlobalVariable)
    → name_at k (set_initializer j v gs) ≡ name_at k gs
unfolding name_at set_initializer
name_at-set_initializer k zero v [] = refl
name_at-set_initializer k (suc j) v [] = refl
name_at-set_initializer zero zero v (g ∷ gs) = refl
name_at-set_initializer (suc k) zero v (g ∷ gs) = refl
name_at-set_initializer zero (suc j) v (g ∷ gs) = refl
name_at-set_initializer (suc k) (suc j) v (g ∷ gs) = name_at-set_initializer k j v gs

later_index :
    (name : String) (g : GlobalVariable) (gs : List GlobalVariable) (o : Option ℕ) (k : ℕ)
    → ((j : ℕ) → o ≡ some j → name_at j gs ≡ some name)
    → (elim o as (λ x. Option ℕ) [ none ↦ none | some j ↦ some (j + 1) ]) ≡ some k
    → name_at k (g ∷ gs) ≡ some name
unfolding name_at
later_index name g gs none k f h = absurd (ground (arith, h))
later_index name g gs (some j) k f h =
    let same : suc j ≡ k = ground (arith, h) in sym (ap (λ i. name_at i (g ∷ gs)) same) ∙ f j refl

pub name_at-global_index :
    (name : String) (gs : List GlobalVariable) (k : ℕ)
    → global_index name gs ≡ some k
    → name_at k gs ≡ some name
unfolding name_at global_index
name_at-global_index name [] k h = absurd (ground (arith, h))
name_at-global_index name (g ∷ gs) k h = elim (Bool-cases (g.name === name)) [
  | inl e ↦
      let same : zero ≡ k = ground (arith, h, e) in
      sym (ap (λ i. name_at i (g ∷ gs)) same) ∙ ap some ((string_eq.beq_iff g.name name).0 e)
  | inr e ↦
      later_index name g gs (global_index name gs) k (name_at-global_index name gs)
        (ground (arith, h, e))
]

module _ (name : String) (ty : Ty) (v : Initializer) (gs : List GlobalVariable) where
  -- The global that is found or made has the name, and all others keep theirs.
  pub initialized_global-named :
      (name_at (initialized_global name ty v gs).value (initialized_global name ty v gs).globals
        ≡ some name)
      × KeepsNames gs (initialized_global name ty v gs).globals
  unfolding initialized_global
  initialized_global-named = go (global_index name gs) refl
    where
      go :
          (o : Option ℕ)
          → global_index name gs ≡ o
          → (name_at
                (elim o as (λ x. WithGlobals ℕ) [
                  | some k ↦ record { value = k; globals = set_initializer k v gs }
                  | none ↦ record {
                    value = length gs;
                    globals =
                        gs ++ (record { name = name; value_ty = ty; initializer = some v } ∷ []);
                  }
                ]).value
                (elim o as (λ x. WithGlobals ℕ) [
                  | some k ↦ record { value = k; globals = set_initializer k v gs }
                  | none ↦ record {
                    value = length gs;
                    globals =
                        gs ++ (record { name = name; value_ty = ty; initializer = some v } ∷ []);
                  }
                ]).globals
              ≡ some name)
            × KeepsNames gs
                (elim o as (λ x. WithGlobals ℕ) [
                  | some k ↦ record { value = k; globals = set_initializer k v gs }
                  | none ↦ record {
                    value = length gs;
                    globals =
                        gs ++ (record { name = name; value_ty = ty; initializer = some v } ∷ []);
                  }
                ]).globals
      go none e = (name_at-last gs _, name_at-append gs _)
      go (some k) e = (
        name_at-set_initializer k k v gs ∙ name_at-global_index name gs k e,
        λ j s h. name_at-set_initializer j k v gs ∙ h,
      )
