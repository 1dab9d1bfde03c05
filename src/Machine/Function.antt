-- ===== src/Machine/Function.antt =====
-- Execution of a function: block after block, as the world says where control goes. Fuel bounds
-- the number of blocks; the theorems hold at every fuel.
use llvm_tutor.Prelude.{
  ℕ, zero, suc, ◌==◌, if◌then◌else◌, ◌≡◌, ap, Bool, true, false, Option, none, some, List, [], ◌∷◌,
  All,
}
use llvm_tutor.Ir.{BasicBlock}
use llvm_tutor.Ir.Query.{find_block}
use llvm_tutor.Machine.Exec.{Machine, State, exec}
use llvm_tutor.Machine.Agreement.{IsBelow, Agrees, Agrees-trans, exec-Agrees}

abbrev pub ResultAgrees : {W : Type 0} → ℕ → Option (State W) → Option (State W) → Type 0
ResultAgrees n none none = Unit
ResultAgrees n none (some t) = ⊥
ResultAgrees n (some s) none = ⊥
ResultAgrees n (some s) (some t) = Agrees n s t

module _ {W : Type 0} (m : Machine W) where
  abbrev leave : (ℕ → State W → Option (State W)) → Option ℕ → State W → Option (State W)
  leave go none t = some t
  leave go (some l) t = go l t

  abbrev enter : (ℕ → State W → Option (State W)) → Option BasicBlock → State W → Option (State W)
  enter go none s = none
  enter go (some b) s = let t = exec m b.instructions s in leave go (m.target t.world) t

  -- none: no such block, or out of fuel. At a block with no successor the function is left.
  unfoldable pub exec_function : ℕ → List BasicBlock → ℕ → State W → Option (State W)
  exec_function zero bs l s = none
  exec_function (suc fuel) bs l s = enter (exec_function fuel bs) (find_block l bs) s

  -- Block by block the same labels, and the same effect on what lies below n.
  abbrev pub Matches : ℕ → List BasicBlock → List BasicBlock → Type 0
  Matches n [] [] = Unit
  Matches n (c ∷ cs) [] = ⊥
  Matches n [] (b ∷ bs) = ⊥
  Matches n (c ∷ cs) (b ∷ bs) =
      (c.label ≡ b.label)
      × ((s : State W) → Agrees n (exec m c.instructions s) (exec m b.instructions s))
      × All (IsBelow n) b.instructions
      × Matches n cs bs

  abbrev FoundMatches : ℕ → Option BasicBlock → Option BasicBlock → Type 0
  FoundMatches n none none = Unit
  FoundMatches n none (some b) = ⊥
  FoundMatches n (some c) none = ⊥
  FoundMatches n (some c) (some b) =
      ((s : State W) → Agrees n (exec m c.instructions s) (exec m b.instructions s))
      × All (IsBelow n) b.instructions

  FoundMatches-if :
      (n : ℕ) (x y : Bool) (c b : BasicBlock) (u v : Option BasicBlock)
      → x ≡ y
      → FoundMatches n (some c) (some b)
      → FoundMatches n u v
      → FoundMatches n (if x then some c else u) (if y then some b else v)
  FoundMatches-if n true true c b u v e p q = p
  FoundMatches-if n true false c b u v e p q = cc
  FoundMatches-if n false true c b u v e p q = cc
  FoundMatches-if n false false c b u v e p q = q

  find_block-Matches :
      (n l : ℕ) (cs bs : List BasicBlock)
      → Matches n cs bs
      → FoundMatches n (find_block l cs) (find_block l bs)
  unfolding find_block
  find_block-Matches n l [] [] h = tt
  find_block-Matches n l [] (b ∷ bs) h = absurd h
  find_block-Matches n l (c ∷ cs) [] h = absurd h
  find_block-Matches n l (c ∷ cs) (b ∷ bs) h =
      FoundMatches-if n (c.label == l) (b.label == l) c b _ _ (ap (λ k. k == l) h.0) (h.1, h.2)
        (find_block-Matches n l cs bs h.3)

  abbrev Continues :
      ℕ → (ℕ → State W → Option (State W)) → (ℕ → State W → Option (State W)) → Type 0
  Continues n f g = (l : ℕ) (s t : State W) → Agrees n s t → ResultAgrees n (f l s) (g l t)

  leave-Agrees :
      (n : ℕ) (f g : ℕ → State W → Option (State W))
      → Continues n f g
      → (o p : Option ℕ) (s t : State W) → o ≡ p
      → Agrees n s t
      → ResultAgrees n (leave f o s) (leave g p t)
  leave-Agrees n f g k o none s t e a = rw e a
  leave-Agrees n f g k o (some l) s t e a = rw e (k l s t a)

  enter-Agrees :
      (n : ℕ) (f g : ℕ → State W → Option (State W))
      → Continues n f g
      → (c b : Option BasicBlock) → FoundMatches n c b
      → (s t : State W) → Agrees n s t
      → ResultAgrees n (enter f c s) (enter g b t)
  enter-Agrees n f g k none none h s t a = tt
  enter-Agrees n f g k none (some b) h s t a = absurd h
  enter-Agrees n f g k (some c) none h s t a = absurd h
  enter-Agrees n f g k (some c) (some b) h s t a =
      let here : Agrees n (exec m c.instructions s) (exec m b.instructions t) =
        Agrees-trans n _ _ _ (h.0 s) (exec-Agrees m n b.instructions s t a h.1) in
      leave-Agrees n f g k _ _ _ _ (ap m.target here.same_world) here

  -- Functions that match run alike, from states that agree.
  pub exec_function-Matches :
      (n : ℕ) (cs bs : List BasicBlock)
      → Matches n cs bs
      → (fuel l : ℕ) (s t : State W) → Agrees n s t
      → ResultAgrees n (exec_function fuel cs l s) (exec_function fuel bs l t)
  unfolding exec_function
  exec_function-Matches n cs bs h zero l s t a = tt
  exec_function-Matches n cs bs h (suc fuel) l s t a =
      enter-Agrees n _ _ (exec_function-Matches n cs bs h fuel) _ _ (find_block-Matches n l cs bs h)
        s t a
