-- ===== src/Builder.antt =====
-- llvm::IRBuilder, which lib/MBAAdd.cpp and lib/MBASub.cpp use and LLVM implements: an interface of
-- operations with the law that LLVM documents. A builder may fold an operation on constants
-- instead of emitting an instruction, so what it emits is left open.
pub mod Folding
use llvm_tutor.Prelude.{ℕ, ◌∙◌, ◌-◌, ◌%◌, ◌^◌, ◌≤◌, ◌≡◌, some, List, ◌++◌, arith, All, All-append}
use llvm_tutor.Ir.{Value, Ty, int_ty, BinaryOp, Instruction}
use llvm_tutor.Machine.Exec.{Machine, State, value_of, integer_result, exec, exec-append}
use llvm_tutor.Machine.Agreement.{
  Below, Below-mono, value_of-Agrees, IsBelow, Agrees, Agrees-trans, Agrees-weaken,
  All-IsBelow_mono,
}

-- What a chain of Create calls leaves: the instructions that it inserted before the insertion
-- point, the value it returned, and the next unused identity.
pub record Emit : Type 0 where
  pub value : Value
  pub code : List Instruction
  pub next : ℕ

abbrev pub Build : Type 0
Build = ℕ → Emit

infixl 5 ◌>>=◌
unfoldable pub ◌>>=◌ : Build → (Value → Build) → Build
◌>>=◌ b k n =
    let e = b n in
    let f = k e.value e.next in record { value = f.value; code = e.code ++ f.code; next = f.next }

-- `create op ty l r` is CreateAdd, CreateMul, CreateXor or CreateAnd; `create_not ty v` CreateNot.
pub record IrBuilder : Type 0 where
  pub create : BinaryOp → Ty → Value → Value → Build
  pub create_not : Ty → Value → Build

module _ {W : Type 0} (m : Machine W) where
  -- In the state, the value exists and is x.
  pub record Holds (n : ℕ) (s : State W) (v : Value) (x : ℕ) : Type 0 where
    pub exists : Below n v
    pub equals : value_of m s.regs v ≡ x

  pub record Later (n : ℕ) (s : State W) (n' : ℕ) (t : State W) : Type 0 where
    pub grows : n ≤ n'
    pub keeps : Agrees n t s

  pub Later-trans : {n n' k : ℕ} {s t u : State W} → Later n s n' t → Later n' t k u → Later n s k u
  Later-trans {n} {n'} {k} {s} {t} {u} p q = record {
    grows = omega (arith, p.grows, q.grows);
    keeps = Agrees-trans n u t s (Agrees-weaken n n' u t p.grows q.keeps) p.keeps;
  }

  pub keep :
      {n n' x : ℕ} {s t : State W} {v : Value} → Later n s n' t → Holds n s v x → Holds n' t v x
  keep {n} {n'} {s = s} {t} {v} l h = record {
    exists = Below-mono n n' v l.grows h.exists;
    equals = value_of-Agrees m n t s v l.keeps h.exists ∙ h.equals;
  }

  -- The built value is x after the emitted code, which changes nothing that was there.
  pub record Yields (n : ℕ) (s : State W) (b : Build) (x : ℕ) : Type 0 where
    pub later : Later n s (b n).next (exec m (b n).code s)
    pub code_below : All (IsBelow (b n).next) (b n).code
    pub holds : Holds (b n).next (exec m (b n).code s) (b n).value x

  pub Yields-bind :
      {n x y : ℕ} {s : State W} {b : Build} {k : Value → Build}
      → Yields n s b x
      → ((v : Value) (n' : ℕ) (t : State W) → Later n s n' t → Holds n' t v x → Yields n' t (k v) y)
      → Yields n s (b >>= k) y
  unfolding ◌>>=◌
  Yields-bind {n} {s = s} {b} {k} h f =
      let e = b n in
      let g = f e.value e.next (exec m e.code s) h.later h.holds in
      let run = exec-append m e.code (k e.value e.next).code s in
      record {
        later = rw run (Later-trans h.later g.later);
        code_below =
            All-append (IsBelow _) e.code _ (All-IsBelow_mono _ _ e.code g.later.grows h.code_below)
              g.code_below;
        holds = rw run g.holds;
      }

  -- The documented behaviour: the result of each call is the operation on the operands' values.
  pub record IsSound (b : IrBuilder) : Type 0 where
    pub create_law :
        (op : BinaryOp) (w : ℕ) {l r : Value} {n x y z : ℕ} {s : State W}
        → integer_result op w x y ≡ some z
        → Holds n s l x
        → Holds n s r y
        → Yields n s (b.create op (int_ty w) l r) z
    pub create_not_law :
        (w : ℕ) {v : Value} {n x : ℕ} {s : State W}
        → Holds n s v x
        → Yields n s (b.create_not (int_ty w) v) (2 ^ w - 1 - x % 2 ^ w)
