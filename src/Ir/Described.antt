-- ===== src/Ir/Described.antt =====
-- The answers of `Ir.Query` described by the lists that they are read from.
use llvm_tutor.Prelude.{
  ℕ, ◌==◌, ◌≡◌, refl, sym, ap, ◌∙◌, ◌↔◌, inl, inr, true, Option, none, some, List, [], ◌∷◌, ◌++◌,
  All, Any, arith, Bool-cases,
}
use llvm_tutor.Ir.{Value, Opcode, phi, Instruction, BasicBlock}
use llvm_tutor.Ir.Query.{find_block, last_inst, incoming_value, phi_incoming, has_inst, in_block}

-- b is the first block with the label l.
pub record IsBlockAt (bs : List BasicBlock) (l : ℕ) (b : BasicBlock) : Type 0 where
  pub before : List BasicBlock
  pub after : List BasicBlock
  pub stands : bs ≡ before ++ (b ∷ after)
  pub labelled : b.label ≡ l
  pub first : All (λ c. c.label ≡ l → ⊥) before

block_found :
    (l : ℕ) (bs : List BasicBlock) (b : BasicBlock) → find_block l bs ≡ some b → IsBlockAt bs l b
unfolding find_block
block_found l [] b h = absurd (ground (arith, h))
block_found l (c ∷ bs) b h = elim (Bool-cases (c.label == l)) [
  | inl e ↦
      let same : c ≡ b = ground (arith, h, e) in
      record {
        before = [];
        after = bs;
        stands = ap (λ x. x ∷ bs) same;
        labelled = sym (ap (λ x. x.label) same) ∙ ground (arith, e);
        first = _;
      }
  | inr e ↦
      let rest = block_found l bs b (ground (arith, h, e)) in
      record {
        before = c ∷ rest.before;
        after = rest.after;
        stands = ap (λ x. c ∷ x) rest.stands;
        labelled = rest.labelled;
        first = (λ p. ground (arith, e, p), rest.first);
      }
]

find_block-there :
    (l : ℕ) (before : List BasicBlock) (b : BasicBlock) (after : List BasicBlock)
    → b.label ≡ l
    → All (λ c. c.label ≡ l → ⊥) before
    → find_block l (before ++ (b ∷ after)) ≡ some b
unfolding find_block
find_block-there l [] b after e f = ground (arith, e)
find_block-there l (c ∷ before) b after e (f, more) = elim (Bool-cases (c.label == l)) [
  | inl p ↦ absurd (f (ground (arith, p)))
  | inr p ↦ rw p (find_block-there l before b after e more)
]

pub find_block_iff :
    (l : ℕ) (bs : List BasicBlock) (b : BasicBlock) → (find_block l bs ≡ some b) ↔ IsBlockAt bs l b
find_block_iff l bs b = (
  block_found l bs b,
  λ d. ap (find_block l) d.stands ∙ find_block-there l d.before b d.after d.labelled d.first,
)

abbrev pub IsLast {ℓ} : {A : Type ℓ} → List A → A → Type ℓ
IsLast {A = A} xs x = (front : List A) × (xs ≡ front ++ (x ∷ []))

IsLast-found : (is : List Instruction) (t : Instruction) → last_inst is ≡ some t → IsLast is t
unfolding last_inst
IsLast-found [] t h = absurd (ground (arith, h))
IsLast-found (i ∷ []) t h = let same : i ≡ t = ground (arith, h) in ([], ap (λ x. x ∷ []) same)
IsLast-found (i ∷ j ∷ is) t h =
    let rest = IsLast-found (j ∷ is) t h in (i ∷ rest.0, ap (λ x. i ∷ x) rest.1)

last_inst-there :
    (front : List Instruction) (t : Instruction) → last_inst (front ++ (t ∷ [])) ≡ some t
unfolding last_inst
last_inst-there [] t = refl
last_inst-there (i ∷ []) t = refl
last_inst-there (i ∷ j ∷ is) t = last_inst-there (j ∷ is) t

pub last_inst_iff :
    (is : List Instruction) (t : Instruction) → (last_inst is ≡ some t) ↔ IsLast is t
last_inst_iff is t = (IsLast-found is t, λ d. ap last_inst d.1 ∙ last_inst-there d.0 t)

-- The blocks ls and the values vs stand side by side; v is the value of the first l.
pub data Takes (l : ℕ) (v : Value) : List ℕ → List Value → Type 0 where
  here : (ls : List ℕ) (vs : List Value) → Takes l v (l ∷ ls) (v ∷ vs)
  later :
      (k : ℕ) (w : Value) (ls : List ℕ) (vs : List Value)
      → (k ≡ l → ⊥)
      → Takes l v ls vs
      → Takes l v (k ∷ ls) (w ∷ vs)

Takes-found :
    (ls : List ℕ) (vs : List Value) (l : ℕ) (v : Value)
    → incoming_value ls vs l ≡ some v
    → Takes l v ls vs
unfolding incoming_value
Takes-found [] vs l v h = absurd (ground (arith, h))
Takes-found (k ∷ ls) [] l v h = absurd (ground (arith, h))
Takes-found (k ∷ ls) (w ∷ vs) l v h = elim (Bool-cases (k == l)) [
  | inl e ↦
      let same : w ≡ v = ground (arith, h, e) in
      let there : k ≡ l = ground (arith, e) in rw (same, there) (here ls vs)
  | inr e ↦
      later k w ls vs (λ p. ground (arith, e, p)) (Takes-found ls vs l v (ground (arith, h, e)))
]

incoming_value-there :
    (l : ℕ) (v : Value) (ls : List ℕ) (vs : List Value)
    → Takes l v ls vs
    → incoming_value ls vs l ≡ some v
unfolding incoming_value
incoming_value-there l v _ _ (here ls vs) = ground arith
incoming_value-there l v _ _ (later k w ls vs n t) = elim (Bool-cases (k == l)) [
  | inl p ↦ absurd (n (ground (arith, p)))
  | inr p ↦ rw p (incoming_value-there l v ls vs t)
]

-- i is a PHI node that takes v from the block l.
abbrev pub IsIncoming : Instruction → ℕ → Value → Type 0
IsIncoming i l v = (ls : List ℕ) × (i.opcode ≡ phi ls) × Takes l v ls i.operands

IsIncoming-cases :
    (i : Instruction) (l : ℕ) (v : Value) (op : Opcode)
    → i.opcode ≡ op
    → (elim op as (λ x. Option Value) [ phi ls ↦ incoming_value ls i.operands l | _ ↦ none ])
      ≡ some v
    → IsIncoming i l v
IsIncoming-cases i l v (phi ls) e h = (ls, e, Takes-found ls i.operands l v h)
IsIncoming-cases i l v op e h = absurd (ground (arith, h))

pub phi_incoming_iff :
    (i : Instruction) (l : ℕ) (v : Value) → (phi_incoming i l ≡ some v) ↔ IsIncoming i l v
phi_incoming_iff i l v = (
  λ h. IsIncoming-cases i l v i.opcode refl h,
  λ d. rw (d.1) (incoming_value-there l v d.0 i.operands d.2),
)

-- A block with the label l has the instruction x.
abbrev pub IsDefinedIn : List BasicBlock → ℕ → ℕ → Type 0
IsDefinedIn bs l x = Any (λ b. (b.label ≡ l) × Any (λ i. i.id ≡ x) b.instructions) bs

has_inst_iff : (is : List Instruction) (x : ℕ) → (has_inst is x ≡ true) ↔ Any (λ i. i.id ≡ x) is
unfolding has_inst
has_inst_iff [] x = (λ h. absurd (ground (arith, h)), λ h. absurd h)
has_inst_iff (i ∷ is) x = ground (arith, has_inst_iff is x)

pub in_block_iff : (bs : List BasicBlock) (x l : ℕ) → (in_block bs x l ≡ true) ↔ IsDefinedIn bs l x
unfolding in_block
in_block_iff [] x l = (λ h. absurd (ground (arith, h)), λ h. absurd h)
in_block_iff (b ∷ bs) x l = ground (arith, has_inst_iff b.instructions x, in_block_iff bs x l)
