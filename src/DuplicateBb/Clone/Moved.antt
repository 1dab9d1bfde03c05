-- ===== src/DuplicateBb/Clone/Moved.antt =====
-- A block whose PHI nodes name the tail where they named the block that was split runs as before,
-- when control comes from where the block's end went.
use llvm_tutor.Prelude.{
  ℕ, ◌==◌, ◌<◌, ◌≡◌, refl, sym, ap, ◌∙◌, false, inl, inr, Option, none, some, List, [], ◌∷◌, ◌++◌,
  map, All, arith, Bool-cases,
}
use llvm_tutor.Ir.{Value, Opcode, phi, Instruction}
use llvm_tutor.Ir.Query.{is_phi, incoming_value, phi_incoming}
use llvm_tutor.Machine.Exec.{Machine, State, update}
use llvm_tutor.Machine.Flow.{take_phis, drop_phis, read, assign_phis}
use llvm_tutor.Machine.Flow.Live.{
  Named, NamedOption, AgreesOn, IsPlain, value_of-Named, drop_phis-IsPlain,
}
use llvm_tutor.DuplicateBb.Clone.Documented.{move, move_opcode, move_inst}

abbrev pub LabelsBelow : ℕ → Opcode → Type 0
LabelsBelow bound (phi ls) = All (λ l. l < bound) ls
LabelsBelow bound _ = Unit

module _ (l tail : ℕ) where
  incoming_value-move :
      (ls : List ℕ) (vs : List Value) (from : ℕ)
      → All (λ k. k < tail) ls
      → from < tail
      → incoming_value (map (move l tail) ls) vs (move l tail from) ≡ incoming_value ls vs from
  unfolding incoming_value
  incoming_value-move [] vs from b f = refl
  incoming_value-move (k ∷ ks) [] from b f = refl
  incoming_value-move (k ∷ ks) (v ∷ vs) from b f =
      ground (arith, incoming_value-move ks vs from b.1 f, b.0)

  incoming-move :
      (op : Opcode) (vs : List Value) (from : ℕ)
      → LabelsBelow tail op
      → from < tail
      → (elim (move_opcode l tail op) as (λ x. Option Value) [
        | phi ls ↦ incoming_value ls vs (move l tail from)
        | _ ↦ none
      ])
        ≡ (elim op as (λ x. Option Value) [ phi ls ↦ incoming_value ls vs from | _ ↦ none ])
  incoming-move (phi ls) vs from b f = incoming_value-move ls vs from b f
  incoming-move _ vs from b f = refl

  is_phi-move : (op : Opcode) → is_phi (move_opcode l tail op) ≡ is_phi op
  is_phi-move (phi ls) = refl
  is_phi-move _ = refl

  move_opcode-plain : (op : Opcode) → is_phi op ≡ false → move_opcode l tail op ≡ op
  move_opcode-plain (phi ls) h = absurd (ground (arith, h))
  move_opcode-plain _ h = refl

  pub map-move_IsPlain : (is : List Instruction) → IsPlain is → map (move_inst l tail) is ≡ is
  map-move_IsPlain [] h = refl
  map-move_IsPlain (i ∷ is) h =
      let op = move_opcode-plain i.opcode h.0 in
      let more = map-move_IsPlain is h.1 in rw (op, more) refl

pub drop_phis-moved :
    (l tail : ℕ) (is suffix : List Instruction)
    → IsPlain suffix
    → drop_phis (map (move_inst l tail) (take_phis is) ++ suffix) ≡ suffix
unfolding drop_phis take_phis
drop_phis-moved l tail [] suffix p = (drop_phis-IsPlain suffix p).0
drop_phis-moved l tail (i ∷ is) suffix p =
    let rest = drop_phis-moved l tail is suffix p in
    let same_phi = is_phi-move l tail i.opcode in
    elim (Bool-cases (is_phi i.opcode)) [
      | inl v ↦ rw (take_phis, v, drop_phis, same_phi, v) rest
      | inr v ↦ rw (take_phis, v) ((drop_phis-IsPlain suffix p).0)
    ]

incoming_value-Named :
    (P : ℕ → Type 0) (ls : List ℕ) (vs : List Value) (l : ℕ)
    → All (Named P) vs
    → NamedOption P (incoming_value ls vs l)
unfolding incoming_value
incoming_value-Named P [] vs l h = tt
incoming_value-Named P (k ∷ ks) [] l h = tt
incoming_value-Named P (k ∷ ks) (v ∷ vs) l h = elim (Bool-cases (k == l)) [
  | inl e ↦ rw e (h.0)
  | inr e ↦ rw e (incoming_value-Named P ks vs l h.1)
]

phi_incoming-Named :
    (P : ℕ → Type 0) (op : Opcode) (vs : List Value) (l : ℕ)
    → All (Named P) vs
    → NamedOption P (elim op as (λ x. Option Value) [ phi ls ↦ incoming_value ls vs l | _ ↦ none ])
phi_incoming-Named P (phi ls) vs l h = incoming_value-Named P ls vs l h
phi_incoming-Named P _ vs l h = tt

module _ {W : Type 0} (m : Machine W) (P : ℕ → Type 0) where
  read-Named :
      (s t : State W) (o : Option Value)
      → AgreesOn P s t
      → NamedOption P o
      → read m s.regs o ≡ read m t.regs o
  read-Named s t none a h = refl
  read-Named s t (some v) a h = value_of-Named m P s t v a h

  -- What is read for a PHI node, here and in the block with the tail's label.
  read-moved :
      (l tail from : ℕ) (s t : State W) (i : Instruction)
      → AgreesOn P s t
      → All (Named P) i.operands
      → LabelsBelow tail i.opcode
      → from < tail
      → read m s.regs (phi_incoming i from)
        ≡ read m t.regs (phi_incoming (move_inst l tail i) (move l tail from))
  read-moved l tail from s t i a h b f =
      read-Named s t (phi_incoming i from) a (phi_incoming-Named P i.opcode i.operands from h)
      ∙ ap (read m t.regs) (sym (incoming-move l tail i.opcode i.operands from b f))

  pub assign_phis-IsPlain :
      (old : ℕ → ℕ) (from : ℕ) (is : List Instruction) (r : ℕ → ℕ)
      → IsPlain is
      → assign_phis m old from is r ≡ r
  unfolding assign_phis
  assign_phis-IsPlain old from [] r p = refl
  assign_phis-IsPlain old from (i ∷ is) r p = ground (arith, p.0)

  pub assign_phis-moved :
      (l tail from : ℕ) (s t : State W)
      → AgreesOn P s t
      → from < tail
      → (is suffix : List Instruction) → All (λ i. All (Named P) i.operands) is
      → All (λ i. LabelsBelow tail i.opcode) is
      → IsPlain suffix
      → (r q : ℕ → ℕ) → ((j : ℕ) → P j → r j ≡ q j)
      → (j : ℕ) → P j
      → assign_phis m s.regs from is r j
        ≡ assign_phis m t.regs
            (move l tail from)
            (map (move_inst l tail) (take_phis is) ++ suffix)
            q
            j
  unfolding assign_phis take_phis
  assign_phis-moved l tail from s t a f [] suffix h b p r q e j x =
      e j x ∙ sym (ap (λ g. g j) (assign_phis-IsPlain t.regs (move l tail from) suffix q p))
  assign_phis-moved l tail from s t a f (i ∷ is) suffix h b p r q e j x =
      let same = read-moved l tail from s t i a (h.0) (b.0) f in
      let same_phi = is_phi-move l tail i.opcode in
      elim (Bool-cases (is_phi i.opcode)) [
        | inl v ↦
            let rest =
              assign_phis-moved l tail from s t a f is suffix h.1 b.1 p
                (update r i.id (read m s.regs (phi_incoming i from)))
                (update q i.id
                  (read m t.regs (phi_incoming (move_inst l tail i) (move l tail from))))
                (λ k y. ground (arith, e k y, same)) j x in
            rw (assign_phis, v, take_phis, assign_phis, same_phi, v) rest
        | inr v ↦
            let base : r j ≡ assign_phis m t.regs (move l tail from) suffix q j =
              e j x
              ∙ sym (ap (λ g. g j) (assign_phis-IsPlain t.regs (move l tail from) suffix q p)) in
            rw (assign_phis, take_phis, v) base
      ]
