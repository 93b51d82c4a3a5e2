-- ===== src/Decode/Parts.antt =====
-- How many bytes each part of arch/x86_64/decode.c takes.
use simbench.Base.{ℕ, Bool, arith, Option, none, some, ◌==◌, Option-cases, inl, inr}
use simbench.Decode.Cursor.{next, next32, next64}
use simbench.Decode.Types.{Operand, Instruction, X86OperandTypes, o_rax}
use simbench.Decode.Types.{
  o_r8, o_r16_32_64, o_r_m8, o_r_m16, o_r_m16_32_64, o_imm16_32, o_moffs_16_32_64,
}
use simbench.Decode.Operands.{read_modrm, base_for, memory_operand, decode_rm_operand}
use simbench.Decode.Inst.{
  or_refuse, mov_from_reg, mov_to_reg, mov_from_offset, mov_by_source, decode_mov, decode_int,
  decode_opcode,
}
use simbench.Decode.Reads.{
  Reads, Reads-pure, Reads-refuse, Reads-next, Reads->>=, Reads-weaken, Reads-if,
}

Reads-next32 : Reads 4 4 next32
unfolding next32
Reads-next32 = Reads->>= next _ Reads-next λ b0.
    Reads->>= next _ Reads-next
      λ b1. Reads->>= next _ Reads-next λ b2. Reads->>= next _ Reads-next λ b3. Reads-pure _

Reads-next64 : Reads 8 8 next64
unfolding next64
Reads-next64 =
    Reads->>= next32 _ Reads-next32 λ low. Reads->>= next32 _ Reads-next32 λ high. Reads-pure _

Reads-read_modrm : Reads 1 1 read_modrm
Reads-read_modrm = Reads->>= next _ Reads-next λ val. Reads-pure _

Reads-or_refuse : {A : Type 0} (o : Option A) → Reads 0 0 (or_refuse o)
Reads-or_refuse none = Reads-refuse 0 0
Reads-or_refuse (some a) = Reads-pure a

Reads-memory_operand : (oper : Operand) (pfx rm d : ℕ) → Reads 0 0 (memory_operand oper pfx rm d)
unfolding memory_operand
Reads-memory_operand oper pfx rm d = elim (Option-cases (base_for pfx rm)) [
  | inl e ↦ rw (e, memory_operand) (Reads-refuse 0 0)
  | inr (base, e) ↦ rw (e, memory_operand) (Reads-pure _)
]

Reads-decode_rm_operand :
    (oper : Operand) (pfx mod_bits rm : ℕ) → Reads 0 4 (decode_rm_operand oper pfx mod_bits rm)
unfolding decode_rm_operand
Reads-decode_rm_operand oper pfx mod_bits rm =
    let direct = λ (d : ℕ). Reads-memory_operand oper pfx rm d in
    Reads-if _ _ _ (Reads-weaken (direct 0) (omega arith) (omega arith)) (
      Reads-if _ _ _ (Reads-weaken (Reads->>= next _ Reads-next direct) (omega arith) (omega arith))
        (Reads-if _ _ _
          (Reads-weaken (Reads->>= next32 _ Reads-next32 direct) (omega arith) (omega arith))
          (Reads-refuse 0 4)))

module _ (pfx : ℕ) (inst : Instruction) (source dest : X86OperandTypes) where
  Reads-mov_from_reg : Reads 1 5 (mov_from_reg pfx inst source dest)
  unfolding mov_from_reg
  Reads-mov_from_reg = Reads->>= read_modrm _ Reads-read_modrm λ modrm.
      Reads->>= _ _ (Reads-or_refuse _)
        λ src. Reads->>= _ _ (Reads-decode_rm_operand _ _ _ _) λ dst. Reads-pure _

  Reads-mov_to_reg : Reads 1 5 (mov_to_reg pfx inst source dest)
  unfolding mov_to_reg
  Reads-mov_to_reg = Reads->>= read_modrm _ Reads-read_modrm λ modrm.
      Reads->>= _ _ (Reads-or_refuse _)
        λ dst. Reads->>= _ _ (Reads-decode_rm_operand _ _ _ _) λ src. Reads-pure _

Reads-offset_operands :
    (pfx : ℕ) (inst : Instruction) (dest : X86OperandTypes)
    → Reads 8 8 (mov_from_offset pfx inst dest)
unfolding mov_from_offset
Reads-offset_operands pfx inst o_rax = Reads->>= next64 _ Reads-next64 λ offset. Reads-pure _
Reads-offset_operands pfx inst dest = Reads->>= next64 _ Reads-next64 λ offset. Reads-refuse 0 0

Reads-mov_by_source :
    (pfx : ℕ) (inst : Instruction) (source dest : X86OperandTypes)
    → Reads 1 8 (mov_by_source pfx inst source dest)
Reads-mov_by_source pfx inst o_r16_32_64 dest =
    Reads-weaken (Reads-mov_from_reg pfx inst o_r16_32_64 dest) (omega arith) (omega arith)
Reads-mov_by_source pfx inst o_r8 dest =
    Reads-weaken (Reads-mov_from_reg pfx inst o_r8 dest) (omega arith) (omega arith)
Reads-mov_by_source pfx inst o_r_m8 dest =
    Reads-weaken (Reads-mov_to_reg pfx inst o_r_m8 dest) (omega arith) (omega arith)
Reads-mov_by_source pfx inst o_r_m16 dest =
    Reads-weaken (Reads-mov_to_reg pfx inst o_r_m16 dest) (omega arith) (omega arith)
Reads-mov_by_source pfx inst o_r_m16_32_64 dest =
    Reads-weaken (Reads-mov_to_reg pfx inst o_r_m16_32_64 dest) (omega arith) (omega arith)
Reads-mov_by_source pfx inst o_moffs_16_32_64 dest =
    Reads-weaken (Reads-offset_operands pfx inst dest) (omega arith) (omega arith)
Reads-mov_by_source pfx inst source dest = Reads-refuse 1 8

Reads-decode_mov :
    (pfx : ℕ) (inst : Instruction) (source dest : X86OperandTypes)
    → Reads 1 8 (decode_mov pfx inst source dest)
unfolding decode_mov
Reads-decode_mov pfx inst source dest = Reads-mov_by_source pfx _ source dest

Reads-decode_int : (u : Bool) (inst : Instruction) → Reads 1 1 (decode_int u inst)
unfolding decode_int
Reads-decode_int u inst =
    Reads->>= next _ Reads-next λ val. Reads-if u _ _ (Reads-pure _) (Reads-refuse 0 0)

pub Reads-decode_opcode :
    (u : Bool) (p opcode : ℕ) (inst : Instruction) → Reads 1 8 (decode_opcode u p opcode inst)
unfolding decode_opcode
Reads-decode_opcode u p opcode inst =
    let mov = Reads-decode_mov p inst in
    Reads-if (opcode == 0xa1) _ _ (mov o_moffs_16_32_64 o_rax) (
      Reads-if (opcode == 0x88) _ _ (mov o_r8 o_r_m8) (
        Reads-if (opcode == 0x89) _ _ (mov o_r16_32_64 o_r_m16_32_64) (
          Reads-if (opcode == 0x8a) _ _ (mov o_r_m8 o_r8) (
            Reads-if (opcode == 0x8b) _ _ (mov o_r_m16_32_64 o_r16_32_64) (
              Reads-if (opcode == 0xc7) _ _ (mov o_imm16_32 o_r_m16_32_64) (
                Reads-if (opcode == 0xcd) _ _
                  (Reads-weaken (Reads-decode_int u inst) (omega arith) (omega arith))
                  (Reads-refuse 1 8)))))))
