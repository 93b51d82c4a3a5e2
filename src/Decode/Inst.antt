-- ===== src/Decode/Inst.antt =====
-- `decode_mov`, `decode_int` and `decode_instruction` of arch/x86_64/decode.c.
use simbench.Base.{ℕ, ◌-◌, ◌==◌, Bool, if◌then◌else◌, bit_or, Option, none, some, List, length}
use simbench.Decode.Cursor.{ok, Cursor, pure, refuse, ◌>>=◌, next, peek, next64}
use simbench.Decode.Types.{
  Instruction, X86OperandTypes, reg, mem_off, imm_val, inst_mov, inst_int, eax, rax,
  operand_register, operand_immediate, operand_mem_off, operand_size_override, o_r8, o_r16_32_64,
  o_r_m8, o_r_m16, o_r_m16_32_64, o_imm16_32, o_moffs_16_32_64, o_rax,
}
use simbench.Decode.Operands.{has, read_prefixes, read_modrm, decode_reg_operand, decode_rm_operand}

-- `if (!f(..)) return 0;`
abbrev pub or_refuse : {A : Type 0} → Option A → Cursor A
or_refuse none = refuse
or_refuse (some a) = pure a

-- `case O_R16_32_64: case O_R8:` of `decode_mov`: register to register or memory.
unfoldable pub mov_from_reg :
    ℕ → Instruction → X86OperandTypes → X86OperandTypes → Cursor Instruction
mov_from_reg pfx inst source dest = do
  modrm ← read_modrm
  src ← or_refuse (decode_reg_operand inst.operand0 pfx modrm.reg_bits source)
  dst ← decode_rm_operand inst.operand1 pfx modrm.mod_bits modrm.rm_bits
  pure (record inst { operand0 = src; operand1 = dst })

-- `case O_R_M8: case O_R_M16: case O_R_M16_32_64:`, the other direction.
unfoldable pub mov_to_reg : ℕ → Instruction → X86OperandTypes → X86OperandTypes → Cursor Instruction
mov_to_reg pfx inst source dest = do
  modrm ← read_modrm
  dst ← or_refuse (decode_reg_operand inst.operand1 pfx modrm.reg_bits dest)
  src ← decode_rm_operand inst.operand0 pfx modrm.mod_bits modrm.rm_bits
  pure (record inst { operand0 = src; operand1 = dst })

-- `case O_MOFFS_16_32_64:`, a load from an absolute address. No size is set.
unfoldable pub mov_from_offset : ℕ → Instruction → X86OperandTypes → Cursor Instruction
mov_from_offset pfx inst dest = do
  offset ← next64
  elim dest [
    | o_rax ↦ pure (record inst {
      operand0 = record (inst.operand0) { type = operand_mem_off; value = mem_off offset };
      operand1 = record (inst.operand1) {
        type = operand_register;
        value = reg (if has pfx operand_size_override then rax else eax);
      };
    })
    | _ ↦ refuse
  ]

-- The outer switch of `decode_mov`.
abbrev pub mov_by_source : ℕ → Instruction → X86OperandTypes → X86OperandTypes → Cursor Instruction
mov_by_source pfx inst o_r16_32_64 dest = mov_from_reg pfx inst o_r16_32_64 dest
mov_by_source pfx inst o_r8 dest = mov_from_reg pfx inst o_r8 dest
mov_by_source pfx inst o_r_m8 dest = mov_to_reg pfx inst o_r_m8 dest
mov_by_source pfx inst o_r_m16 dest = mov_to_reg pfx inst o_r_m16 dest
mov_by_source pfx inst o_r_m16_32_64 dest = mov_to_reg pfx inst o_r_m16_32_64 dest
mov_by_source pfx inst o_imm16_32 dest = refuse
mov_by_source pfx inst o_moffs_16_32_64 dest = mov_from_offset pfx inst dest
mov_by_source pfx inst o_rax dest = refuse

unfoldable pub decode_mov : ℕ → Instruction → X86OperandTypes → X86OperandTypes → Cursor Instruction
decode_mov pfx inst source dest = mov_by_source pfx (record inst { opcode = inst_mov }) source dest

-- `decode_int` ends without a `return`: the value that its caller tests is undefined in C, and
-- `undefined_return` stands for it.
unfoldable pub decode_int : Bool → Instruction → Cursor Instruction
decode_int undefined_return inst = do
  val ← next
  if undefined_return
      then pure (record inst {
        opcode = inst_int;
        operand0 = record { type = operand_immediate; size = 1; value = imm_val val };
      })
      else refuse

-- The switch over `opcode` of `decode_instruction`.
unfoldable pub decode_opcode : Bool → ℕ → ℕ → Instruction → Cursor Instruction
decode_opcode undefined_return p opcode inst =
    if opcode == 0xa1
    then decode_mov p inst o_moffs_16_32_64 o_rax
    else if opcode == 0x88
    then decode_mov p inst o_r8 o_r_m8
    else if opcode == 0x89
    then decode_mov p inst o_r16_32_64 o_r_m16_32_64
    else if opcode == 0x8a
    then decode_mov p inst o_r_m8 o_r8
    else if opcode == 0x8b
    then decode_mov p inst o_r_m16_32_64 o_r16_32_64
    else if opcode == 0xc7
    then decode_mov p inst o_imm16_32 o_r_m16_32_64
    else if opcode == 0xcd
    then decode_int undefined_return inst
    else refuse

-- The opcode: a first byte 0x0f is skipped and sets bit 8.
unfoldable pub read_opcode : Cursor ℕ
read_opcode = do
  first ← peek
  if first == 0x0f then (do skipped ← next; low ← next; pure (bit_or 0x100 low)) else next

-- `inst->length` is `code - base`.
abbrev pub set_length : List ℕ → Instruction → Cursor Instruction
set_length base inst rest = ok (record inst { length = length base - length rest }) rest

-- From the opcode on.
unfoldable pub decode_body : Bool → ℕ → Instruction → Cursor Instruction
decode_body undefined_return p inst = do
  opcode ← read_opcode
  decode_opcode undefined_return p opcode inst

unfoldable pub decode_instruction : Bool → Instruction → Cursor Instruction
decode_instruction undefined_return inst code =
    (do p ← read_prefixes 0; decoded ← decode_body undefined_return p inst; set_length code decoded)
      code
