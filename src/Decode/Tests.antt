-- ===== src/Decode/Tests.antt =====
-- The decoder on encoded instructions, and the theorems at them.
use simbench.Base.{
  ℕ, ◌+◌, ◌≤◌, ◌≡◌, ◌≢◌, refl, true, false, List, [], ◌∷◌, some, inl, arith, length,
}
use simbench.Decode.Cursor.{ok, refused, fault}
use simbench.Decode.Types.{
  X86Register, Operand, Instruction, operand_register, operand_memory, reg, mem, imm_val,
  operand_immediate, inst_mov, inst_int, rbx, r9, riz, o_r8, register_size,
}
use simbench.Decode.Operands.{
  prefix_flags, read_prefixes, split_modrm, decode_reg_operand, decode_rm_operand,
}
use simbench.Decode.Inst.{
  decode_instruction, decode_body, decode_opcode, read_opcode, decode_mov, mov_from_reg, decode_int,
}
use simbench.Decode.Registers.{number, Encodes, decode_reg_operand-Encodes}
use simbench.Decode.Memory.{based, decode_rm_operand-based}
use simbench.Decode.Length.{
  IsDecoded, prefix_count, decode_instruction-IsDecoded, decode_instruction-ne-fault,
}

-- A local variable before the call.
abbrev pub blank_operand : Operand
blank_operand = record { type = operand_register; size = 0; value = imm_val 0 }

abbrev pub blank : Instruction
blank = record { opcode = inst_int; length = 0; operand0 = blank_operand; operand1 = blank_operand }

-- mov %rbx, 0x10(%r9): 49 89 59 10
abbrev pub store_code : List ℕ
store_code = 0x49 ∷ 0x89 ∷ 0x59 ∷ 0x10 ∷ 0x90 ∷ []

abbrev pub store : Instruction
store = record {
  opcode = inst_mov;
  length = 4;
  operand0 = record { type = operand_register; size = 8; value = reg rbx };
  operand1 = record {
    type = operand_memory;
    size = 0;
    value = mem (record { displacement = 16; base = r9; scale = 0; index = riz });
  };
}

store_example : decode_instruction false blank store_code ≡ ok store (0x90 ∷ [])
unfolding decode_instruction decode_body decode_opcode read_opcode decode_mov mov_from_reg
    prefix_flags read_prefixes split_modrm decode_reg_operand decode_rm_operand
store_example = refl

-- `cd 80`, the system call, with the undefined return value at zero and at one.
int_example :
    (decode_instruction false blank (0xcd ∷ 0x80 ∷ []) ≡ refused)
    × (decode_instruction true blank (0xcd ∷ 0x80 ∷ [])
        ≡ ok
            (record blank {
              length = 2;
              operand0 = record { type = operand_immediate; size = 1; value = imm_val 0x80 };
            })
            [])
unfolding decode_instruction decode_body decode_opcode read_opcode decode_int prefix_flags
    read_prefixes
int_example = (refl, refl)

decode_instruction-IsDecoded_example : IsDecoded false blank store_code store (0x90 ∷ [])
decode_instruction-IsDecoded_example =
    decode_instruction-IsDecoded false blank store_code store (0x90 ∷ []) store_example

abbrev long_code : List ℕ
long_code = 0x66 ∷ 0xa1 ∷ 1 ∷ 2 ∷ 3 ∷ 4 ∷ 5 ∷ 6 ∷ 7 ∷ 8 ∷ []

long_enough : prefix_count long_code + 9 ≤ length long_code
unfolding prefix_count prefix_flags
long_enough = omega arith

decode_instruction-ne-fault_example : decode_instruction false blank long_code ≢ fault
decode_instruction-ne-fault_example = decode_instruction-ne-fault false blank long_code long_enough

decode_reg_operand-Encodes_example : (r : X86Register) × Encodes blank_operand 0x44 4 o_r8 r
decode_reg_operand-Encodes_example =
    decode_reg_operand-Encodes blank_operand 0x44 4 o_r8 (omega arith) (inl refl)

decode_rm_operand-based_example :
    (base : X86Register) × (decode_rm_operand blank_operand 0x40 1 1 (0x10 ∷ 0x90 ∷ [])
      ≡ ok (based blank_operand base 0x10) (0x90 ∷ []))
    × (number base ≡ 9)
    × (register_size base ≡ some 8)
decode_rm_operand-based_example =
    decode_rm_operand-based blank_operand 0x40 1 1 (0x10 ∷ 0x90 ∷ []) (omega arith) (omega arith)
      (omega arith) (omega arith) (omega arith)
