-- ===== src/Decode/Types.antt =====
-- arch/x86_64/decode.h and the enumerations at the top of arch/x86_64/decode.c.
use simbench.Base.{ℕ, Option, none, some}

pub data OperandType : Type 0 where
  operand_register operand_immediate operand_memory operand_mem_off : OperandType

pub data X86Register : Type 0 where
  al bl cl dl ah bh ch dh sil dil bpl spl ax bx cx dx si di bp sp eax ebx ecx edx : X86Register
  esi edi ebp esp rax rbx rcx rdx rsi rdi rbp rsp r8 r9 r10 r11 r12 r13 r14 r15 : X86Register
  r8b r9b r10b r11b r12b r13b r14b r15b r8w r9w r10w r11w r12w r13w r14w r15w r8d : X86Register
  r9d r10d r11d r12d r13d r14d r15d riz : X86Register

-- The union's member `mem`. `displacement` is a C `int`, kept as its 32-bit pattern.
pub record Mem : Type 0 where
  pub displacement : ℕ
  pub base : X86Register
  pub scale : ℕ
  pub index : X86Register

-- The union of `struct operand`: the member that was written last.
pub data OperandValue : Type 0 where
  reg : X86Register → OperandValue
  mem : Mem → OperandValue
  mem_off imm_val : ℕ → OperandValue

pub record Operand : Type 0 where
  pub type : OperandType
  pub size : ℕ
  pub value : OperandValue

pub data Opcode : Type 0 where
  inst_mov inst_int : Opcode

-- `operands[0]` and `operands[1]` are two fields.
pub record Instruction : Type 0 where
  pub opcode : Opcode
  pub length : ℕ
  pub operand0 : Operand
  pub operand1 : Operand

pub data X86OperandTypes : Type 0 where
  o_r8 o_r16_32_64 o_r_m16_32_64 o_r_m8 o_r_m16 o_imm16_32 o_moffs_16_32_64 o_rax : X86OperandTypes

abbrev pub address_size_override : ℕ
address_size_override = 0x01

abbrev pub operand_size_override : ℕ
operand_size_override = 0x02

abbrev pub rex : ℕ
rex = 0x04

abbrev pub rex_w : ℕ
rex_w = 0x08

abbrev pub rex_r : ℕ
rex_r = 0x10

abbrev pub rex_x : ℕ
rex_x = 0x20

abbrev pub rex_b : ℕ
rex_b = 0x40

-- The second switch of `decode_reg_operand`: the size in bytes, `none` where it has no case.
unfoldable pub register_size : X86Register → Option ℕ
register_size al = some 1
register_size bl = some 1
register_size cl = some 1
register_size dl = some 1
register_size ah = some 1
register_size bh = some 1
register_size ch = some 1
register_size dh = some 1
register_size sil = some 1
register_size dil = some 1
register_size bpl = some 1
register_size spl = some 1
register_size ax = some 2
register_size bx = some 2
register_size cx = some 2
register_size dx = some 2
register_size si = some 2
register_size di = some 2
register_size bp = some 2
register_size sp = some 2
register_size eax = some 4
register_size ebx = some 4
register_size ecx = some 4
register_size edx = some 4
register_size esi = some 4
register_size edi = some 4
register_size ebp = some 4
register_size esp = some 4
register_size rax = some 8
register_size rbx = some 8
register_size rcx = some 8
register_size rdx = some 8
register_size rsi = some 8
register_size rdi = some 8
register_size rbp = some 8
register_size rsp = some 8
register_size r8 = some 8
register_size r9 = some 8
register_size r10 = some 8
register_size r11 = some 8
register_size r12 = some 8
register_size r13 = some 8
register_size r14 = some 8
register_size r15 = some 8
register_size r8b = some 1
register_size r9b = some 1
register_size r10b = some 1
register_size r11b = some 1
register_size r12b = some 1
register_size r13b = some 1
register_size r14b = some 1
register_size r15b = some 1
register_size r8w = some 2
register_size r9w = some 2
register_size r10w = some 2
register_size r11w = some 2
register_size r12w = some 2
register_size r13w = some 2
register_size r14w = some 2
register_size r15w = some 2
register_size r8d = some 4
register_size r9d = some 4
register_size r10d = some 4
register_size r11d = some 4
register_size r12d = some 4
register_size r13d = some 4
register_size r14d = some 4
register_size r15d = some 4
register_size riz = none
