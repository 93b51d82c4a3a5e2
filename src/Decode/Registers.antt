-- ===== src/Decode/Registers.antt =====
-- The register operands that arch/x86_64/decode.c decodes, against the processor's numbering.
use simbench.Base.{
  ℕ, zero, suc, ◌+◌, ◌<◌, ◌≡◌, ◌≢◌, refl, Bool, true, false, not, ◌&&◌, if◌then◌else◌, none, some,
  arith,
}
use simbench.Base.{◌⊎◌, inl, inr}
use mathlib.Core.Option
use simbench.Decode.Types.{X86Register, Operand, reg, operand_register}
use simbench.Decode.Types.{
  X86OperandTypes, o_r8, o_r16_32_64, rex, rex_w, rex_r, operand_size_override,
}
use simbench.Decode.Operands.{has, register_for, decode_reg_operand}
use simbench.Decode.Types.{al, bl, cl, dl, ah, bh, ch, dh, sil, dil, bpl, spl, ax, bx, cx, dx}
use simbench.Decode.Types.{si, di, bp, sp, eax, ebx, ecx, edx, esi, edi, ebp, esp, rax, rbx, rcx}
use simbench.Decode.Types.{rdx, rsi, rdi, rbp, rsp, r8, r9, r10, r11, r12, r13, r14, r15, r8b}
use simbench.Decode.Types.{r9b, r10b, r11b, r12b, r13b, r14b, r15b, r8w, r9w, r10w, r11w, r12w}
use simbench.Decode.Types.{r13w, r14w, r15w, r8d, r9d, r10d, r11d, r12d, r13d, r14d, r15d, riz}

-- The number by which the x86-64 manuals encode a register: three bits of ModRM and one of REX.
-- `riz` has no encoding, and gets a number that none has.
unfoldable pub number : X86Register → ℕ
number al = 0
number bl = 3
number cl = 1
number dl = 2
number ah = 4
number bh = 7
number ch = 5
number dh = 6
number sil = 6
number dil = 7
number bpl = 5
number spl = 4
number ax = 0
number bx = 3
number cx = 1
number dx = 2
number si = 6
number di = 7
number bp = 5
number sp = 4
number eax = 0
number ebx = 3
number ecx = 1
number edx = 2
number esi = 6
number edi = 7
number ebp = 5
number esp = 4
number rax = 0
number rbx = 3
number rcx = 1
number rdx = 2
number rsi = 6
number rdi = 7
number rbp = 5
number rsp = 4
number r8 = 8
number r9 = 9
number r10 = 10
number r11 = 11
number r12 = 12
number r13 = 13
number r14 = 14
number r15 = 15
number r8b = 8
number r9b = 9
number r10b = 10
number r11b = 11
number r12b = 12
number r13b = 13
number r14b = 14
number r15b = 15
number r8w = 8
number r9w = 9
number r10w = 10
number r11w = 11
number r12w = 12
number r13w = 13
number r14w = 14
number r15w = 15
number r8d = 8
number r9d = 9
number r10d = 10
number r11d = 11
number r12d = 12
number r13d = 13
number r14d = 14
number r15d = 15
number riz = 16

-- The width that the prefixes select, in bytes.
abbrev pub operand_bytes : ℕ → X86OperandTypes → ℕ
operand_bytes pfx o_r16_32_64 =
    if has pfx rex_w then 8 else if has pfx operand_size_override then 2 else 4
operand_bytes pfx type = 1

-- REX.R supplies the fourth bit.
abbrev pub extended : ℕ → ℕ → ℕ
extended pfx n = n + (if has pfx rex_r then 8 else 0)

-- The byte registers that have no encoding in an instruction with a REX prefix, and those that have
-- none in an instruction without one: ah and spl have the same number, and so on.
abbrev pub needs_no_rex : X86Register → Bool
needs_no_rex ah = true
needs_no_rex ch = true
needs_no_rex dh = true
needs_no_rex bh = true
needs_no_rex r = false

abbrev pub needs_rex : X86Register → Bool
needs_rex spl = true
needs_rex bpl = true
needs_rex sil = true
needs_rex dil = true
needs_rex r = false

-- What a decoded register operand is.
abbrev pub Encodes : Operand → ℕ → ℕ → X86OperandTypes → X86Register → Type 0
Encodes oper pfx n type r =
    (decode_reg_operand oper pfx n type
      ≡ some
          (record oper { type = operand_register; size = operand_bytes pfx type; value = reg r }))
    × (number r ≡ extended pfx n)
    × (needs_no_rex r && has pfx rex ≡ false)
    × (needs_rex r && not (has pfx rex) ≡ false)

byte-Encodes :
    (oper : Operand) (pfx n : ℕ)
    → n < 8
    → Encodes oper pfx n o_r8 (Option.get_or (register_for pfx n o_r8) riz)
unfolding decode_reg_operand number
byte-Encodes oper pfx zero h = ground arith
byte-Encodes oper pfx (suc zero) h = ground arith
byte-Encodes oper pfx (suc (suc zero)) h = ground arith
byte-Encodes oper pfx (suc (suc (suc zero))) h = ground arith
byte-Encodes oper pfx (suc (suc (suc (suc zero)))) h = ground arith
byte-Encodes oper pfx (suc (suc (suc (suc (suc zero))))) h = ground arith
byte-Encodes oper pfx (suc (suc (suc (suc (suc (suc zero)))))) h = ground arith
byte-Encodes oper pfx (suc (suc (suc (suc (suc (suc (suc zero))))))) h = ground arith
byte-Encodes oper pfx (suc (suc (suc (suc (suc (suc (suc (suc n)))))))) h = absurd (omega arith)

wide-Encodes :
    (oper : Operand) (pfx n : ℕ)
    → n < 8
    → Encodes oper pfx n o_r16_32_64 (Option.get_or (register_for pfx n o_r16_32_64) riz)
unfolding decode_reg_operand number
wide-Encodes oper pfx zero h = ground arith
wide-Encodes oper pfx (suc zero) h = ground arith
wide-Encodes oper pfx (suc (suc zero)) h = ground arith
wide-Encodes oper pfx (suc (suc (suc zero))) h = ground arith
wide-Encodes oper pfx (suc (suc (suc (suc zero)))) h = ground arith
wide-Encodes oper pfx (suc (suc (suc (suc (suc zero))))) h = ground arith
wide-Encodes oper pfx (suc (suc (suc (suc (suc (suc zero)))))) h = ground arith
wide-Encodes oper pfx (suc (suc (suc (suc (suc (suc (suc zero))))))) h = ground arith
wide-Encodes oper pfx (suc (suc (suc (suc (suc (suc (suc (suc n)))))))) h = absurd (omega arith)

-- For either kind of register operand, whatever the prefixes, decoding a three-bit field succeeds
-- with a register whose number is that field extended by REX.R, at the width that the operand kind
-- and the prefixes select: with a REX prefix none of ah, ch, dh and bh, and without one none of spl,
-- bpl, sil and dil, which have the same numbers.
pub decode_reg_operand-Encodes :
    (oper : Operand) (pfx n : ℕ) (type : X86OperandTypes)
    → n < 8
    → (type ≡ o_r8) ⊎ (type ≡ o_r16_32_64)
    → (r : X86Register) × Encodes oper pfx n type r
decode_reg_operand-Encodes oper pfx n type h (inl e) =
    rw e (Option.get_or (register_for pfx n o_r8) riz, byte-Encodes oper pfx n h)
decode_reg_operand-Encodes oper pfx n type h (inr e) =
    rw e (Option.get_or (register_for pfx n o_r16_32_64) riz, wide-Encodes oper pfx n h)

-- Any other kind is refused.
pub decode_reg_operand-none :
    (oper : Operand) (pfx n : ℕ) (type : X86OperandTypes)
    → type ≢ o_r8
    → type ≢ o_r16_32_64
    → decode_reg_operand oper pfx n type ≡ none
unfolding decode_reg_operand
decode_reg_operand-none oper pfx n o_r8 h k = absurd (h refl)
decode_reg_operand-none oper pfx n o_r16_32_64 h k = absurd (k refl)
decode_reg_operand-none oper pfx n type h k = refl
