-- ===== src/Decode/Operands.antt =====
-- The prefix, ModRM, register and memory operands of arch/x86_64/decode.c.
use simbench.Base.{
  ℕ, ◌/◌, ◌^◌, ◌==◌, Bool, not, if◌then◌else◌, bit_and, bit_or, Option, none, some, List, [], ◌∷◌,
  get_elem?,
}
use mathlib.Core.Option
use simbench.Decode.Cursor.{ok, fault, Cursor, pure, refuse, ◌>>=◌, next, next32}
use simbench.Decode.Types.{X86Register, Operand, reg, mem, operand_register, operand_memory}
use simbench.Decode.Types.{X86OperandTypes, o_r8, o_r16_32_64, register_size}
use simbench.Decode.Types.{
  address_size_override, operand_size_override, rex, rex_w, rex_r, rex_x, rex_b,
}
use simbench.Decode.Types.{al, bl, cl, dl, ah, bh, ch, dh, sil, dil, bpl, spl, ax, bx, cx, dx}
use simbench.Decode.Types.{si, di, bp, sp, eax, ebx, ecx, edx, esi, edi, ebp, esp, rax, rbx, rcx}
use simbench.Decode.Types.{rdx, rsi, rdi, rbp, rsp, r8, r9, r10, r11, r12, r13, r14, r15, r8b}
use simbench.Decode.Types.{r9b, r10b, r11b, r12b, r13b, r14b, r15b, r8w, r9w, r10w, r11w, r12w}
use simbench.Decode.Types.{r13w, r14w, r15w, r8d, r9d, r10d, r11d, r12d, r13d, r14d, r15d, riz}

-- The switch of `read_prefixes`: the flags that a prefix byte adds, `none` for any other byte.
unfoldable pub prefix_flags : ℕ → Option ℕ
prefix_flags b =
    if b == 0x67
    then some address_size_override
    else if b == 0x66
    then some operand_size_override
    else if b == 0x40
    then some rex
    else if b == 0x41
    then some (bit_or rex rex_b)
    else if b == 0x42
    then some (bit_or rex rex_x)
    else if b == 0x43
    then some (bit_or (bit_or rex rex_x) rex_b)
    else if b == 0x44
    then some (bit_or rex rex_r)
    else if b == 0x45
    then some (bit_or (bit_or rex rex_r) rex_b)
    else if b == 0x46
    then some (bit_or (bit_or rex rex_r) rex_x)
    else if b == 0x47
    then some (bit_or (bit_or (bit_or rex rex_r) rex_x) rex_b)
    else if b == 0x48
    then some (bit_or rex rex_w)
    else if b == 0x49
    then some (bit_or (bit_or rex rex_w) rex_b)
    else if b == 0x4a
    then some (bit_or (bit_or rex rex_w) rex_x)
    else if b == 0x4b
    then some (bit_or (bit_or (bit_or rex rex_w) rex_x) rex_b)
    else if b == 0x4c
    then some (bit_or (bit_or rex rex_w) rex_r)
    else if b == 0x4d
    then some (bit_or (bit_or (bit_or rex rex_w) rex_r) rex_b)
    else if b == 0x4e
    then some (bit_or (bit_or (bit_or rex rex_w) rex_r) rex_x)
    else if b == 0x4f
    then some (bit_or (bit_or (bit_or (bit_or rex rex_w) rex_r) rex_x) rex_b)
    else none

-- `read_prefixes`, with the flags found so far.
unfoldable pub read_prefixes : ℕ → Cursor ℕ
read_prefixes p [] = fault
read_prefixes p (b ∷ rest) = elim (prefix_flags b) [
  | none ↦ ok p (b ∷ rest)
  | some flags ↦ read_prefixes (bit_or p flags) rest
]

-- `pfx & flag` as a condition.
abbrev pub has : ℕ → ℕ → Bool
has pfx flag = not (bit_and pfx flag == 0)

pub record X86ModRm : Type 0 where
  pub mod_bits : ℕ
  pub reg_bits : ℕ
  pub rm_bits : ℕ

unfoldable pub split_modrm : ℕ → X86ModRm
split_modrm val = record {
  mod_bits = bit_and (val / 2 ^ 6) 3;
  reg_bits = bit_and (val / 2 ^ 3) 7;
  rm_bits = bit_and (val / 2 ^ 0) 7;
}

abbrev pub read_modrm : Cursor X86ModRm
read_modrm = do val ← next; pure (split_modrm val)

-- `if (pfx & REX_W) .. else if (pfx & OPERAND_SIZE_OVERRIDE) .. else ..`
abbrev pub by_operand_size : ℕ → X86Register → X86Register → X86Register → X86Register
by_operand_size pfx q w d =
    if has pfx rex_w then q else if has pfx operand_size_override then w else d

-- `if (pfx & REX) .. else ..`
abbrev pub by_rex : ℕ → X86Register → X86Register → X86Register
by_rex pfx with_rex without = if has pfx rex then with_rex else without

-- The first switch of `decode_reg_operand`: a table for each inner switch over `reg`, whose
-- `default` is the `none` past the end.
unfoldable pub register_for : ℕ → ℕ → X86OperandTypes → Option X86Register
register_for pfx n o_r8 =
    if has pfx rex_r
    then get_elem? (r8b ∷ r9b ∷ r10b ∷ r11b ∷ r12b ∷ r13b ∷ r14b ∷ r15b ∷ []) n
    else get_elem?
        (al
          ∷ cl
          ∷ dl
          ∷ bl
          ∷ by_rex pfx spl ah
          ∷ by_rex pfx bpl ch
          ∷ by_rex pfx sil dh
          ∷ by_rex pfx dil bh
          ∷ [])
        n
register_for pfx n o_r16_32_64 =
    if has pfx rex_r
    then get_elem?
        (by_operand_size pfx r8 r8w r8d
          ∷ by_operand_size pfx r9 r9w r9d
          ∷ by_operand_size pfx r10 r10w r10d
          ∷ by_operand_size pfx r11 r11w r11d
          ∷ by_operand_size pfx r12 r12w r12d
          ∷ by_operand_size pfx r13 r13w r13d
          ∷ by_operand_size pfx r14 r14w r14d
          ∷ by_operand_size pfx r15 r15w r15d
          ∷ [])
        n
    else get_elem?
        (by_operand_size pfx rax ax eax
          ∷ by_operand_size pfx rcx cx ecx
          ∷ by_operand_size pfx rdx dx edx
          ∷ by_operand_size pfx rbx bx ebx
          ∷ by_operand_size pfx rsp sp esp
          ∷ by_operand_size pfx rbp bp ebp
          ∷ by_operand_size pfx rsi si esi
          ∷ by_operand_size pfx rdi di edi
          ∷ [])
        n
register_for pfx n type = none

-- `decode_reg_operand`; `none` is `return 0`. A register with no size leaves the field as it was.
unfoldable pub decode_reg_operand : Operand → ℕ → ℕ → X86OperandTypes → Option Operand
unfolding register_for register_size
decode_reg_operand oper pfx n type = elim (register_for pfx n type) [
  | none ↦ none
  | some r ↦ some (record oper {
    type = operand_register;
    size = Option.get_or (register_size r) oper.size;
    value = reg r;
  })
]

-- `if (pfx & ADDRESS_SIZE_OVERRIDE) .. else ..`
abbrev pub by_address_size : ℕ → X86Register → X86Register → Option X86Register
by_address_size pfx d q = some (if has pfx address_size_override then d else q)

-- The switch over `rm`, which `decode_rm_operand` repeats for each value of `mod`; an entry
-- `none` is `return 0`. `rm` is three bits, so no value lies past the end.
unfoldable pub base_for : ℕ → ℕ → Option X86Register
base_for pfx rm = Option.get_or (get_elem? table rm) none
  where
    table : List (Option X86Register)
    table =
        if has pfx rex_b
        then by_address_size pfx r8d r8
          ∷ by_address_size pfx r9d r9
          ∷ by_address_size pfx r10d r10
          ∷ by_address_size pfx r11d r11
          ∷ none
          ∷ none
          ∷ by_address_size pfx r14d r14
          ∷ by_address_size pfx r15d r15
          ∷ []
        else by_address_size pfx eax rax
          ∷ by_address_size pfx ecx rcx
          ∷ by_address_size pfx edx rdx
          ∷ by_address_size pfx ebx rbx
          ∷ none
          ∷ none
          ∷ by_address_size pfx esi rsi
          ∷ by_address_size pfx edi rdi
          ∷ []

-- The operand that each case of `mod` builds once the displacement is read.
unfoldable pub memory_operand : Operand → ℕ → ℕ → ℕ → Cursor Operand
memory_operand oper pfx rm displacement = elim (base_for pfx rm) [
  | none ↦ refuse
  | some base ↦ pure (record oper {
    type = operand_memory;
    value = mem (record { displacement = displacement; base = base; scale = 0; index = riz });
  })
]

-- `decode_rm_operand`; its argument `type` is not read by the source. With `mod` 1 the
-- displacement is the byte itself, not sign-extended.
unfoldable pub decode_rm_operand : Operand → ℕ → ℕ → ℕ → Cursor Operand
unfolding memory_operand base_for next32
decode_rm_operand oper pfx mod_bits rm =
    if mod_bits == 0
    then memory_operand oper pfx rm 0
    else if mod_bits == 1
    then (do d ← next; memory_operand oper pfx rm d)
    else if mod_bits == 2
    then (do d ← next32; memory_operand oper pfx rm d)
    else refuse
