-- ===== src/Decode/Memory.antt =====
-- The memory operands that arch/x86_64/decode.c decodes, against the processor's numbering.
use simbench.Base.{
  ℕ, zero, suc, ◌+◌, ◌*◌, ◌<◌, ◌≤◌, ◌≡◌, ◌≢◌, refl, ◌∙◌, if◌then◌else◌, none, some, arith, ◌⊎◌, inl,
  inr, List, [], ◌∷◌, length, take, drop, ap, ◌==◌,
}
use mathlib.Core.Option
use simbench.Decode.Cursor.{ok, next32}
use simbench.Decode.Types.{
  X86Register, Operand, mem, operand_memory, register_size, riz, rex_b, address_size_override,
}
use simbench.Decode.Operands.{has, base_for, memory_operand, decode_rm_operand}
use simbench.Decode.Registers.{number}

-- The number of displacement bytes that `mod` announces.
abbrev pub displacement_bytes : ℕ → ℕ
displacement_bytes mod_bits = if mod_bits == 0 then 0 else if mod_bits == 1 then 1 else 4

abbrev pub little_endian : List ℕ → ℕ
little_endian [] = 0
little_endian (b ∷ bs) = b + 256 * little_endian bs

-- REX.B supplies the fourth bit.
abbrev pub base_number : ℕ → ℕ → ℕ
base_number pfx rm = rm + (if has pfx rex_b then 8 else 0)

abbrev pub address_bytes : ℕ → ℕ
address_bytes pfx = if has pfx address_size_override then 4 else 8

-- The operand that names `base` with displacement `d`, and no index.
abbrev pub based : Operand → X86Register → ℕ → Operand
based oper base d = record oper {
  type = operand_memory;
  value = mem (record { displacement = d; base = base; scale = 0; index = riz });
}

abbrev IsBase : ℕ → ℕ → X86Register → Type 0
IsBase pfx rm r =
    (base_for pfx rm ≡ some r)
    × (number r ≡ base_number pfx rm)
    × (register_size r ≡ some (address_bytes pfx))

abbrev found : ℕ → ℕ → X86Register
found pfx rm = Option.get_or (base_for pfx rm) riz

IsBase-found : (pfx rm : ℕ) → rm < 8 → rm ≢ 4 → rm ≢ 5 → IsBase pfx rm (found pfx rm)
unfolding base_for number register_size
IsBase-found pfx zero h n4 n5 = ground arith
IsBase-found pfx (suc zero) h n4 n5 = ground arith
IsBase-found pfx (suc (suc zero)) h n4 n5 = ground arith
IsBase-found pfx (suc (suc (suc zero))) h n4 n5 = ground arith
IsBase-found pfx (suc (suc (suc (suc zero)))) h n4 n5 = absurd (n4 refl)
IsBase-found pfx (suc (suc (suc (suc (suc zero))))) h n4 n5 = absurd (n5 refl)
IsBase-found pfx (suc (suc (suc (suc (suc (suc zero)))))) h n4 n5 = ground arith
IsBase-found pfx (suc (suc (suc (suc (suc (suc (suc zero))))))) h n4 n5 = ground arith
IsBase-found pfx (suc (suc (suc (suc (suc (suc (suc (suc rm)))))))) h n4 n5 = absurd (omega arith)

base_missing : (pfx rm : ℕ) → (rm ≡ 4) ⊎ (rm ≡ 5) → base_for pfx rm ≡ none
unfolding base_for
base_missing pfx rm (inl e) = rw e (ground arith)
base_missing pfx rm (inr e) = rw e (ground arith)

memory_operand-based :
    (oper : Operand) (pfx rm d : ℕ) (r : X86Register) (code : List ℕ)
    → base_for pfx rm ≡ some r
    → memory_operand oper pfx rm d code ≡ ok (based oper r d) code
unfolding memory_operand
memory_operand-based oper pfx rm d r code e = rw (e, memory_operand)

-- The reads of the displacement, by `mod`.
rm_operand_reads :
    (oper : Operand) (pfx m rm : ℕ) (code : List ℕ) (r : X86Register)
    → m < 3
    → displacement_bytes m ≤ length code
    → base_for pfx rm ≡ some r
    → decode_rm_operand oper pfx m rm code
      ≡ ok
          (based oper r (little_endian (take (displacement_bytes m) code)))
          (drop (displacement_bytes m) code)
unfolding decode_rm_operand next32
rm_operand_reads oper pfx zero rm code r h l e = memory_operand-based oper pfx rm 0 r code e
rm_operand_reads oper pfx (suc zero) rm [] r h l e = elim l [ ]
rm_operand_reads oper pfx (suc zero) rm (b ∷ code) r h l e =
    memory_operand-based oper pfx rm b r code e ∙ ap (λ d. ok (based oper r d) code) (omega arith)
rm_operand_reads oper pfx (suc (suc zero)) rm (b0 ∷ b1 ∷ b2 ∷ b3 ∷ code) r h l e =
    memory_operand-based oper pfx rm _ r code e ∙ ap (λ d. ok (based oper r d) code) (omega arith)
rm_operand_reads oper pfx (suc (suc zero)) rm code r h l e = absurd (omega arith)
rm_operand_reads oper pfx (suc (suc (suc m))) rm code r h l e = absurd (omega arith)

-- For `mod` 0, 1 and 2 and any `rm` but 4 and 5, `decode_rm_operand` builds a memory operand
-- without an index. Its base has the number `rm` extended by REX.B and the width that the address
-- prefix selects; its displacement is the unsigned value of the bytes that `mod` announces, which
-- are taken off the code.
pub decode_rm_operand-based :
    (oper : Operand) (pfx m rm : ℕ) (code : List ℕ)
    → m < 3
    → rm < 8
    → rm ≢ 4
    → rm ≢ 5
    → displacement_bytes m ≤ length code
    → (base : X86Register) × (decode_rm_operand oper pfx m rm code
        ≡ ok
            (based oper base (little_endian (take (displacement_bytes m) code)))
            (drop (displacement_bytes m) code))
      × (number base ≡ base_number pfx rm)
      × (register_size base ≡ some (address_bytes pfx))
decode_rm_operand-based oper pfx m rm code hm h n4 n5 l =
    let (is, numbered, sized) = IsBase-found pfx rm h n4 n5 in
    (found pfx rm, rm_operand_reads oper pfx m rm code _ hm l is, numbered, sized)
