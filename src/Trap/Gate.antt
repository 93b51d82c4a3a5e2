-- ===== src/Trap/Gate.antt =====
-- The gates of the interrupt descriptor table of arch/x86_64/irq.c.
use simbench.Base.{
  ℕ, ◌+◌, ◌*◌, ◌/◌, ◌%◌, ◌^◌, ◌<◌, Bool, true, false, if◌then◌else◌, ◌≡◌, refl, arith, bit_and,
  bit_or, bit_and_mask,
}

-- `struct IDT`.
pub record Idt : Type 0 where
  pub off_low : ℕ
  pub sel : ℕ
  pub zero0 : ℕ
  pub type_ : ℕ
  pub off_mid : ℕ
  pub off_high : ℕ
  pub zero1 : ℕ

unfoldable pub set_idt : ℕ → Bool → Idt
set_idt fn allow_user = record {
  off_low = bit_and fn 0xffff;
  sel = 0x8;
  zero0 = 0;
  type_ = bit_or 0x8e (if allow_user then 0x60 else 0);
  off_mid = bit_and (fn / 2 ^ 16) 0xffff;
  off_high = fn / 2 ^ 32 % 2 ^ 32;
  zero1 = 0;
}

-- How the processor reads a gate: the address, the privilege that may raise it by an instruction,
-- and whether it is a present 64-bit interrupt gate.
abbrev pub gate_target : Idt → ℕ
gate_target g = g.off_low + g.off_mid * 2 ^ 16 + g.off_high * 2 ^ 32

abbrev pub gate_privilege : Idt → ℕ
gate_privilege g = g.type_ / 2 ^ 5 % 4

pub record IsGate (fn : ℕ) (allow_user : Bool) (g : Idt) : Type 0 where
  pub target : gate_target g ≡ fn
  pub privilege : gate_privilege g ≡ (if allow_user then 3 else 0)
  pub present : g.type_ / 2 ^ 7 ≡ 1
  pub interrupt : g.type_ % 2 ^ 5 ≡ 0xe
  pub kernel_code : g.sel ≡ 8
  pub reserved : g.zero0 + g.zero1 ≡ 0

-- Read as the processor does, the gate that `set_idt` writes leads to the given 64-bit address, is a
-- present interrupt gate into the kernel's code, and may be raised from user mode exactly if that was
-- allowed.
pub set_idt-IsGate :
    (fn : ℕ) (allow_user : Bool) → fn < 2 ^ 64 → IsGate fn allow_user (set_idt fn allow_user)
unfolding set_idt
set_idt-IsGate fn true small = record {
  target = omega (arith, bit_and_mask 16 fn, bit_and_mask 16 (fn / 2 ^ 16));
  privilege = refl;
  present = refl;
  interrupt = refl;
  kernel_code = refl;
  reserved = refl;
}
set_idt-IsGate fn false small = record {
  target = omega (arith, bit_and_mask 16 fn, bit_and_mask 16 (fn / 2 ^ 16));
  privilege = refl;
  present = refl;
  interrupt = refl;
  kernel_code = refl;
  reserved = refl;
}
