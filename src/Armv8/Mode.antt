-- ===== src/Armv8/Mode.antt =====
-- What the system calls of arch/armv8/syscall.c do to the mode of the caller and to SCTLR.
use simbench.Base.{ℕ, ◌<◌, ◌==◌, if◌then◌else◌, ◌≡◌, ◌≢◌, ◌∙◌, refl, bit_at, arith, ne→==}
use simbench.Base.Words.{bits_of, bit_at-bound, bit_at-replaced}
use simbench.Base.Outcome.{returns}
use simbench.Armv8.State.{Core, M}
use simbench.Armv8.Syscall.{serve, not_mode, syscall_priv_enter, syscall_priv_leave}
use simbench.Armv8.Arch.{Site, arch_priv_enter, arch_priv_leave}
use simbench.Armv8.Serve.{IsReady, IsHandled, armv8_syscall-serve}

-- After the call the program goes on behind it at the exception level `level`, with the rest of its
-- mode and of the port's state as it was.
pub record IsMode (m : M (Unit {0})) (site : Site) (level : ℕ) (s : Core) : Type 0 where
  pub after : Core
  pub done : m s ≡ returns tt after
  pub pc : after.pc ≡ site.next
  pub low : bit_at 2 after.pstate ≡ level
  pub high : bit_at 3 after.pstate ≡ 0
  pub rest : (n : ℕ) → n < 32 → n ≢ 2 → n ≢ 3 → bit_at n after.pstate ≡ bit_at n s.pstate
  pub table : after.el0_sync_table ≡ s.el0_sync_table
  pub memory : after.memory ≡ s.memory
  pub control : after.sctlr ≡ s.sctlr

not_mode-bits :
    (n : ℕ) → n < 32 → bit_at n not_mode ≡ (if n == 2 then 0 else if n == 3 then 0 else 1)
not_mode-bits = bits_of not_mode (λ n. if n == 2 then 0 else if n == 3 then 0 else 1) refl

not_mode-kept : (n : ℕ) → n < 32 → n ≢ 2 → n ≢ 3 → bit_at n not_mode ≡ 1
not_mode-kept n h not_2 not_3 = not_mode-bits n h ∙ rw (ne→== n 2 not_2, ne→== n 3 not_3) refl

four-bits : (n : ℕ) → n < 32 → bit_at n 4 ≡ (if n == 2 then 1 else 0)
four-bits = bits_of 4 (λ n. if n == 2 then 1 else 0) refl

four-clear : (n : ℕ) → n < 32 → n ≢ 2 → bit_at n 4 ≡ 0
four-clear n h not_2 = four-bits n h ∙ rw (ne→== n 2 not_2) refl

zero-bits : (n : ℕ) → n < 32 → bit_at n 0 ≡ 0
zero-bits = bits_of 0 (λ n. 0) refl

-- For an installed system call handler and a caller at level 0 or with SP_EL0, `arch_priv_enter`
-- returns behind the call with the caller at exception level 1, and changes no other bit of its
-- mode, no handler, no memory and no control bit.
pub arch_priv_enter-IsMode :
    (site : Site) (s : Core) → IsReady s → IsHandled s → IsMode (arch_priv_enter site) site 1 s
unfolding arch_priv_enter serve syscall_priv_enter
arch_priv_enter-IsMode site s ready handled = record {
  after = _;
  done = armv8_syscall-serve site 8 s ready handled;
  pc = refl;
  low = omega (arith, bit_at-replaced 2 s.pstate not_mode 4 (omega arith));
  high = omega (arith, bit_at-replaced 3 s.pstate not_mode 4 (omega arith));
  rest = λ n h not_2 not_3. omega (
    arith,
    bit_at-replaced n s.pstate not_mode 4 h,
    bit_at-bound n s.pstate,
    not_mode-kept n h not_2 not_3,
    four-clear n h not_2,
  );
  table = refl;
  memory = refl;
  control = refl;
}

-- For an installed system call handler and a caller at level 0 or with SP_EL0, `arch_priv_leave`
-- returns behind the call with the caller at exception level 0, and changes no other bit of its
-- mode, no handler, no memory and no control bit.
pub arch_priv_leave-IsMode :
    (site : Site) (s : Core) → IsReady s → IsHandled s → IsMode (arch_priv_leave site) site 0 s
unfolding arch_priv_leave serve syscall_priv_leave
arch_priv_leave-IsMode site s ready handled = record {
  after = _;
  done = armv8_syscall-serve site 9 s ready handled;
  pc = refl;
  low = omega (arith, bit_at-replaced 2 s.pstate not_mode 0 (omega arith));
  high = omega (arith, bit_at-replaced 3 s.pstate not_mode 0 (omega arith));
  rest = λ n h not_2 not_3. omega (
    arith,
    bit_at-replaced n s.pstate not_mode 0 h,
    bit_at-bound n s.pstate,
    not_mode-kept n h not_2 not_3,
    zero-bits n h,
  );
  table = refl;
  memory = refl;
  control = refl;
}
