-- ===== src/Armv8/Skip.antt =====
-- A data abort on ARMv8 with the skipping handler of arch/armv8/exception.c.
use simbench.Base.{ℕ, ◌+◌, ◌*◌, ◌/◌, ◌%◌, ◌^◌, ◌<◌, ◌≡◌, refl, some, arith}
use simbench.Base.Outcome.{returns}
use simbench.Armv8.State.{Core, exception_skip, update}
use simbench.Armv8.Exception.{
  arch_dfault_install_skip, armv8_install_sync_handler, call_handler, run_exception_skip,
  el1_lower_sync_handler, level_of, is_handled, synchronous_path, synchronous_vector,
}
use simbench.Armv8.Arch.{Site}

-- The data abort at the instruction at `site.next`, whose return address is that instruction itself.
pub record IsResumed (site : Site) (iss : ℕ) (s : Core) : Type 0 where
  pub ready : Core
  pub installed : arch_dfault_install_skip s ≡ returns tt ready
  pub after : Core
  pub done :
      synchronous_vector site.undefined site.fuel 0x24 iss site.lr site.next ready
      ≡ returns tt after
  pub pc : after.pc ≡ (site.next % 2 ^ 32 + 4) % 2 ^ 32
  pub mode : after.pstate ≡ s.pstate
  pub memory : after.memory ≡ s.memory
  pub control : after.sctlr ≡ s.sctlr

-- After `arch_dfault_install_skip`, a data abort of a program at exception level 0, with any syndrome,
-- returns to the instruction behind the
-- faulting one, an address that is cut to 32 bits, in the same mode and with the same memory.
pub data_abort-IsResumed :
    (site : Site) (iss : ℕ) (s : Core) → iss < 2 ^ 25 → level_of s.pstate ≡ 0 → IsResumed site iss s
unfolding arch_dfault_install_skip armv8_install_sync_handler synchronous_vector synchronous_path
    is_handled el1_lower_sync_handler call_handler run_exception_skip
data_abort-IsResumed site iss s small lower =
    let class : (0x24 * 2 ^ 26 + 2 ^ 25 + iss) % 2 ^ 32 / 2 ^ 26 ≡ 0x24 = omega arith in
    let ready = record s { el0_sync_table = update s.el0_sync_table 0x24 (some exception_skip) } in
    let back = (site.next % 2 ^ 32 + 4) % 2 ^ 32 in
    record {
      ready = ready;
      installed = refl;
      after = record ready {
        esr = 0x24 * 2 ^ 26 + 2 ^ 25 + iss;
        elr = back;
        spsr = s.pstate;
        backup_lr = site.lr;
        pc = back;
      };
      done = rw (lower, class) refl;
      pc = refl;
      mode = refl;
      memory = refl;
      control = refl;
    }
