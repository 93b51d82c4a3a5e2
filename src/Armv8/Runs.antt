-- ===== src/Armv8/Runs.antt =====
-- What a program on ARMv8 can do after `arch_init`, and that the port then serves its system calls.
use simbench.Base.{
  ℕ, ◌+◌, ◌*◌, ◌/◌, ◌%◌, ◌^◌, ◌==◌, Bool, true, false, if◌then◌else◌, ◌≡◌, inl, inr, refl, ap, ◌∙◌,
  Option, none, some, Option-cases, bit_and,
}
use simbench.Base.Outcome.{Outcome, returns, aborts, unfinished, and_then, pure}
use simbench.Armv8.State.{
  Handler, handle_syscall, exception_skip, armv8_pabt_return, Core, M, arch_abort, armv8_heap_init,
}
use simbench.Armv8.Memory.{syscall_mem_init, syscall_mem_mmu_enable, syscall_mem_mmu_disable}
use simbench.Armv8.Syscall.{
  syscall_irq_disable, syscall_irq_enable, syscall_priv_enter, syscall_priv_leave, serve,
  armv8_handle_syscall,
}
use simbench.Armv8.Exception.{
  run_handle_syscall, run_exception_skip, run_pabt_return, armv8_install_sync_handler,
  armv8_install_syscall_handler, call_handler, el1_lower_sync_handler, eret, return_or_abort,
  level_of, is_handled, synchronous_path, synchronous_vector, irq_path, ec_syscall,
  el1_lower_irq_handler, irq_vector, arch_ifault_install_return, arch_dfault_install_skip,
  arch_undef_install_skip, arch_irq_install_handler,
}
use simbench.Armv8.Arch.{
  arch_init, Site, armv8_syscall, arch_priv_enter, arch_priv_leave, mem_cache_flush,
}
use simbench.Armv8.Frame.{AreKept, Keeps-syscall_mem_init}
use simbench.Armv8.Serve.{IsReady, IsHandled, armv8_syscall-aborts}
use simbench.Armv8.Mode.{IsMode, arch_priv_enter-IsMode, arch_priv_leave-IsMode}

-- The states that a program reaches: `arch_init`, the change to another mode (reset.S goes to exception
-- level 0 behind `arch_init`), system calls, exceptions and interrupts, and the
-- installation of handlers, as long as nothing aborts.
pub data IsReached : Core → Type 0 where
  inited : (s t : Core) → arch_init s ≡ returns tt t → IsReached t
  lowered : (mode : ℕ) (s : Core) → IsReached s → IsReached (record s { pstate = mode })
  called :
      (site : Site) (call_no : ℕ) (s t : Core)
      → IsReached s
      → armv8_syscall site call_no s ≡ returns tt t
      → IsReached t
  trapped :
      (site : Site) (ec iss : ℕ) (s t : Core)
      → IsReached s
      → synchronous_vector site.undefined site.fuel ec iss site.lr site.next s ≡ returns tt t
      → IsReached t
  interrupted : (elr : ℕ) (s t : Core) → IsReached s → irq_vector elr s ≡ returns tt t → IsReached t
  ifault_returns :
      (s t : Core) → IsReached s → arch_ifault_install_return s ≡ returns tt t → IsReached t
  dfault_skips :
      (s t : Core) → IsReached s → arch_dfault_install_skip s ≡ returns tt t → IsReached t
  undef_skips : (s t : Core) → IsReached s → arch_undef_install_skip s ≡ returns tt t → IsReached t
  irq_installed :
      (handler : Option ℕ) (s t : Core)
      → IsReached s
      → arch_irq_install_handler handler s ≡ returns tt t
      → IsReached t

-- Where the code returns, the handler is installed.
abbrev StaysReady : {A : Type 0} → Outcome Core A → Type 0
StaysReady (returns a t) = IsReady t
StaysReady aborts = Unit {0}
StaysReady unfinished = Unit {0}

StaysReady-and_then :
    {A B : Type 0} (o : Outcome Core A) (k : A → M B)
    → StaysReady o
    → ((a : A) (t : Core) → IsReady t → StaysReady (k a t))
    → StaysReady (and_then o k)
StaysReady-and_then (returns a t) k ready keeps = keeps a t ready
StaysReady-and_then aborts k ready keeps = tt
StaysReady-and_then unfinished k ready keeps = tt

StaysReady-if :
    {A : Type 0} (c : Bool) (m n : M A) (s : Core)
    → StaysReady (m s)
    → StaysReady (n s)
    → StaysReady ((if c then m else n) s)
StaysReady-if true m n s m_stays n_stays = m_stays
StaysReady-if false m n s m_stays n_stays = n_stays

StaysReady-AreKept :
    {A : Type 0} (s : Core) (o : Outcome Core A) → IsReady s → AreKept s o → StaysReady o
StaysReady-AreKept s (returns a t) ready kept = ap (λ x. x.table ec_syscall) kept ∙ ready
StaysReady-AreKept s aborts ready kept = tt
StaysReady-AreKept s unfinished ready kept = tt

StaysReady-returns :
    {A : Type 0} (o : Outcome Core A) (a : A) (t : Core)
    → o ≡ returns a t
    → StaysReady o
    → IsReady t
StaysReady-returns o a t e stays = rw e at stays

StaysReady-serve : (fuel call_no : ℕ) (s : Core) → IsReady s → StaysReady (serve fuel call_no s)
unfolding serve syscall_irq_disable syscall_irq_enable syscall_mem_mmu_enable
    syscall_mem_mmu_disable syscall_priv_enter syscall_priv_leave
StaysReady-serve fuel call_no s ready = StaysReady-if (call_no == 2) _ _ s ready (
    StaysReady-if (call_no == 1) _ _ s ready (
      StaysReady-if (call_no == 3) (syscall_mem_init fuel) _ s
        (StaysReady-AreKept s (syscall_mem_init fuel s) ready (Keeps-syscall_mem_init fuel s))
        (StaysReady-if (call_no == 4) _ _ s ready (
          StaysReady-if (call_no == 5) _ _ s ready (
            StaysReady-if (call_no == 8) _ _ s ready
              (StaysReady-if (call_no == 9) _ _ s ready ready))))))

StaysReady-call_handler :
    (undefined fuel : ℕ) (handler : Option Handler) (s : Core)
    → IsReady s
    → StaysReady (call_handler undefined fuel handler s)
unfolding call_handler run_handle_syscall armv8_handle_syscall run_exception_skip run_pabt_return
StaysReady-call_handler undefined fuel none s ready = ready
StaysReady-call_handler undefined fuel (some handle_syscall) s ready =
    StaysReady-if (bit_and (s.esr % 2 ^ 32) 0x1ffffff == 0) (pure 0) _ s ready (
      StaysReady-if (bit_and (s.esr % 2 ^ 32) 0x1ffffff == 1) (armv8_handle_syscall fuel)
        (pure undefined) s (StaysReady-serve fuel s.global_syscall_no s ready) ready)
StaysReady-call_handler undefined fuel (some exception_skip) s ready = ready
StaysReady-call_handler undefined fuel (some armv8_pabt_return) s ready = ready

StaysReady-return_or_abort :
    (failed : ℕ) (s : Core) → IsReady s → StaysReady (return_or_abort failed s)
StaysReady-return_or_abort failed s ready =
    StaysReady-if {A = Unit {0}} (failed == 0) eret arch_abort s ready tt

StaysReady-synchronous_path :
    (undefined fuel ec iss lr elr : ℕ) (s : Core)
    → IsReady s
    → StaysReady (synchronous_path undefined fuel ec iss lr elr s)
unfolding synchronous_path el1_lower_sync_handler
StaysReady-synchronous_path undefined fuel ec iss lr elr s ready =
    let t = record s {
      esr = ec * 2 ^ 26 + 2 ^ 25 + iss;
      elr = elr;
      spsr = s.pstate;
      backup_lr = lr;
    } in
    let handler = s.el0_sync_table ((ec * 2 ^ 26 + 2 ^ 25 + iss) % 2 ^ 32 / 2 ^ 26) in
    StaysReady-and_then (call_handler undefined fuel handler t) return_or_abort
      (StaysReady-call_handler undefined fuel handler t ready) StaysReady-return_or_abort

StaysReady-synchronous_vector :
    (undefined fuel ec iss lr elr : ℕ) (s : Core)
    → IsReady s
    → StaysReady (synchronous_vector undefined fuel ec iss lr elr s)
unfolding synchronous_vector
StaysReady-synchronous_vector undefined fuel ec iss lr elr s ready =
    StaysReady-if (is_handled s.pstate) (synchronous_path undefined fuel ec iss lr elr) arch_abort s
      (StaysReady-synchronous_path undefined fuel ec iss lr elr s ready) tt

StaysReady-irq_path : (elr : ℕ) (s : Core) → IsReady s → StaysReady (irq_path elr s)
unfolding irq_path el1_lower_irq_handler
StaysReady-irq_path elr s ready = elim (Option-cases s.el0_irq_handler) [
  | inl e ↦ rw e tt
  | inr (handler, e) ↦ rw e ready
]

StaysReady-irq_vector : (elr : ℕ) (s : Core) → IsReady s → StaysReady (irq_vector elr s)
unfolding irq_vector
StaysReady-irq_vector elr s ready =
    StaysReady-if (level_of s.pstate == 0) (irq_path elr) arch_abort s
      (StaysReady-irq_path elr s ready) tt

-- In every state that a program reaches, the system call handler is installed.
pub IsReached-IsReady : (s : Core) → IsReached s → IsReady s
unfolding arch_init armv8_install_syscall_handler armv8_install_sync_handler armv8_syscall
    arch_ifault_install_return arch_dfault_install_skip arch_undef_install_skip
    arch_irq_install_handler armv8_heap_init
IsReached-IsReady _ (inited s t e) = StaysReady-returns (arch_init s) tt t e refl
IsReached-IsReady _ (lowered mode s reached) = IsReached-IsReady s reached
IsReached-IsReady _ (called site call_no s t reached e) =
    StaysReady-returns (armv8_syscall site call_no s) tt t e (
      StaysReady-synchronous_vector site.undefined site.fuel ec_syscall 1 site.lr site.next
        (record s { global_syscall_no = call_no }) (IsReached-IsReady s reached))
IsReached-IsReady _ (trapped site ec iss s t reached e) =
    StaysReady-returns (synchronous_vector site.undefined site.fuel ec iss site.lr site.next s) tt t
      e
      (StaysReady-synchronous_vector site.undefined site.fuel ec iss site.lr site.next s
        (IsReached-IsReady s reached))
IsReached-IsReady _ (interrupted elr s t reached e) =
    StaysReady-returns (irq_vector elr s) tt t e
      (StaysReady-irq_vector elr s (IsReached-IsReady s reached))
IsReached-IsReady _ (ifault_returns s t reached e) =
    StaysReady-returns (arch_ifault_install_return s) tt t e (IsReached-IsReady s reached)
IsReached-IsReady _ (dfault_skips s t reached e) =
    StaysReady-returns (arch_dfault_install_skip s) tt t e (IsReached-IsReady s reached)
IsReached-IsReady _ (undef_skips s t reached e) =
    StaysReady-returns (arch_undef_install_skip s) tt t e (IsReached-IsReady s reached)
IsReached-IsReady _ (irq_installed handler s t reached e) =
    StaysReady-returns (arch_irq_install_handler handler s) tt t e (IsReached-IsReady s reached)

-- What the port does with the calls of a program in a state.
pub record IsServed (site : Site) (s : Core) : Type 0 where
  pub entered : IsMode (arch_priv_enter site) site 1 s
  pub left : IsMode (arch_priv_leave site) site 0 s
  pub flushed : mem_cache_flush site s ≡ aborts

-- In every state that a program reaches, where it is at exception level 0 or at level 1 with SP_EL0,
-- `arch_priv_enter` and `arch_priv_leave` return behind the
-- call with the caller at exception level 1 and 0 and the rest of its mode as it was, and
-- `mem_cache_flush` aborts.
pub IsReached-IsServed : (site : Site) (s : Core) → IsReached s → IsHandled s → IsServed site s
unfolding mem_cache_flush
IsReached-IsServed site s reached handled =
    let ready = IsReached-IsReady s reached in
    record {
      entered = arch_priv_enter-IsMode site s ready handled;
      left = arch_priv_leave-IsMode site s ready handled;
      flushed = rw (armv8_syscall-aborts site 7 s ready handled (inr refl)) refl;
    }
