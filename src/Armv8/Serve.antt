-- ===== src/Armv8/Serve.antt =====
-- A system call on ARMv8 from the `svc` to the `eret`.
use simbench.Base.{ℕ, ◌+◌, ◌*◌, ◌^◌, ◌≡◌, ◌⊎◌, true, inl, inr, refl, some}
use simbench.Base.Outcome.{aborts, and_then}
use simbench.Armv8.State.{handle_syscall, Core}
use simbench.Armv8.Syscall.{serve, armv8_handle_syscall}
use simbench.Armv8.Exception.{
  run_handle_syscall, call_handler, el1_lower_sync_handler, return_or_abort, is_handled,
  synchronous_path, synchronous_vector, ec_syscall,
}
use simbench.Armv8.Arch.{Site, armv8_syscall}

-- The system call handler is installed.
abbrev pub IsReady : Core → Type 0
IsReady s = s.el0_sync_table ec_syscall ≡ some handle_syscall

-- The vector for the mode of the program calls the handler: it is at level 0 or uses SP_EL0.
abbrev pub IsHandled : Core → Type 0
IsHandled s = is_handled s.pstate ≡ true

-- The state in which the call is served.
abbrev pub entered : Site → ℕ → Core → Core
entered site call_no s = record s {
  global_syscall_no = call_no;
  esr = ec_syscall * 2 ^ 26 + 2 ^ 25 + 1;
  elr = site.next;
  spsr = s.pstate;
  backup_lr = site.lr;
}

-- The call reaches the switch.
pub armv8_syscall-serve :
    (site : Site) (call_no : ℕ) (s : Core)
    → IsReady s
    → IsHandled s
    → armv8_syscall site call_no s
      ≡ and_then (serve site.fuel call_no (entered site call_no s)) return_or_abort
unfolding armv8_syscall synchronous_vector synchronous_path el1_lower_sync_handler call_handler
    run_handle_syscall armv8_handle_syscall
armv8_syscall-serve site call_no s ready handled = rw (handled, ready) refl

-- A call with another number aborts.
pub armv8_syscall-aborts :
    (site : Site) (call_no : ℕ) (s : Core)
    → IsReady s
    → IsHandled s
    → (call_no ≡ 6) ⊎ (call_no ≡ 7)
    → armv8_syscall site call_no s ≡ aborts
unfolding serve
armv8_syscall-aborts site call_no s ready handled (inl e) =
    rw e (armv8_syscall-serve site 6 s ready handled)
armv8_syscall-aborts site call_no s ready handled (inr e) =
    rw e (armv8_syscall-serve site 7 s ready handled)
