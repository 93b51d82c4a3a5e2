-- ===== src/Armv8/Tests.antt =====
-- The ARMv8 port at a concrete core, and the theorems at it.
use simbench.Base.{◌≡◌, refl, inl, none, some, [], ◌∷◌, arith}
use simbench.Base.Outcome.{returns}
use simbench.Armv8.Init.{IsLaidOut}
use simbench.Armv8.Root.{IsFresh, with_root}
use simbench.Armv8.Identity.{IsIdMapped, mem_init-IsIdMapped}
use simbench.Armv8.State.{handle_syscall, update, Layout, Core, armv8_heap_init}
use simbench.Armv8.Exception.{
  ec_syscall, is_handled, armv8_install_sync_handler, armv8_install_syscall_handler,
}
use simbench.Armv8.Arch.{Site, arch_init, mem_init}
use simbench.Armv8.Serve.{IsReady, IsHandled}
use simbench.Armv8.Runs.{IsReached, inited, IsServed, IsReached-IsReady, IsReached-IsServed}
use simbench.Armv8.Skip.{IsResumed, data_abort-IsResumed}

abbrev layout : Layout
layout = record {
  text_start = 0x80000;
  text_end = 0x81fff;
  data_start = 0x90000;
  data_end = 0x90fff;
  heap_start = 0x100000;
  heap_end = 0x200000;
  devices = (0x9000000, 0x9000fff) ∷ [];
}

abbrev core : Core
core = record {
  layout = layout;
  memory = λ a. 0;
  heap_ptr = 0;
  l0_table = 0;
  global_syscall_no = 0;
  el0_sync_table = λ ec. none;
  el0_irq_handler = none;
  backup_lr = 0;
  irq_calls = [];
  current_el = 4;
  pstate = 0x3c0;
  pc = 0x80000;
  esr = 0;
  elr = 0;
  spsr = 0;
  sctlr = 0x30d00800;
  tcr = 0;
  ttbr0 = 0;
  cpacr = 0;
  cntkctl = 0;
}

abbrev started : Core
started = record core {
  cpacr = 0x300000;
  sctlr = 0x34d01804;
  el0_sync_table = update core.el0_sync_table ec_syscall (some handle_syscall);
  cntkctl = 1;
  heap_ptr = 0x100000;
}

arch_init-started : arch_init core ≡ returns tt started
unfolding arch_init armv8_install_syscall_handler armv8_install_sync_handler armv8_heap_init
arch_init-started = refl

started-IsReached : IsReached started
started-IsReached = inited core started arch_init-started

started-IsHandled : IsHandled started
unfolding is_handled
started-IsHandled = refl

abbrev site : Site
site = record { undefined = 1; fuel = 16; lr = 0x80100; next = 0x80204 }

IsReached-IsReady_example : IsReady started
IsReached-IsReady_example = IsReached-IsReady started started-IsReached

IsReached-IsServed_example : IsServed site started
IsReached-IsServed_example = IsReached-IsServed site started started-IsReached started-IsHandled

data_abort-IsResumed_example : IsResumed site 0x46 started
data_abort-IsResumed_example = data_abort-IsResumed site 0x46 started (omega arith) refl

layout-IsLaidOut : IsLaidOut layout
layout-IsLaidOut = record {
  text_plain = (omega arith, omega arith);
  data_plain = (omega arith, omega arith);
  text_data = λ va inside. inl (omega arith);
  text_devices = λ va inside. (inl (omega arith), tt);
  data_devices = λ va inside. (inl (omega arith), tt);
  devices_apart = ((omega arith, omega arith), (λ va inside. tt), tt);
}

started-IsFresh : IsFresh started
started-IsFresh = record {
  unset = refl;
  nonzero = omega arith;
  aligned = refl;
  room = omega arith;
  bound = omega arith;
  word = λ a. omega arith;
  blank = λ a high. refl;
}

mem_init-IsIdMapped_example : IsIdMapped (mem_init site) site started
mem_init-IsIdMapped_example =
    mem_init-IsIdMapped site started refl started-IsHandled started-IsFresh layout-IsLaidOut
      (omega arith) (omega arith)

-- The core with an empty level 0 table.
abbrev rooted : Core
rooted = with_root started
