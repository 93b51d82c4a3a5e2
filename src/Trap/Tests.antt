-- ===== src/Trap/Tests.antt =====
-- The x86-64 interrupts at concrete inputs, and the theorems at them.
use simbench.Base.{ℕ, zero, suc, ◌≡◌, refl, true, false, List, [], ◌∷◌, none, some, arith}
use simbench.Decode.Cursor.{ok}
use simbench.Decode.Operands.{
  prefix_flags, read_prefixes, split_modrm, decode_reg_operand, decode_rm_operand,
}
use simbench.Decode.Inst.{
  decode_instruction, decode_body, decode_opcode, read_opcode, decode_mov, mov_from_reg,
}
use simbench.Decode.Tests.{blank, store_code, store}
use simbench.Paging.Machine.{unset}
use simbench.Trap.Gate.{set_idt}
use simbench.Trap.State.{no_syscall, no_irq, no_undef, Cpu}
use simbench.Trap.Start.{Routines}
use simbench.Trap.Table.{IsInited, irq_init-IsInited}
use simbench.Trap.Skip.{Mcontext, Memory, IsSkipped, page_fault-IsSkipped}
use simbench.Trap.Command.{parse_cmdline, IsRead, parse_cmdline-IsRead}

-- "fb" in front of the end: the parser goes on behind the NUL, here through a second "fb".
run_past : parse_cmdline false (102 ∷ 98 ∷ 0 ∷ 7 ∷ []) ≡ none
unfolding parse_cmdline
run_past = refl

-- "fb x"
abbrev line : List ℕ
line = 102 ∷ 98 ∷ 32 ∷ 120 ∷ []

line_found : parse_cmdline false (102 ∷ 98 ∷ 32 ∷ 120 ∷ 0 ∷ []) ≡ some true
unfolding parse_cmdline
line_found = refl

parse_cmdline-IsRead_example : IsRead false line
parse_cmdline-IsRead_example = parse_cmdline-IsRead false line (
  λ e. absurd (omega arith),
  (
    λ e. absurd (omega arith),
    (
      (λ e. absurd (omega arith), λ e. absurd (omega arith)),
      (λ e. absurd (omega arith), λ e. absurd (omega arith)),
    ),
  ),
)

abbrev routines : Routines
routines = record {
  trap_unknown = 0x100000;
  trap_unknown_arg = 0x100100;
  trap_page_fault = 0x100200;
  trap_syscall = 0x100300;
  trap_irq = 0x100400;
  trap_undef = 0x100500;
  trap_gpf = 0x100600;
  trap_timer = 0x100700;
}

abbrev pub cpu : Cpu
cpu = record {
  machine = record {
    memory = λ a. 0;
    heap_base = 0x2000;
    heap_cur = 0x2000;
    heap_end = 0x102000;
    heap_size = 0x100000;
    initial_pagetables = 0;
    runtime_pagetables = 0x1000;
    mem_inited = false;
    page_fault_handler_fn = unset;
    cr3 = 0;
  };
  gates = λ v. set_idt 0 false;
  idt_base = 0;
  idt_limit = 0;
  lapic = [];
  syscall_handler_fn = no_syscall;
  irq_handler_fn = no_irq;
  undef_handler_fn = no_undef;
  benchmark_irq_handler = none;
  interrupts = false;
  use_framebuffer = false;
}

-- The local APIC is busy on its first two reads.
abbrev busy_twice : ℕ → ℕ
busy_twice zero = 0x1000
busy_twice (suc zero) = 0x1000
busy_twice (suc (suc n)) = 0

irq_init-IsInited_example : IsInited routines busy_twice 3 cpu
irq_init-IsInited_example =
    irq_init-IsInited routines busy_twice 3 2 cpu
      (record {
        unknown_bound = omega arith;
        unknown_arg_bound = omega arith;
        page_fault_bound = omega arith;
        syscall_bound = omega arith;
        irq_bound = omega arith;
        undef_bound = omega arith;
        gpf_bound = omega arith;
        timer_bound = omega arith;
      })
      (omega arith) refl (omega arith)

abbrev memory : Memory
memory = record {
  word_at = λ a. 0;
  bytes_from = λ a. store_code;
  stack = blank;
  undefined_return = false;
}

-- The context at a store to memory, 0x400000.
abbrev context : Mcontext
context = record {
  r15 = 0;
  r14 = 0;
  r13 = 0;
  r12 = 0;
  r11 = 0;
  r10 = 0;
  r9 = 0;
  r8 = 0;
  rbp = 0;
  rsi = 0;
  rdi = 0;
  rdx = 0;
  rcx = 0;
  rbx = 0;
  rax = 0;
  flags = 0;
  rsp = 0;
  extra = 0;
  rip = 0x400000;
  temp_cs = 0;
  temp_flags = 0;
  temp_sp = 0;
  temp_ss = 0;
}

store_decoded : decode_instruction false blank store_code ≡ ok store (0x90 ∷ [])
unfolding decode_instruction decode_body decode_opcode read_opcode decode_mov mov_from_reg
    prefix_flags read_prefixes split_modrm decode_reg_operand decode_rm_operand
store_decoded = refl

page_fault-IsSkipped_example : IsSkipped cpu memory context store (0x90 ∷ [])
page_fault-IsSkipped_example =
    page_fault-IsSkipped cpu memory context store (0x90 ∷ []) store_decoded
