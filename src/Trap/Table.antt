-- ===== src/Trap/Table.antt =====
-- `irq_init` of arch/x86_64/irq.c sets up the table, the local APIC and the handlers.
use simbench.Base.{
  ℕ, zero, suc, ◌+◌, ◌*◌, ◌%◌, ◌^◌, ◌≤◌, ◌<◌, ◌==◌, leb, true, false, if◌then◌else◌, ◌||◌, ◌≡◌, inl,
  inr, refl, ◌∙◌, arith, bit_and, List, ◌∷◌, some, ne→==, eq→==, eq_or_ne, Bool-cases,
}
use simbench.Paging.Machine.{default_page_fault_handler, heap_alloc_page, fast_zero_page}
use simbench.Trap.Gate.{Idt, set_idt, IsGate, set_idt-IsGate}
use simbench.Trap.State.{
  Cpu, returns, default_syscall_handler, default_irq_handler, default_undef_handler,
}
use simbench.Trap.Apic.{
  lapic_init, wait_delivered, delivs, last_write, svr, timer, ticr, tpr, masked, lint0, lint1,
  lerror,
}
use simbench.Trap.Handlers.{
  irq_reset_syscall_handler, irq_reset_page_fault_handler, irq_reset_irq_handler,
  irq_reset_undef_handler,
}
use simbench.Trap.Start.{Routines, put_gate, fill_gates, set_gates, irq_init}

-- The entry point that each vector is meant for.
abbrev pub entry_of : Routines → ℕ → ℕ
entry_of r v =
    if v == 0x80
    then r.trap_syscall
    else if v == 0x30
    then r.trap_irq
    else if v == 0x20
    then r.trap_timer
    else if v == 0x0e
    then r.trap_page_fault
    else if v == 0x0d
    then r.trap_gpf
    else if v == 0x06
    then r.trap_undef
    else if v == 0x08 || v == 0x0a || v == 0x0b || v == 0x0c || v == 0x11 || v == 0x1e
    then r.trap_unknown_arg
    else r.trap_unknown

fill_gates-behind :
    (rounds i : ℕ) (g : Idt) (gates : ℕ → Idt) (v : ℕ)
    → v < i
    → fill_gates rounds i g gates v ≡ gates v
unfolding fill_gates
fill_gates-behind zero i g gates v low = refl
fill_gates-behind (suc rounds) i g gates v low =
    fill_gates-behind rounds (suc i) g (put_gate i g gates) v (omega arith)
    ∙ rw (ne→== v i (λ e. omega arith)) refl

fill_gates-in :
    (rounds i : ℕ) (g : Idt) (gates : ℕ → Idt) (v : ℕ)
    → i ≤ v
    → v < i + rounds
    → fill_gates rounds i g gates v ≡ g
unfolding fill_gates
fill_gates-in zero i g gates v low high = absurd (omega arith)
fill_gates-in (suc rounds) i g gates v low high = elim (eq_or_ne v i) [
  | inl here ↦
      fill_gates-behind rounds (suc i) g (put_gate i g gates) v (omega arith)
      ∙ rw (eq→== v i here) refl
  | inr above ↦ fill_gates-in rounds (suc i) g (put_gate i g gates) v (omega arith) (omega arith)
]

pub record AreGates (r : Routines) (s : Cpu) : Type 0 where
  pub after : Cpu
  pub done : set_gates r s ≡ returns tt after
  pub gates : (v : ℕ) → v < 0x100 → after.gates v ≡ set_idt (entry_of r v) (v == 0x80)
  pub machine_same : after.machine ≡ s.machine

set_gates-AreGates : (r : Routines) (s : Cpu) → AreGates r s
unfolding set_gates
set_gates-AreGates r s = record {
  after = _;
  done = refl;
  gates = λ v small.
      rw
        (fill_gates-in 0x100 0 (set_idt r.trap_unknown false) s.gates v (omega arith) (omega arith))
        (ground arith);
  machine_same = refl;
}

-- The loop ends at the first read without the delivery bit, and changes nothing.
wait_delivered-end :
    (reads : ℕ → ℕ) (fuel n k : ℕ) (s : Cpu)
    → bit_and (reads (n + k)) delivs ≡ 0
    → k < fuel
    → wait_delivered reads fuel n s ≡ returns tt s
unfolding wait_delivered
wait_delivered-end reads zero n k s e h = absurd (omega arith)
wait_delivered-end reads (suc fuel) n zero s e h =
    let here : n + 0 ≡ n = omega arith in
    let clear : (bit_and (reads n) delivs == 0) ≡ true = eq→== _ 0 (rw here at e) in rw clear refl
wait_delivered-end reads (suc fuel) n (suc k) s e h =
    let next : n + suc k ≡ suc n + k = omega arith in
    elim (Bool-cases (bit_and (reads n) delivs == 0)) [
      | inl clear ↦ rw clear refl
      | inr busy ↦ rw busy (wait_delivered-end reads fuel (suc n) k s (rw next at e) (omega arith))
    ]

-- The entry points are 64-bit addresses.
pub record AreAddresses (r : Routines) : Type 0 where
  pub unknown_bound : r.trap_unknown < 2 ^ 64
  pub unknown_arg_bound : r.trap_unknown_arg < 2 ^ 64
  pub page_fault_bound : r.trap_page_fault < 2 ^ 64
  pub syscall_bound : r.trap_syscall < 2 ^ 64
  pub irq_bound : r.trap_irq < 2 ^ 64
  pub undef_bound : r.trap_undef < 2 ^ 64
  pub gpf_bound : r.trap_gpf < 2 ^ 64
  pub timer_bound : r.trap_timer < 2 ^ 64

entry_of_bound : (r : Routines) (v : ℕ) → AreAddresses r → entry_of r v < 2 ^ 64
entry_of_bound r v a = ground arith

-- The writes of `lapic_init` in front of its loop, the last one first, and those behind it.
abbrev reset_log : List (ℕ × ℕ) → List (ℕ × ℕ)
reset_log log =
    (0xc0, 0x88500)
    ∷ ((0xc4, 0)
        ∷ ((0x2c, 0)
            ∷ ((0xa0, 0)
                ∷ ((0xa0, 0)
                    ∷ ((0xdc, 0x10000)
                        ∷ ((0xd8, 0x10000)
                            ∷ ((0xd4, 0x10000) ∷ ((0xc8, 0x10000) ∷ ((0x3c, 0x1ff) ∷ log)))))))))

abbrev final_log : List (ℕ × ℕ) → List (ℕ × ℕ)
final_log log = (0xe0, 0xffffffff) ∷ ((0xf8, 3) ∷ ((0xc8, 0x10000) ∷ ((0x20, 0) ∷ reset_log log)))

-- What `irq_init` did.
pub record IsInited (r : Routines) (reads : ℕ → ℕ) (fuel : ℕ) (s : Cpu) : Type 0 where
  pub after : Cpu
  pub done : irq_init r reads fuel s ≡ returns tt after
  pub base : after.idt_base ≡ s.machine.heap_cur
  pub gates : (v : ℕ) → v < 0x100 → IsGate (entry_of r v) (v == 0x80) (after.gates v)
  pub syscalls : after.syscall_handler_fn ≡ default_syscall_handler
  pub faults : after.machine.page_fault_handler_fn ≡ default_page_fault_handler
  pub irqs : after.irq_handler_fn ≡ default_irq_handler
  pub undefs : after.undef_handler_fn ≡ default_undef_handler
  pub apic_enabled : last_write svr after.lapic ≡ some 0x1ff
  pub timer_masked : last_write timer after.lapic ≡ some masked
  pub lint0_masked : last_write lint0 after.lapic ≡ some masked
  pub lint1_masked : last_write lint1 after.lapic ≡ some masked
  pub lerror_masked : last_write lerror after.lapic ≡ some masked
  pub priority : last_write tpr after.lapic ≡ some 0
  pub countdown : last_write ticr after.lapic ≡ some 0xffffffff

-- With a page left on the heap, entry points at 64-bit addresses and a local APIC that delivers within
-- the fuel, `irq_init` returns. Each of the 256 vectors then leads to the entry point that it is meant
-- for, and only the system call's may be raised from user mode; every handler is the default one; the
-- local APIC is enabled, accepts every priority and has its timer and its other sources masked.
pub irq_init-IsInited :
    (r : Routines) (reads : ℕ → ℕ) (fuel k : ℕ) (s : Cpu)
    → AreAddresses r
    → s.machine.heap_cur < s.machine.heap_end
    → bit_and (reads k) delivs ≡ 0
    → k < fuel
    → IsInited r reads fuel s
unfolding irq_init lapic_init irq_reset_syscall_handler irq_reset_page_fault_handler
    irq_reset_irq_handler irq_reset_undef_handler heap_alloc_page
irq_init-IsInited r reads fuel k s a room delivered enough =
    let roomy : leb s.machine.heap_end s.machine.heap_cur ≡ false = ground arith in
    let set = set_gates-AreGates r (record s {
      machine = record s.machine {
        heap_cur = (s.machine.heap_cur + 0x1000) % 2 ^ 64;
        memory = fast_zero_page s.machine.heap_cur s.machine.memory;
      };
    }) in
    let zero_k : 0 + k ≡ k = omega arith in
    let loaded = record set.after { idt_base = s.machine.heap_cur; idt_limit = 16 * 0x100 } in
    let ready = record loaded { lapic = reset_log loaded.lapic } in
    let waited = wait_delivered-end reads fuel 0 k ready (rw zero_k delivered) enough in
    record {
      after = record loaded {
        lapic = final_log loaded.lapic;
        syscall_handler_fn = default_syscall_handler;
        irq_handler_fn = default_irq_handler;
        undef_handler_fn = default_undef_handler;
        machine = record loaded.machine { page_fault_handler_fn = default_page_fault_handler };
      };
      done = rw (roomy, set.done, waited) refl;
      base = refl;
      gates = λ v small.
          rw (set.gates v small) (set_idt-IsGate (entry_of r v) (v == 0x80) (entry_of_bound r v a));
      syscalls = refl;
      faults = refl;
      irqs = refl;
      undefs = refl;
      apic_enabled = refl;
      timer_masked = refl;
      lint0_masked = refl;
      lint1_masked = refl;
      lerror_masked = refl;
      priority = refl;
      countdown = refl;
    }
