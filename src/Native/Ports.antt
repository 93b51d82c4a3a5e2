-- ===== src/Native/Ports.antt =====
-- The state of platform/x86_64 and arch/x86_64/pit.c: the port I/O with the parts of the program
-- that it calls.
use simbench.Base.{ℕ, List, ◌∷◌, ◌%◌, ◌^◌}
use simbench.Trap.State.{Cpu}
use simbench.Printf.Stream.{Streams}
use simbench.Console.Screen.{Console}
pub use simbench.Base.Outcome.{
  Outcome, returns, aborts, unfinished, and_then, ◌>>=◌, ◌>>◌, pure, modify,
}

-- `inb` and `outb` with the port and the byte.
pub data PortAccess : Type 0 where
  inb outb : ℕ → ℕ → PortAccess

-- `ports` has the last access first.
pub record Pc : Type 0 where
  pub cpu : Cpu
  pub ports : List PortAccess
  pub streams : Streams
  pub console : Console
  pub lapic_frequency : ℕ

abbrev pub M : Type 0 → Type 0
M A = Pc → Outcome Pc A

-- What a port gives after the accesses before, and what the current count of the timer of the local
-- APIC is in a state of the processor's interrupts and the ports.
pub record PcDevices : Type 0 where
  pub port : List PortAccess → ℕ → ℕ
  pub tccr : Cpu → List PortAccess → ℕ

abbrev pub read_port : PcDevices → ℕ → M ℕ
read_port devices a s =
    let v = devices.port s.ports a % 2 ^ 8 in returns v (record s { ports = inb a v ∷ s.ports })

abbrev pub write_port : ℕ → ℕ → M (Unit {0})
write_port a v = modify (λ s. record s { ports = outb a (v % 2 ^ 8) ∷ s.ports })

abbrev on_cpu_outcome : {A : Type 0} → Pc → Outcome Cpu A → Outcome Pc A
on_cpu_outcome s (returns a c) = returns a (record s { cpu = c })
on_cpu_outcome s aborts = aborts
on_cpu_outcome s unfinished = unfinished

-- A call of arch/x86_64/irq.c.
abbrev pub on_cpu : {A : Type 0} → (Cpu → Outcome Cpu A) → M A
on_cpu f s = on_cpu_outcome s (f s.cpu)
