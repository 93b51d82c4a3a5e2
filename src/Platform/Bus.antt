-- ===== src/Platform/Bus.antt =====
-- What the platforms of platform/ do to their devices: loads and stores of 32-bit registers, and the
-- streams of util/printf.c that they register.
use simbench.Base.{ℕ, List, ◌∷◌, ◌%◌, ◌^◌, bit_or}
use simbench.Printf.Stream.{Streams}
pub use simbench.Base.Outcome.{
  Outcome, returns, aborts, unfinished, and_then, ◌>>=◌, ◌>>◌, pure, modify,
}

-- An access through a volatile pointer, with its address and the value that it moves.
pub data Access : Type 0 where
  load store : ℕ → ℕ → Access

-- The devices behind the bus: what a load of an address gives after the accesses before it, the last
-- one first.
abbrev pub Devices : Type 0
Devices = List Access → ℕ → ℕ

-- `accesses` has the accesses so far, the last one first. `toggle` is the static variable of the
-- platforms that have one, as 0 or 1.
pub record Bus : Type 0 where
  pub accesses : List Access
  pub streams : Streams
  pub toggle : ℕ

abbrev pub M : Type 0 → Type 0
M A = Bus → Outcome Bus A

abbrev pub arch_abort : {A : Type 0} → M A
arch_abort s = aborts

abbrev pub record_access : Access → Bus → Bus
record_access a s = record s { accesses = a ∷ s.accesses }

abbrev pub load32 : Devices → ℕ → M ℕ
load32 devices a s = let v = devices s.accesses a % 2 ^ 32 in returns v (record_access (load a v) s)

abbrev pub store32 : ℕ → ℕ → M (Unit {0})
store32 a v = modify (record_access (store a v))

-- `a |= bits`.
abbrev pub or32 : Devices → ℕ → ℕ → M (Unit {0})
or32 devices a bits = do v ← load32 devices a; store32 a (bit_or v bits)
