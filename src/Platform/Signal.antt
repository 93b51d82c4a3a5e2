-- ===== src/Platform/Signal.antt =====
-- What an ARM interrupt controller makes of the stores to its registers.
use simbench.Base.{
  ℕ, ◌/◌, ◌%◌, ◌^◌, ◌<◌, ◌==◌, if◌then◌else◌, ◌≡◌, ◌≢◌, ◌⊎◌, refl, ◌∙◌, arith, List, [], ◌∷◌,
  Option, none, some, bit_or, bit_at, bit_at-bit_or, ne→==,
}
use simbench.Base.Words.{bit_at-bound}
use simbench.Platform.Bus.{Access, load, store}
use simbench.Platform.Gic.{
  gicd_ctlr, gicd_isenabler0, gicd_ipriorityr0, gicd_sgir, gicc_ctlr, gicc_pmr,
}

-- The value that a register was given last.
abbrev pub last_store : ℕ → List Access → Option ℕ
last_store a [] = none
last_store a (load b v ∷ rest) = last_store a rest
last_store a (store b v ∷ rest) = if b == a then some v else last_store a rest

-- The distributor and the CPU interface forward interrupts, interrupt 0 is enabled, and its
-- priority is above the mask.
pub record IsOpen (gicd gicc : ℕ) (accesses : List Access) : Type 0 where
  pub forwarding : ℕ
  pub signalling : ℕ
  pub enables : ℕ
  pub priorities : ℕ
  pub mask : ℕ
  pub forwards : last_store (gicd_ctlr gicd) accesses ≡ some forwarding
  pub forward_on : bit_at 0 forwarding ≡ 1
  pub signals : last_store (gicc_ctlr gicc) accesses ≡ some signalling
  pub signal_on : bit_at 0 signalling ≡ 1
  pub enabled : last_store (gicd_isenabler0 gicd) accesses ≡ some enables
  pub enable_on : bit_at 0 enables ≡ 1
  pub prioritised : last_store (gicd_ipriorityr0 gicd) accesses ≡ some priorities
  pub masked : last_store (gicc_pmr gicc) accesses ≡ some mask
  pub urgent : priorities % 2 ^ 8 < mask

-- A store to the software interrupt register that raises interrupt 0 on processor 0, which runs:
-- by the list of targets, or as the one that asks.
abbrev pub Raises : ℕ → Type 0
Raises word =
    (word % 2 ^ 4 ≡ 0)
    × (((word / 2 ^ 24 % 4 ≡ 0) × (bit_at 16 word ≡ 1)) ⊎ (word / 2 ^ 24 % 4 ≡ 2))

-- The last access raises the interrupt, with the controller open before it.
pub record IsSignalled (gicd gicc : ℕ) (accesses : List Access) : Type 0 where
  pub word : ℕ
  pub before : List Access
  pub last : accesses ≡ store (gicd_sgir gicd) word ∷ before
  pub raises : Raises word
  pub opened : IsOpen gicd gicc before

bit_or-3 : (v : ℕ) → bit_at 0 (bit_or v 3) ≡ 1
bit_or-3 v = omega (arith, bit_at-bit_or 0 v 3, bit_at-bound 0 v)

-- None of the registers that decide is written.
abbrev pub Spares : ℕ → ℕ → ℕ → Type 0
Spares gicd gicc a =
    (a ≢ gicd_ctlr gicd)
    × (a ≢ gicc_ctlr gicc)
    × (a ≢ gicd_isenabler0 gicd)
    × (a ≢ gicd_ipriorityr0 gicd)
    × (a ≢ gicc_pmr gicc)

-- The stores of the boards: both controls by `|=`, and the priority and the mask that all of them use.
pub stores-IsOpen :
    (gicd gicc : ℕ) (accesses : List Access) (v w enables : ℕ)
    → bit_at 0 enables ≡ 1
    → last_store (gicd_ctlr gicd) accesses ≡ some (bit_or v 3)
    → last_store (gicc_ctlr gicc) accesses ≡ some (bit_or w 3)
    → last_store (gicd_isenabler0 gicd) accesses ≡ some enables
    → last_store (gicd_ipriorityr0 gicd) accesses ≡ some 0xa0a0a0a0
    → last_store (gicc_pmr gicc) accesses ≡ some 0xf0
    → IsOpen gicd gicc accesses
stores-IsOpen gicd gicc accesses v w enables on forwards signals enabled prioritised masked =
    record {
      forwarding = bit_or v 3;
      signalling = bit_or w 3;
      enables = enables;
      priorities = 0xa0a0a0a0;
      mask = 0xf0;
      forwards = forwards;
      forward_on = bit_or-3 v;
      signals = signals;
      signal_on = bit_or-3 w;
      enabled = enabled;
      enable_on = on;
      prioritised = prioritised;
      masked = masked;
      urgent = omega arith;
    }

pub IsOpen-load :
    {gicd gicc : ℕ} {accesses : List Access} (a v : ℕ)
    → IsOpen gicd gicc accesses
    → IsOpen gicd gicc (load a v ∷ accesses)
IsOpen-load a v o = record {
  forwarding = o.forwarding;
  signalling = o.signalling;
  enables = o.enables;
  priorities = o.priorities;
  mask = o.mask;
  forwards = o.forwards;
  forward_on = o.forward_on;
  signals = o.signals;
  signal_on = o.signal_on;
  enabled = o.enabled;
  enable_on = o.enable_on;
  prioritised = o.prioritised;
  masked = o.masked;
  urgent = o.urgent;
}

last_store-spares :
    (a b v : ℕ) (accesses : List Access)
    → b ≢ a
    → last_store a (store b v ∷ accesses) ≡ last_store a accesses
last_store-spares a b v accesses apart = rw (ne→== b a apart) refl

pub IsOpen-store :
    {gicd gicc : ℕ} {accesses : List Access} (a v : ℕ)
    → Spares gicd gicc a
    → IsOpen gicd gicc accesses
    → IsOpen gicd gicc (store a v ∷ accesses)
IsOpen-store {gicd} {gicc} {accesses} a v s o = record {
  forwarding = o.forwarding;
  signalling = o.signalling;
  enables = o.enables;
  priorities = o.priorities;
  mask = o.mask;
  forwards = last_store-spares (gicd_ctlr gicd) a v accesses s.0 ∙ o.forwards;
  forward_on = o.forward_on;
  signals = last_store-spares (gicc_ctlr gicc) a v accesses s.1 ∙ o.signals;
  signal_on = o.signal_on;
  enabled = last_store-spares (gicd_isenabler0 gicd) a v accesses s.2 ∙ o.enabled;
  enable_on = o.enable_on;
  prioritised = last_store-spares (gicd_ipriorityr0 gicd) a v accesses s.3 ∙ o.prioritised;
  masked = last_store-spares (gicc_pmr gicc) a v accesses s.4 ∙ o.masked;
  urgent = o.urgent;
}
