-- ===== src/Platform/Gic.antt =====
-- The registers of the ARM interrupt controller by the macros of the platforms, from the bases
-- GICD_BASE of the distributor and GICC_BASE of the CPU interface.
use simbench.Base.{ℕ, ◌+◌, ◌*◌, ◌^◌, bit_or}

abbrev pub gicd_ctlr : ℕ → ℕ
gicd_ctlr base = base

abbrev pub gicd_igroupr0 : ℕ → ℕ
gicd_igroupr0 base = base + 0x80

abbrev pub gicd_isenabler0 : ℕ → ℕ
gicd_isenabler0 base = base + 0x100

abbrev pub gicd_isenabler1 : ℕ → ℕ
gicd_isenabler1 base = base + 0x104

abbrev pub gicd_ipriorityr0 : ℕ → ℕ
gicd_ipriorityr0 base = base + 0x400

abbrev pub gicd_ipriorityr1 : ℕ → ℕ
gicd_ipriorityr1 base = base + 0x404

abbrev pub gicd_sgir : ℕ → ℕ
gicd_sgir base = base + 0xf00

abbrev pub gicd_cpendsgir0 : ℕ → ℕ
gicd_cpendsgir0 base = base + 0xf10

abbrev pub gicd_pidr0 : ℕ → ℕ
gicd_pidr0 base = base + 0xfe0

abbrev pub gicd_pidr1 : ℕ → ℕ
gicd_pidr1 base = base + 0xfe4

abbrev pub gicd_pidr2 : ℕ → ℕ
gicd_pidr2 base = base + 0xfe8

abbrev pub gicd_pidr3 : ℕ → ℕ
gicd_pidr3 base = base + 0xfec

abbrev pub gicc_ctlr : ℕ → ℕ
gicc_ctlr base = base

abbrev pub gicc_pmr : ℕ → ℕ
gicc_pmr base = base + 0x4

abbrev pub gicc_iar : ℕ → ℕ
gicc_iar base = base + 0xc

abbrev pub gicc_eoir : ℕ → ℕ
gicc_eoir base = base + 0x10

abbrev pub gicc_iidr : ℕ → ℕ
gicc_iidr base = base + 0xfc

-- `sgiintid | (nsatt << 15) | (cputargetlist << 16) | (targetlistfilter << 24)`.
abbrev pub sgi_word : ℕ → ℕ → ℕ → ℕ → ℕ
sgi_word targetlistfilter cputargetlist nsatt sgiintid =
    bit_or (bit_or (bit_or sgiintid (nsatt * 2 ^ 15)) (cputargetlist * 2 ^ 16))
      (targetlistfilter * 2 ^ 24)
