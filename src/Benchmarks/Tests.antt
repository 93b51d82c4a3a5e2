-- ===== src/Benchmarks/Tests.antt =====
-- The TLB-Evict benchmark on versatile, whose physical memory is 0x04000000 to 0x08000000.
use simbench.Base.{ℕ, ◌*◌, ◌^◌, ◌≤◌, ◌<◌, ◌≡◌, refl, arith, []}
use simbench.Section.Machine.{Machine}
use simbench.Section.Map.{data_descriptor}
use simbench.Benchmarks.Port.{Run}
use simbench.Benchmarks.Arm.{arm}
use simbench.Benchmarks.Tlb.{IsExercised, tlb_evict-IsExercised}
use simbench.Platform.Tests.{machine, layout, wanted, layout-IsPlan}

abbrev run : Run Machine
run = record { machine = machine; events = []; virt_start = 0; virt_end = 0 }

wanted_physical :
    (k : ℕ) → 0x40 ≤ k → k * 2 ^ 20 < 0x8000000 → data_descriptor (k * 2 ^ 20) ≡ wanted k
wanted_physical k low high = ground (arith, low, high)

tlb_evict-IsExercised_example :
    IsExercised (arm (λ c. c) 4096 layout) 64 0x4000000 0x8000000 100 1000 run
tlb_evict-IsExercised_example =
    tlb_evict-IsExercised wanted (λ c. c) 4096 layout 64 0x40 0x8000000 run (omega arith)
      layout-IsPlan (omega arith) (omega arith) wanted_physical (omega arith) refl 100 1000
