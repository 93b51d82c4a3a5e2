-- ===== src/Platform/Tests.antt =====
-- The platforms at concrete devices, and the theorems at them.
use simbench.Base.{
  ℕ, List, ◌==◌, ◌*◌, ◌^◌, ◌≤◌, ◌<◌, ◌||◌, if◌then◌else◌, ◌≡◌, refl, arith, false, [], ◌∷◌, none,
  some, replicate,
}
use simbench.Printf.Format.{VarArgs}
use simbench.Printf.Stream.{printf_register_output, printf_register_debug, printf_register_error}
use simbench.Section.Machine.{Machine}
use simbench.Section.Map.{Layout, data_descriptor, device_descriptor, vector_vaddr}
use simbench.Section.Init.{IsRegion, IsPlan}
use simbench.Base.Outcome.{returns}
use simbench.Platform.Arm
use simbench.Platform.Arm.{versatile, platform_init}
use simbench.Platform.Arndale
use simbench.Platform.Versatile
use simbench.Platform.Reach.{IsReachable, calls-IsReachable}
use simbench.Platform.Uart.{uart_file, exynos_putc}
use simbench.Platform.Put.{ready}
use simbench.Platform.Print.{IsHeard, fprintf-IsHeard}
use simbench.Platform.Bus.{Access, Bus, Devices, load, store}
use simbench.Platform.Boards.{arndale}
use simbench.Platform.Enable.{Identity}
use simbench.Platform.Swi.{IsAnswered, swis-IsAnswered}

-- The identification registers of ArndaleBoard, and 0x20 elsewhere.
abbrev exynos : Devices
exynos h a =
    if a == 0x10481fe0
    then 0x90
    else (if a == 0x10481fe4
        then 0xb4
        else (if a == 0x10481fe8
            then 0x2b
            else (if a == 0x10481fec then 0 else (if a == 0x104820fc then 0x202043b else 0x20))))

abbrev exynos_identity : Identity arndale exynos
exynos_identity = record {
  id0 = 0x90;
  id1 = 0xb4;
  id2 = 0x2b;
  id3 = 0;
  cpuid0 = 0x202043b;
  reads0 = λ h. refl;
  reads1 = λ h. refl;
  reads2 = λ h. refl;
  reads3 = λ h. refl;
  reads_cpu = λ h. refl;
}

abbrev bus : Bus
bus = record {
  accesses = [];
  streams = record { output_file = none; debug_file = none; error_file = none };
  toggle = 0;
}

-- What `%x` gives for a Cortex-A15.
abbrev digits : List ℕ
digits = 52 ∷ 49 ∷ 50 ∷ 102 ∷ 99 ∷ 48 ∷ 102 ∷ 52 ∷ []

swis-IsAnswered_example : IsAnswered arndale exynos_identity 1 digits 2 bus
swis-IsAnswered_example =
    swis-IsAnswered arndale exynos 1 digits exynos_identity 2 bus
      (λ h. (0, ready refl, omega arith))

-- An ARMv5 core with high vectors, and the layout of versatile/sys.ld.
abbrev pub machine : Machine
machine = record {
  section_table = λ index. 0;
  mem_inited = false;
  mem_tlb_unified = false;
  mem_cache_unified = false;
  mem_cache_implemented = false;
  main_id = 0x41069265;
  tlb_type = 0;
  cache_type = 0x1d152152;
  control = 0x2000;
  ttbr = false;
  dacr = 0;
  trace = [];
}

abbrev pub layout : Layout
layout = record {
  vectors_start = 0x18000;
  vectors_end = 0x18400;
  text_start = 0x10000;
  text_end = 0x1ffff;
  data_start = 0x8000000;
  data_end = 0x807ffff;
  vectors_relocate = 0x5f0000;
  devices = Versatile.device_info;
}

abbrev pub wanted : ℕ → ℕ
wanted k =
    if k == 0xfff
    then data_descriptor 0x500000
    else (if k == 0x100 || k == 0x101
        then device_descriptor (k * 2 ^ 20)
        else data_descriptor (k * 2 ^ 20))

in_memory : (lo hi : ℕ) → lo < 2 ^ 32 → hi < 0x8100000 → IsRegion wanted data_descriptor lo hi
in_memory lo hi start below = record {
  start_bound = start;
  end_bound = omega arith;
  wanted = λ k on. ground (arith, on.1, below);
}

on_bus :
    (lo hi : ℕ)
    → 0x10000000 ≤ lo
    → lo < 2 ^ 32
    → hi < 0x10200000
    → IsRegion wanted device_descriptor lo hi
on_bus lo hi high start below = record {
  start_bound = start;
  end_bound = omega arith;
  wanted = λ k on. ground (arith, on.0, on.1, below, high);
}

pub layout-IsPlan : IsPlan wanted layout (vector_vaddr machine)
layout-IsPlan = record {
  vectors = in_memory 0x18000 0x18400 (omega arith) (omega arith);
  text = in_memory 0x10000 0x1ffff (omega arith) (omega arith);
  program_data = in_memory 0x8000000 0x807ffff (omega arith) (omega arith);
  device = (
    on_bus 0x101f1000 0x101f1fff (omega arith) (omega arith) (omega arith),
    (on_bus 0x10000000 0x10000fff (omega arith) (omega arith) (omega arith), tt),
  );
  offsets = refl;
  vector_page = refl;
  relocated = in_memory 0x500000 0x600000 (omega arith) (omega arith);
}

calls-IsReachable_example : IsReachable versatile exynos 4096 layout machine
calls-IsReachable_example =
    calls-IsReachable versatile exynos wanted 4096 layout machine (omega arith) refl layout-IsPlan

abbrev no_args : VarArgs (Unit {0})
no_args = record {
  va_int = λ a. (0, a);
  va_long_long = λ a. (0, a);
  va_long = λ a. (0, a);
  va_text = λ a. ([], a);
}

-- The accesses for a text on a UART that has room.
abbrev sent : List ℕ → List Access → List Access
sent [] h = h
sent (c ∷ text) h = sent text (store 0x12c20020 c ∷ (load 0x12c20018 0x20 ∷ h))

-- ArndaleBoard after `platform_init`.
abbrev wired : Bus
wired = record bus {
  accesses =
      store 0x10482000 0x23
      ∷ (load 0x10482000 0x20
          ∷ (store 0x10481000 0x23
              ∷ (load 0x10481000 0x20
                  ∷ (store 0x10482004 0xf0
                      ∷ (store 0x10481080 0x0
                          ∷ (store 0x10481400 0xa0a0a0a0
                              ∷ (store 0x10481100 0xffff
                                  ∷ (store 0x10440050 0x101
                                      ∷ (load 0x104820fc 0x202043b
                                          ∷ (load 0x10481fec 0x0
                                              ∷ (load 0x10481fe8 0x2b
                                                  ∷ (load 0x10481fe4 0xb4
                                                      ∷ (load 0x10481fe0 0x90
                                                          ∷ (store 0x11400268 0xffff
                                                            ∷ (store 0x11400260 0x11111111
                                                            ∷ (store 0x101d000 0x0
                                                            ∷ sent (Arndale.running_on digits)
                                                            []))))))))))))))));
  streams = record {
    output_file = some uart_file;
    debug_file = some uart_file;
    error_file = some uart_file;
  };
}

arndale_init : platform_init Arm.arndale exynos 1 digits bus ≡ returns tt wired
unfolding Arndale.platform_init Arndale.send_message Arndale.uart_putc exynos_putc
    Arndale.platform_configure_swi Arndale.enable_swi printf_register_output printf_register_debug
    printf_register_error
arndale_init = refl

-- "ok\n" over a buffer of sevens.
fprintf-IsHeard_example :
    IsHeard Arm.arndale exynos 1 wired false no_args
      (replicate 0x1000 7)
      (111 ∷ (107 ∷ (10 ∷ [])))
      tt
fprintf-IsHeard_example =
    fprintf-IsHeard Arm.arndale exynos 1 digits bus wired false no_args (replicate 0x1000 7)
      (111 ∷ (107 ∷ (10 ∷ []))) tt arndale_init (λ h. (0, ready refl, omega arith)) refl
      (ground arith) (omega arith)
