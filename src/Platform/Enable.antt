-- ===== src/Platform/Enable.antt =====
-- What `platform_trigger_swi` of the boards with an ARM interrupt controller needs, and the stores that
-- open the controller.
use simbench.Base.{ℕ, ◌%◌, ◌^◌, ◌==◌, ◌&&◌, Bool, true, ◌≡◌, inl, inr, refl, List}
use simbench.Platform.Bus.{Access, Bus, Devices, Outcome, returns}
use simbench.Platform.Gic.{gicd_pidr0, gicd_pidr1, gicd_pidr2, gicd_pidr3, gicc_iidr}
use simbench.Platform.Boards.{
  GicBoard, arndale, realview, vexpress_a9, vexpress_a15, virt, gicd_base, gicc_base,
}
use simbench.Platform.Signal.{IsOpen, IsSignalled, stores-IsOpen}
use simbench.Platform.Realview
use simbench.Platform.VexpressA9
use simbench.Platform.VexpressA15

-- The identification registers of the devices.
pub record Identity (b : GicBoard) (devices : Devices) : Type 0 where
  pub id0 : ℕ
  pub id1 : ℕ
  pub id2 : ℕ
  pub id3 : ℕ
  pub cpuid0 : ℕ
  pub reads0 : (h : List Access) → devices h (gicd_pidr0 (gicd_base b)) % 2 ^ 32 ≡ id0
  pub reads1 : (h : List Access) → devices h (gicd_pidr1 (gicd_base b)) % 2 ^ 32 ≡ id1
  pub reads2 : (h : List Access) → devices h (gicd_pidr2 (gicd_base b)) % 2 ^ 32 ≡ id2
  pub reads3 : (h : List Access) → devices h (gicd_pidr3 (gicd_base b)) % 2 ^ 32 ≡ id3
  pub reads_cpu : (h : List Access) → devices h (gicc_iidr (gicc_base b)) % 2 ^ 32 ≡ cpuid0

-- What the board's code asks of them.
abbrev pub expected : (b : GicBoard) {devices : Devices} → Identity b devices → Bool
expected arndale i =
    (i.id0 == 0x90 && (i.id1 == 0xb4 && (i.id2 == 0x2b && i.id3 == 0x0))) && i.cpuid0 == 0x202043b
expected realview i = i.id0 == 0x90 && (i.id1 == 0x13 && (i.id2 == 0x4 && i.id3 == 0x0))
expected vexpress_a9 i = i.id0 == 0x90 && (i.id1 == 0x13 && (i.id2 == 0x4 && i.id3 == 0x0))
expected vexpress_a15 i = true
expected virt i = true

-- A run that ends with the interrupt raised.
pub record IsSent (b : GicBoard) (o : Outcome Bus (Unit {0})) : Type 0 where
  pub after : Bus
  pub done : o ≡ returns tt after
  pub signalled : IsSignalled (gicd_base b) (gicc_base b) after.accesses

-- What a trigger needs besides the identity.
abbrev pub IsPrepared : GicBoard → Bus → Type 0
IsPrepared arndale s = IsOpen (gicd_base arndale) (gicc_base arndale) s.accesses
IsPrepared realview s = Unit {0}
IsPrepared vexpress_a9 s = Unit {0}
IsPrepared vexpress_a15 s = Unit {0}
IsPrepared virt s = Unit {0}

pub enabled_realview :
    (devices : Devices) (s : Bus) → IsSent realview (Realview.enable_and_signal devices s)
unfolding Realview.enable_and_signal
enabled_realview devices s = record {
  after = _;
  done = refl;
  signalled = record {
    word = 0x10020;
    before = _;
    last = refl;
    raises = (refl, inl (refl, refl));
    opened =
        stores-IsOpen Realview.gicd_base Realview.gicc_base _ _ _ 0xffffffff refl refl refl refl
          refl refl;
  };
}

pub enabled_vexpress_a9 :
    (devices : Devices) (s : Bus) → IsSent vexpress_a9 (VexpressA9.enable_and_signal devices s)
unfolding VexpressA9.enable_and_signal
enabled_vexpress_a9 devices s = record {
  after = _;
  done = refl;
  signalled = record {
    word = 0x10000;
    before = _;
    last = refl;
    raises = (refl, inl (refl, refl));
    opened =
        stores-IsOpen VexpressA9.gicd_base VexpressA9.gicc_base _ _ _ 0xffff refl refl refl refl
          refl refl;
  };
}

pub enabled_vexpress_a15 :
    (devices : Devices) (s : Bus) → IsSent vexpress_a15 (VexpressA15.enable_and_signal devices s)
unfolding VexpressA15.enable_and_signal
enabled_vexpress_a15 devices s = record {
  after = _;
  done = refl;
  signalled = record {
    word = 0x2000000;
    before = _;
    last = refl;
    raises = (refl, inr refl);
    opened =
        stores-IsOpen VexpressA15.gicd_base VexpressA15.gicc_base _ _ _ 0xffff refl refl refl refl
          refl refl;
  };
}
