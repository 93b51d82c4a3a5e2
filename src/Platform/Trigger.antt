-- ===== src/Platform/Trigger.antt =====
-- `platform_trigger_swi` of the boards with an ARM interrupt controller, and the check of its identity.
use simbench.Base.{
  ◌%◌, ◌^◌, if◌then◌else◌, not, ◌&&◌, ◌||◌, Bool, true, false, Bool-cases, ◌≡◌, inl, inr, refl, sym,
  ap, ◌∙◌,
}
use mathlib.Core.Path.{subst}
use simbench.Platform.Bus.{load, Bus, Devices, Outcome, aborts, record_access}
use simbench.Platform.Gic.{gicd_pidr0, gicd_pidr1, gicd_pidr2, gicd_pidr3}
use simbench.Platform.Boards.{
  GicBoard, arndale, realview, vexpress_a9, vexpress_a15, virt, gicd_base, platform_trigger_swi,
}
use simbench.Platform.Signal.{stores-IsOpen}
use simbench.Platform.Arndale
use simbench.Platform.Realview
use simbench.Platform.VexpressA9
use simbench.Platform.VexpressA15
use simbench.Platform.Virt
use simbench.Platform.Enable.{
  Identity, expected, IsSent, IsPrepared, enabled_realview, enabled_vexpress_a9,
  enabled_vexpress_a15,
}

-- The refusal of an identity by its four parts.
pub any_not : (a b c d : Bool) → not a || not b || not c || not d ≡ not (a && (b && (c && d)))
any_not true true true d = refl
any_not true true false d = refl
any_not true false c d = refl
any_not false b c d = refl

-- The bus after the four reads of the identity.
abbrev identified : GicBoard → Devices → Bus → Bus
identified b devices s =
    let s0 =
      record_access
        (load (gicd_pidr0 (gicd_base b)) (devices s.accesses (gicd_pidr0 (gicd_base b)) % 2 ^ 32))
        s in
    let s1 =
      record_access
        (load (gicd_pidr1 (gicd_base b)) (devices s0.accesses (gicd_pidr1 (gicd_base b)) % 2 ^ 32))
        s0 in
    let s2 =
      record_access
        (load (gicd_pidr2 (gicd_base b)) (devices s1.accesses (gicd_pidr2 (gicd_base b)) % 2 ^ 32))
        s1 in
    record_access
      (load (gicd_pidr3 (gicd_base b)) (devices s2.accesses (gicd_pidr3 (gicd_base b)) % 2 ^ 32)) s2

-- Both boards that check the identity go on as it says.
trigger_realview :
    (devices : Devices) (i : Identity realview devices) (s : Bus)
    → platform_trigger_swi realview devices s ≡ (
        if not (expected realview i)
        then aborts
        else Realview.enable_and_signal devices (identified realview devices s))
unfolding Realview.platform_trigger_swi
trigger_realview devices i s =
    rw (i.reads0, i.reads1, i.reads2, i.reads3, any_not)
      (elim (Bool-cases (expected realview i)) [ inl e ↦ rw e refl | inr e ↦ rw e refl ])

trigger_vexpress_a9 :
    (devices : Devices) (i : Identity vexpress_a9 devices) (s : Bus)
    → platform_trigger_swi vexpress_a9 devices s ≡ (
        if not (expected vexpress_a9 i)
        then aborts
        else VexpressA9.enable_and_signal devices (identified vexpress_a9 devices s))
unfolding VexpressA9.platform_trigger_swi
trigger_vexpress_a9 devices i s =
    rw (i.reads0, i.reads1, i.reads2, i.reads3, any_not)
      (elim (Bool-cases (expected vexpress_a9 i)) [ inl e ↦ rw e refl | inr e ↦ rw e refl ])

trigger_arndale :
    (devices : Devices) (s : Bus)
    → IsPrepared arndale s
    → IsSent arndale (platform_trigger_swi arndale devices s)
unfolding Arndale.platform_trigger_swi
trigger_arndale devices s o = record {
  after = _;
  done = refl;
  signalled = record {
    word = 0x10000;
    before = s.accesses;
    last = refl;
    raises = (refl, inl (refl, refl));
    opened = o;
  };
}

trigger_virt : (devices : Devices) (s : Bus) → IsSent virt (platform_trigger_swi virt devices s)
unfolding Virt.platform_trigger_swi
trigger_virt devices s = record {
  after = _;
  done = refl;
  signalled = record {
    word = 0x2000000;
    before = _;
    last = refl;
    raises = (refl, inr refl);
    opened = stores-IsOpen Virt.gicd_base Virt.gicc_base _ _ _ 0xffff refl refl refl refl refl refl;
  };
}

trigger_vexpress_a15 :
    (devices : Devices) (s : Bus)
    → IsSent vexpress_a15 (platform_trigger_swi vexpress_a15 devices s)
unfolding VexpressA15.platform_trigger_swi
trigger_vexpress_a15 devices s = enabled_vexpress_a15 devices (identified vexpress_a15 devices s)

IsSent-else :
    {b : GicBoard} {o o' : Outcome Bus (Unit {0})} (c : Bool)
    → c ≡ true
    → o ≡ (if not c then aborts else o')
    → IsSent b o'
    → IsSent b o
IsSent-else {b} {o} {o'} c right e sent =
    subst (λ p. IsSent b p) (sym (e ∙ ap (λ (d : Bool). if not d then aborts else o') right)) sent

-- With the identity that the board expects, and on ArndaleBoard an open controller, a trigger
-- returns with the interrupt raised.
pub triggers :
    (b : GicBoard) (devices : Devices) (i : Identity b devices) (s : Bus)
    → expected b i ≡ true
    → IsPrepared b s
    → IsSent b (platform_trigger_swi b devices s)
triggers arndale devices i s right o = trigger_arndale devices s o
triggers realview devices i s right o =
    IsSent-else (expected realview i) right (trigger_realview devices i s)
      (enabled_realview devices (identified realview devices s))
triggers vexpress_a9 devices i s right o =
    IsSent-else (expected vexpress_a9 i) right (trigger_vexpress_a9 devices i s)
      (enabled_vexpress_a9 devices (identified vexpress_a9 devices s))
triggers vexpress_a15 devices i s right o = trigger_vexpress_a15 devices s
triggers virt devices i s right o = trigger_virt devices s

-- The boards whose trigger checks the identity.
abbrev pub checks : GicBoard → Bool
checks arndale = false
checks realview = true
checks vexpress_a9 = true
checks vexpress_a15 = false
checks virt = false

-- Another identity stops the boards that check it in the trigger.
pub trigger-refused :
    (b : GicBoard) (devices : Devices) (i : Identity b devices) (s : Bus)
    → checks b ≡ true
    → expected b i ≡ false
    → platform_trigger_swi b devices s ≡ aborts
trigger-refused arndale devices i s here wrong = cc
trigger-refused realview devices i s here wrong = rw (trigger_realview devices i s, wrong) refl
trigger-refused vexpress_a9 devices i s here wrong =
    rw (trigger_vexpress_a9 devices i s, wrong) refl
trigger-refused vexpress_a15 devices i s here wrong = cc
trigger-refused virt devices i s here wrong = cc
