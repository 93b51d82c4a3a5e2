-- ===== src/Platform/Reach.antt =====
-- The devices of the boards of platform/arm through the section table of arch/arm/mem.c.
use simbench.Base.{
  ℕ, ◌+◌, ◌*◌, ◌/◌, ◌%◌, ◌^◌, ◌≤◌, ◌<◌, ltb, leb, Bool-cases, ◌&&◌, true, ◌≡◌, inl, inr, refl, sym,
  ◌∙◌, ap, arith, List, [], ◌∷◌, some,
}
use simbench.Section.Machine.{Machine, returns}
use simbench.Section.Map.{PhysMemInfo, Layout, device_descriptor, vector_vaddr, mem_init}
use simbench.Section.Descriptor.{translate, read_section, device_descriptor-eq}
use simbench.Section.Init.{AreDevices, OnDevice, IsPlan, mem_init-IsReady}
use simbench.Platform.Bus.{Devices}
use simbench.Platform.Arm.{ArmBoard, device_info, Call, calls}
use simbench.Platform.Within.{IsWithin}
use simbench.Platform.Calls.{is_listed, calls-IsWithin}

-- The address is translated to itself, and is not cached.
abbrev pub IsDevice : (ℕ → ℕ) → ℕ → Type 0
IsDevice table a = translate table a ≡ some (a, 0)

device_section :
    (k a : ℕ)
    → a < 2 ^ 32
    → k ≡ a / 2 ^ 20
    → read_section (device_descriptor (k * 2 ^ 20)) a ≡ some (a, 0)
device_section k a small e =
    let word : device_descriptor (k * 2 ^ 20) ≡ k * 2 ^ 20 + 0xc02 =
      omega (arith, device_descriptor-eq (k * 2 ^ 20)) in
    let valid : (k * 2 ^ 20 + 0xc02) % 4 ≡ 2 = omega arith in
    let same : (k * 2 ^ 20 + 0xc02) / 2 ^ 20 * 2 ^ 20 + a % 2 ^ 20 ≡ a = omega arith in
    let uncached : (k * 2 ^ 20 + 0xc02) / 8 % 2 ≡ 0 = omega arith in
    rw (word, valid, same, uncached) refl

wanted_device :
    (want : ℕ → ℕ) (devs : List PhysMemInfo) (a : ℕ)
    → AreDevices want devs
    → is_listed devs a ≡ true
    → (a < 2 ^ 32)
      × (device_descriptor (a / 2 ^ 20 * 2 ^ 20) ≡ want (a / 2 ^ 20))
      × OnDevice devs (a / 2 ^ 20)
wanted_device want [] a all listed = cc
wanted_device want (dev ∷ devs) a (r, all) listed =
    elim (Bool-cases (
      ltb a (2 ^ 32)
      && (leb (dev.phys_mem_start / 2 ^ 20) (a / 2 ^ 20)
          && leb (a / 2 ^ 20 * 2 ^ 20) dev.phys_mem_end))) [
            | inl here ↦
                let small : a < 2 ^ 32 = ground arith in
                let after_start : dev.phys_mem_start / 2 ^ 20 ≤ a / 2 ^ 20 = ground arith in
                let before_end : a / 2 ^ 20 * 2 ^ 20 ≤ dev.phys_mem_end = ground (arith, here) in
                (
                  small,
                  r.wanted (a / 2 ^ 20) (after_start, before_end),
                  inl (after_start, before_end),
                )
            | inr elsewhere ↦
                let (small, e, on) = wanted_device want devs a all (rw elsewhere at listed) in
                (small, e, inr on)
          ]

-- After `mem_init`, what the board's calls access is its devices.
pub record IsReachable (b : ArmBoard) (devices : Devices) (fuel : ℕ) (lay : Layout) (s : Machine)
    : Type 0 where
  pub after : Machine
  pub done : mem_init fuel lay s ≡ returns tt after
  pub within :
      (polls : ℕ) (cs : List Call)
      → IsWithin (IsDevice after.section_table) (calls b devices polls cs)

-- Where a layout with the device list of a board of platform/arm has a plan, and with fuel 4096,
-- `mem_init` returns, and with the section table that it leaves every register that any sequence of
-- `platform_trigger_swi`, `platform_clear_swi` and `uart_putc` of the board accesses is translated
-- to itself and not cached, whatever the devices answer.
pub calls-IsReachable :
    (b : ArmBoard) (devices : Devices) (want : ℕ → ℕ) (fuel : ℕ) (lay : Layout) (s : Machine)
    → 4096 ≤ fuel
    → lay.devices ≡ device_info b
    → IsPlan want lay (vector_vaddr s)
    → IsReachable b devices fuel lay s
calls-IsReachable b devices want fuel lay s enough same plan =
    let ready = mem_init-IsReady want fuel lay s enough plan in
    let listed = λ (a : ℕ) (is : is_listed (device_info b) a ≡ true).
      wanted_device want lay.devices a plan.device (rw same is) in
    record {
      after = ready.after;
      done = ready.done;
      within = λ polls cs. calls-IsWithin devices b polls cs (λ a is.
          let (small, e, on) = listed a is in
          ap (λ w. read_section w a) (ready.filled (a / 2 ^ 20) (inr (inr (inr (inl on)))) ∙ sym e)
          ∙ device_section (a / 2 ^ 20) a small refl);
    }
