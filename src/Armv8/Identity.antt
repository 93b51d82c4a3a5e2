-- ===== src/Armv8/Identity.antt =====
-- `mem_init` and `mem_reset` of arch/armv8/mem.c from the program's call to its return.
use simbench.Base.{
  ℕ, List, [], ◌∷◌, some, inl, inr, arith, ◌/◌, ◌^◌, ◌+◌, ◌*◌, ◌≤◌, ◌<◌, ◌≡◌, refl, sym, ap, ◌∙◌,
  bit_at,
}
use mathlib.Core.Path.{subst}
use simbench.Base.Outcome.{Outcome, returns, and_then}
use simbench.Armv8.State.{Core, M, Layout}
use simbench.Armv8.Memory.{syscall_mem_init, tcr_value}
use simbench.Armv8.Syscall.{serve}
use simbench.Armv8.Exception.{return_or_abort}
use simbench.Armv8.Arch.{Site, mem_init}
use simbench.Armv8.Serve.{IsReady, IsHandled, entered, armv8_syscall-serve}
use simbench.Armv8.Frame.{AreKept, Exceptions, exceptions, Keeps-syscall_mem_init}
use simbench.Armv8.Tree.{Roles}
use simbench.Armv8.Range.{IsRooted}
use simbench.Armv8.Init.{IsLaidOut, IsIdentity, total_pages, text_of, data_of}
use simbench.Armv8.Regions.{Region, Contains, AnyContains, AreApart}
use simbench.Armv8.Leaf.{IsPage, descriptors-ArePages}
use simbench.Armv8.Walk.{walk}
use simbench.Armv8.Table.{page_descriptor, device_descriptor}
use simbench.Armv8.Root.{IsFresh, IsFresh-processor, IsRooted-processor}
use simbench.Armv8.Boot.{IsBooted, syscall_mem_init-fresh}

-- The processor finds a page descriptor for `va` that leads to the page of `va` itself.
pub record IsTranslated (memory : ℕ → ℕ) (root va privs attributes : ℕ) : Type 0 where
  pub descriptor : ℕ
  pub found : walk memory root va ≡ some descriptor
  pub page : IsPage (va / 4096 * 4096) privs attributes descriptor

-- The identity map of a layout: code, data and devices.
pub record IsIdentityMap (root : ℕ) (memory : ℕ → ℕ) (layout : Layout) : Type 0 where
  pub text : (va : ℕ) → Contains (text_of layout) va → IsTranslated memory root va 3 0
  pub program : (va : ℕ) → Contains (data_of layout) va → IsTranslated memory root va 1 0
  pub device : (va : ℕ) → AnyContains layout.devices va → IsTranslated memory root va 1 1

any_bound :
    (devices : List Region) (va : ℕ) → AreApart devices → AnyContains devices va → va < 2 ^ 48
any_bound [] va apart found = absurd found
any_bound ((start, last) ∷ devices) va (plain, _, rest) (inl here) = omega arith
any_bound ((start, last) ∷ devices) va (plain, _, rest) (inr there) =
    any_bound devices va rest there

IsIdentity-IsIdentityMap :
    {root : ℕ} {memory : ℕ → ℕ} {layout : Layout}
    → IsLaidOut layout
    → IsIdentity root memory layout
    → IsIdentityMap root memory layout
IsIdentity-IsIdentityMap {layout} l x = record {
  text = λ va inside. record {
    descriptor = page_descriptor (va / 4096 * 4096) 3;
    found = x.text va inside;
    page = (descriptors-ArePages (va / 4096 * 4096) 3 (omega (arith, l.text_plain)) (inr refl)).0;
  };
  program = λ va inside. record {
    descriptor = page_descriptor (va / 4096 * 4096) 1;
    found = x.code_data va inside;
    page = (descriptors-ArePages (va / 4096 * 4096) 1 (omega (arith, l.data_plain)) (inl refl)).0;
  };
  device = λ va inside. record {
    descriptor = device_descriptor (va / 4096 * 4096);
    found = x.device va inside;
    page =
        (descriptors-ArePages (va / 4096 * 4096) 1
          (omega (arith, any_bound layout.devices va l.devices_apart inside)) (inl refl)).1;
  };
}

-- After the call the program goes on behind it in its mode; the processor's table register leads to
-- the identity map of the layout, with 48-bit addresses and executable writable pages.
pub record IsIdMapped (m : M (Unit {0})) (site : Site) (s : Core) : Type 0 where
  pub after : Core
  pub role' : Roles
  pub done : m s ≡ returns tt after
  pub rooted : IsRooted after.ttbr0 role' after
  pub identity : IsIdentityMap after.ttbr0 after.memory s.layout
  pub control : after.tcr ≡ tcr_value
  pub executable : bit_at 19 after.sctlr ≡ 0
  pub pc : after.pc ≡ site.next
  pub mode : after.pstate ≡ s.pstate
  pub ready : IsReady after
  pub layout_same : after.layout ≡ s.layout

kept_of :
    (s t : Core) (o : Outcome Core ℕ) → o ≡ returns 0 t → AreKept s o → exceptions t ≡ exceptions s
kept_of s t o e kept = rw e at kept

abbrev returned : Core → Core
returned t = record t { pstate = t.spsr; pc = t.elr }

-- The return from the exception.
served :
    (site : Site) (root : ℕ) (s : Core)
    → IsReady s
    → IsHandled s
    → IsLaidOut s.layout
    → (x : IsBooted (syscall_mem_init site.fuel) root (entered site 3 s))
    → IsIdMapped (mem_init site) site s
unfolding mem_init serve
served site root s ready handled l x =
    let kept =
      kept_of (entered site 3 s) x.after (syscall_mem_init site.fuel (entered site 3 s)) x.done
        (Keeps-syscall_mem_init site.fuel (entered site 3 s)) in
    record {
      after = returned x.after;
      role' = x.role';
      done =
          armv8_syscall-serve site 3 s ready handled
          ∙ ap (λ (o : Outcome Core ℕ). and_then o return_or_abort) x.done;
      rooted =
          subst (λ t. IsRooted t x.role' (returned x.after)) (sym x.base_register)
            (IsRooted-processor (returned x.after) x.rooted);
      identity =
          subst (λ t. IsIdentityMap t x.after.memory s.layout) (sym x.base_register)
            (IsIdentity-IsIdentityMap l x.identity);
      control = x.control;
      executable = x.executable;
      pc = ap (λ (e : Exceptions). e.back) kept;
      mode = ap (λ (e : Exceptions). e.saved) kept;
      ready = ap (λ (e : Exceptions). e.table 0x15) kept ∙ ready;
      layout_same = x.layout_same;
    }

-- With the system call handler installed, a caller at level 0 or with SP_EL0, a heap that has not
-- been used, no table yet, regions that share no page, fuel for all their pages and three heap
-- pages for each besides the table's, `mem_init` returns behind the call in the caller's mode. The
-- table register then leads to tables by which the processor translates each page of the text, of
-- the data and of a device to itself, with the privileges of code, of data and the attributes of a
-- device; addresses have 48 bits, and `wxn` is off.
pub mem_init-IsIdMapped :
    (site : Site) (s : Core)
    → IsReady s
    → IsHandled s
    → IsFresh s
    → IsLaidOut s.layout
    → total_pages s.layout < site.fuel
    → s.heap_ptr + 4096 + total_pages s.layout * 12288 ≤ s.layout.heap_end
    → IsIdMapped (mem_init site) site s
mem_init-IsIdMapped site s ready handled f l enough room =
    served site s.heap_ptr s ready handled l (
      syscall_mem_init-fresh site.fuel (entered site 3 s) (IsFresh-processor (entered site 3 s) f) l
        enough room)
