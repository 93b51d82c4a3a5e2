-- ===== src/Armv8/Boot.antt =====
-- `mem_init` and `mem_reset` of arch/armv8/mem.c: the system call, the tables and the registers.
use simbench.Base.{
  ℕ, ◌+◌, ◌*◌, ◌%◌, ◌^◌, ◌≤◌, ◌<◌, ◌≡◌, ap, ◌∙◌, arith, bit_and, bit_at, bit_at-bit_and,
}
use simbench.Base.Outcome.{Outcome, returns, and_then, ◌>>=◌, ◌>>◌, modify}
use simbench.Armv8.State.{Core, M}
use simbench.Armv8.Table.{get_txln_table, clear_txln_table}
use simbench.Armv8.Memory.{map_simbench, clear_wxn, set_ttbr, tcr_value, not_wxn, syscall_mem_init}
use simbench.Armv8.Tree.{Roles}
use simbench.Armv8.Range.{IsRooted}
use simbench.Armv8.Init.{IsLaidOut, IsIdentity, total_pages, map_simbench-IsSetUp}
use simbench.Armv8.Root.{
  cleared, cleared-IsRooted, get_l0_table-rooted, clear_txln_table-rooted, IsFresh, only, with_root,
  get_l0_table-fresh, with_root-IsRooted, IsFresh-processor, IsRooted-processor,
}

-- What `syscall_mem_init` does behind the choice of the table.
abbrev set_up : ℕ → ℕ → M ℕ
set_up fuel root = modify (set_ttbr root) >> (clear_txln_table >>= λ done. map_simbench fuel)

-- The memory map is set up from the given state: the tables, and the registers that lead to them.
pub record IsBooted (m : M ℕ) (root : ℕ) (s : Core) : Type 0 where
  pub after : Core
  pub role' : Roles
  pub done : m s ≡ returns 0 after
  pub rooted : IsRooted root role' after
  pub identity : IsIdentity root after.memory s.layout
  pub base_register : after.ttbr0 ≡ root
  pub control : after.tcr ≡ tcr_value
  pub executable : bit_at 19 after.sctlr ≡ 0
  pub layout_same : after.layout ≡ s.layout

module _ (fuel root : ℕ) (role : Roles) (s : Core) (rooted : IsRooted root role s)
    (l : IsLaidOut s.layout) (enough : total_pages s.layout < fuel)
    (room : s.heap_ptr + total_pages s.layout * 12288 ≤ s.layout.heap_end)
    (wxn : bit_at 19 s.sctlr ≡ 0) where
  abbrev readied : Core
  readied = cleared root (set_ttbr root s)

  set_up-IsBooted : IsBooted (set_up fuel root) root s
  set_up-IsBooted =
      let with_ttbr = IsRooted-processor (set_ttbr root s) rooted in
      let x =
        map_simbench-IsSetUp fuel root role readied (cleared-IsRooted with_ttbr) l enough room in
      record {
        after = x.after;
        role' = x.role';
        done =
            ap (λ (o : Outcome Core (Unit {0})). and_then o (λ done. map_simbench fuel))
              (clear_txln_table-rooted with_ttbr)
            ∙ x.done;
        rooted = x.rooted;
        identity = x.identity;
        base_register = ap (λ (c : Core). c.ttbr0) x.rest;
        control = ap (λ (c : Core). c.tcr) x.rest;
        executable = ap (λ (c : Core). bit_at 19 c.sctlr) x.rest ∙ wxn;
        layout_same = ap (λ (c : Core). c.layout) x.rest;
      }

-- Clearing `wxn`.
wxn-clear : (w : ℕ) → bit_at 19 (bit_and (w % 2 ^ 32) not_wxn) ≡ 0
wxn-clear w = omega (arith, bit_at-bit_and 19 (w % 2 ^ 32) not_wxn)

-- With a heap that has not been used and no table yet, regions that share no page, fuel for all their
-- pages and three heap pages for each besides the table's, `syscall_mem_init` returns 0.
pub syscall_mem_init-fresh :
    (fuel : ℕ) (s : Core)
    → IsFresh s
    → IsLaidOut s.layout
    → total_pages s.layout < fuel
    → s.heap_ptr + 4096 + total_pages s.layout * 12288 ≤ s.layout.heap_end
    → IsBooted (syscall_mem_init fuel) s.heap_ptr s
unfolding syscall_mem_init get_txln_table
syscall_mem_init-fresh fuel s f l enough room =
    let fresh = IsFresh-processor (clear_wxn s) f in
    let x =
      set_up-IsBooted fuel s.heap_ptr (only s.heap_ptr) (with_root (clear_wxn s))
        (with_root-IsRooted (clear_wxn s) fresh) l enough room (wxn-clear s.sctlr) in
    record {
      after = x.after;
      role' = x.role';
      done =
          ap (λ (o : Outcome Core ℕ). and_then o (λ table. set_up fuel table))
            (get_l0_table-fresh (clear_wxn s) fresh)
          ∙ x.done;
      rooted = x.rooted;
      identity = x.identity;
      base_register = x.base_register;
      control = x.control;
      executable = x.executable;
      layout_same = x.layout_same;
    }

-- The same for a core that has its tables.
pub syscall_mem_init-again :
    (fuel root : ℕ) (role : Roles) (s : Core)
    → IsRooted root role s
    → IsLaidOut s.layout
    → total_pages s.layout < fuel
    → s.heap_ptr + total_pages s.layout * 12288 ≤ s.layout.heap_end
    → IsBooted (syscall_mem_init fuel) root s
unfolding syscall_mem_init get_txln_table
syscall_mem_init-again fuel root role s rooted l enough room =
    let control = IsRooted-processor (clear_wxn s) rooted in
    let x =
      set_up-IsBooted fuel root role (clear_wxn s) control l enough room (wxn-clear s.sctlr) in
    record {
      after = x.after;
      role' = x.role';
      done =
          ap (λ (o : Outcome Core ℕ). and_then o (λ table. set_up fuel table))
            (get_l0_table-rooted control)
          ∙ x.done;
      rooted = x.rooted;
      identity = x.identity;
      base_register = x.base_register;
      control = x.control;
      executable = x.executable;
      layout_same = x.layout_same;
    }
