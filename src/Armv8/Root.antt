-- ===== src/Armv8/Root.antt =====
-- The level 0 table of arch/armv8/txln_table.c: made, or cleared with the tables below it kept.
use simbench.Base.{
  ℕ, ◌+◌, ◌*◌, ◌/◌, ◌%◌, ◌^◌, ◌≤◌, ◌<◌, ◌==◌, if◌then◌else◌, ◌≡◌, ◌≢◌, ◌⊎◌, inl, inr, refl, ap, ◌∙◌,
  sym, arith, Option, none, some, List, [], eq_or_ne, eq→==, ne→==, le→ltb,
}
use simbench.Base.Outcome.{returns}
use simbench.Armv8.State.{Core, armv8_heap_get_page}
use simbench.Armv8.Table.{get_l0_table, clear_table, clear_entries, clear_txln_table}
use simbench.Armv8.Entries.{base, entry, not_present-clear, clear_entries-in, clear_entries-other}
use simbench.Armv8.Tree.{Roles, entry-injective}
use simbench.Armv8.Ensure.{clear_entries-word}
use simbench.Armv8.Range.{IsRooted}

-- The state after `clear_table`.
abbrev pub cleared : ℕ → Core → Core
cleared table s = record s { memory = clear_entries 512 0 table s.memory }

module _ {root : ℕ} {role : Roles} {s : Core} (r : IsRooted root role s) where
  cleared_entry :
      (q : ℕ) (v : List ℕ) (j : ℕ)
      → role q ≡ some v
      → j < 512
      → ((cleared root s).memory (entry q j) ≡ s.memory (entry q j))
        ⊎ ((cleared root s).memory (entry q j) ≡ s.memory (entry q j) / 4 * 4)
  cleared_entry q v j hq hj = elim (eq_or_ne q root) [
    | inl here ↦ inr (
        rw here (
          clear_entries-in 512 0 root s.memory j (omega arith) (omega arith)
          ∙ not_present-clear (s.memory (entry root j)) (r.tree.word (entry root j))))
    | inr other ↦ inl (
        clear_entries-other 512 0 root s.memory (entry q j) (λ k low high e.
          other
            (entry-injective q root j k (r.tree.aligned q v hq)
              (r.tree.aligned root [] r.tree.root_role) hj (omega arith) e).0))
  ]

  cleared_base :
      (q : ℕ) (v : List ℕ) (j : ℕ)
      → role q ≡ some v
      → j < 512
      → base ((cleared root s).memory (entry q j)) ≡ base (s.memory (entry q j))
  cleared_base q v j hq hj = elim (cleared_entry q v j hq hj) [
    | inl same ↦ ap base same
    | inr low ↦ omega (arith, low)
  ]

  cleared_flags :
      (q : ℕ) (v : List ℕ) (j : ℕ)
      → role q ≡ some v
      → j < 512
      → ((cleared root s).memory (entry q j) % 4 ≡ s.memory (entry q j) % 4)
        ⊎ ((cleared root s).memory (entry q j) % 4 ≡ 0)
  cleared_flags q v j hq hj = elim (cleared_entry q v j hq hj) [
    | inl same ↦ inl (ap (λ d. d % 4) same)
    | inr low ↦ inr (omega (arith, low))
  ]

  -- Clearing the level 0 table keeps the shape: the tables below it are found again.
  pub cleared-IsRooted : IsRooted root role (cleared root s)
  cleared-IsRooted = record {
    tree = record {
      root_role = r.tree.root_role;
      aligned = r.tree.aligned;
      below = r.tree.below;
      child = λ q v j hq short hj ne.
          let same = cleared_base q v j hq hj in
          rw same (r.tree.child q v j hq short hj (rw same at ne));
      vacant = λ q v j hq short hj e. elim (cleared_flags q v j hq hj) [
        | inl same ↦ same ∙ r.tree.vacant q v j hq short hj (sym (cleared_base q v j hq hj) ∙ e)
        | inr low ↦ low
      ];
      flags = λ q v j hq short hj. elim (cleared_flags q v j hq hj) [
        | inl same ↦ rw same (r.tree.flags q v j hq short hj)
        | inr low ↦ inl low
      ];
      word = clear_entries-word 512 0 root s.memory r.tree.word;
      blank = λ a high.
          clear_entries-other 512 0 root s.memory a
            (λ k low k_high e. omega (arith, r.tree.below root [] r.tree.root_role))
          ∙ r.tree.blank a high;
      heap_aligned = r.tree.heap_aligned;
      heap_bound = r.tree.heap_bound;
    };
    set = r.set;
    nonzero = r.nonzero;
  }

  pub get_l0_table-rooted : get_l0_table s ≡ returns root s
  unfolding get_l0_table
  get_l0_table-rooted = rw (r.set, ne→== root 0 r.nonzero) refl

  pub clear_txln_table-rooted : clear_txln_table s ≡ returns tt (cleared root s)
  unfolding clear_txln_table clear_table
  clear_txln_table-rooted = rw get_l0_table-rooted refl

-- Before the first call: no level 0 table, and a heap that has not been used.
pub record IsFresh (s : Core) : Type 0 where
  pub unset : s.l0_table ≡ 0
  pub nonzero : s.heap_ptr ≢ 0
  pub aligned : s.heap_ptr % 4096 ≡ 0
  pub room : s.heap_ptr + 4096 ≤ s.layout.heap_end
  pub bound : s.layout.heap_end ≤ 2 ^ 48
  pub word : (a : ℕ) → s.memory a < 2 ^ 64
  pub blank : (a : ℕ) → s.heap_ptr ≤ a → s.memory a ≡ 0

abbrev pub only : ℕ → Roles
only root p = if p == root then some [] else none

abbrev pub with_root : Core → Core
with_root s = record s { heap_ptr = s.heap_ptr + 4096; l0_table = s.heap_ptr }

none-ne-some : (w : List ℕ) → ◌≡◌ {A = Option (List ℕ)} none (some w) → ⊥
none-ne-some w e = cc

only-root : (root p : ℕ) (w : List ℕ) → only root p ≡ some w → p ≡ root
only-root root p w h = elim (eq_or_ne p root) [
  | inl e ↦ e
  | inr ne ↦ absurd (none-ne-some w (rw (ne→== p root ne) at h))
]

-- The first call makes the table on the next heap page.
pub get_l0_table-fresh : (s : Core) → IsFresh s → get_l0_table s ≡ returns s.heap_ptr (with_root s)
unfolding get_l0_table armv8_heap_get_page
get_l0_table-fresh s f =
    let fits : (s.heap_ptr + 4096) % 2 ^ 64 ≡ s.heap_ptr + 4096 = omega (arith, f.room, f.bound) in
    rw (f.unset, fits, le→ltb s.layout.heap_end (s.heap_ptr + 4096) f.room) refl

pub with_root-IsRooted :
    (s : Core) → IsFresh s → IsRooted s.heap_ptr (only s.heap_ptr) (with_root s)
with_root-IsRooted s f =
    let zero_at : (p : ℕ) (w : List ℕ) (i : ℕ)
        → only s.heap_ptr p ≡ some w
        → s.memory (entry p i) ≡ 0 =
      λ p w i hp. let at = only-root s.heap_ptr p w hp in f.blank (entry p i) (omega arith) in
    record {
      tree = record {
        root_role = rw (eq→== s.heap_ptr s.heap_ptr refl) refl;
        aligned = λ p w hp. rw (only-root s.heap_ptr p w hp) f.aligned;
        below = λ p w hp. rw (only-root s.heap_ptr p w hp) (omega arith);
        child = λ p w i hp short hi ne. absurd (ne (ap base (zero_at p w i hp)));
        vacant = λ p w i hp short hi e. ap (λ d. d % 4) (zero_at p w i hp);
        flags = λ p w i hp short hi. inl (ap (λ d. d % 4) (zero_at p w i hp));
        word = f.word;
        blank = λ a high. f.blank a (omega arith);
        heap_aligned = omega (arith, f.aligned);
        heap_bound = f.bound;
      };
      set = refl;
      nonzero = f.nonzero;
    }

-- The shape is one of the memory: another state of the processor and of the handlers has it too.
abbrev pub with_processor : Core → Core → Core
with_processor s t = record t {
  layout = s.layout;
  memory = s.memory;
  heap_ptr = s.heap_ptr;
  l0_table = s.l0_table;
}

pub IsRooted-processor :
    {root : ℕ} {role : Roles} {s : Core} (t : Core)
    → IsRooted root role s
    → IsRooted root role (with_processor s t)
IsRooted-processor t r = record {
  tree = record {
    root_role = r.tree.root_role;
    aligned = r.tree.aligned;
    below = r.tree.below;
    child = r.tree.child;
    vacant = r.tree.vacant;
    flags = r.tree.flags;
    word = r.tree.word;
    blank = r.tree.blank;
    heap_aligned = r.tree.heap_aligned;
    heap_bound = r.tree.heap_bound;
  };
  set = r.set;
  nonzero = r.nonzero;
}

pub IsFresh-processor : {s : Core} (t : Core) → IsFresh s → IsFresh (with_processor s t)
IsFresh-processor t f = record {
  unset = f.unset;
  nonzero = f.nonzero;
  aligned = f.aligned;
  room = f.room;
  bound = f.bound;
  word = f.word;
  blank = f.blank;
}
