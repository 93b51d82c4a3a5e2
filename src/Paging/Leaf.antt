-- ===== src/Paging/Leaf.antt =====
-- The last lines of `__create_page_mapping` (arch/x86_64/mem.c), which write the leaf entry.
use simbench.Base.{ℕ, ◌+◌, ◌<◌, ◌≡◌, ◌≢◌, refl, ◌∙◌, arith, some, List, length}
use simbench.Paging.Bits.{base_of, set_base_address-eq, set_flags-eq}
use simbench.Paging.Entry.{set_base_address, set_flags}
use simbench.Paging.Machine.{Machine, update}
use simbench.Paging.Map.{entry_at, table_flags, write_leaf}
use simbench.Paging.Tree.{Roles, IsTree}
use simbench.Paging.Ensure.{update_self, update_ne}
use simbench.Paging.Walk.{entry_ne}

module _ (s : Machine) (a pa : ℕ) where
  abbrev pub based : ℕ → ℕ
  based = update s.memory a (set_base_address (s.memory a) pa)

  abbrev pub leafed : Machine
  leafed = record s { memory = update based a (set_flags (based a) table_flags) }

  pub write_leaf-leafed : write_leaf a pa s ≡ some (tt, leafed)
  unfolding write_leaf
  write_leaf-leafed = refl

  -- The new entry: the frame of `pa`, present, writable and open to user mode.
  pub leafed_entry : leafed.memory a ≡ base_of pa + 7
  leafed_entry =
      update_self based a _
      ∙ set_flags-eq (based a) table_flags
      ∙ omega (
        arith,
        update_self s.memory a (set_base_address (s.memory a) pa),
        set_base_address-eq (s.memory a) pa,
      )

  pub leafed_other : (b : ℕ) → b ≢ a → leafed.memory b ≡ s.memory b
  leafed_other b ne = update_ne based a _ b ne ∙ update_ne s.memory a _ b ne

-- A leaf entry belongs to no upper table, so the shape stays.
module _ {root : ℕ} {role : Roles} {s : Machine} (t : IsTree root role s) (p i pa : ℕ) {w : List ℕ}
    (hp : role p ≡ some w) (hw : length w ≡ 3) (hi : i < 512) where
  pub leafed_upper :
      (q j : ℕ) (v : List ℕ)
      → role q ≡ some v
      → length v < 3
      → j < 512
      → (leafed s (entry_at p i) pa).memory (entry_at q j) ≡ s.memory (entry_at q j)
  leafed_upper q j v hq hv hj =
      leafed_other s (entry_at p i) pa (entry_at q j)
        (entry_ne t q p j i v w hq hp (omega arith) hj hi)

  pub leafed-IsTree : IsTree root role (leafed s (entry_at p i) pa)
  leafed-IsTree = record {
    root_role = t.root_role;
    aligned = t.aligned;
    below = t.below;
    child = λ q v j hq hv hj ne.
        let e = leafed_upper q j v hq hv hj in rw e (t.child q v j hq hv hj (rw e at ne));
    vacant = λ q v j hq hv hj z.
        let e = leafed_upper q j v hq hv hj in rw e (t.vacant q v j hq hv hj (rw e at z));
    rights = λ q v j hq hv hj odd.
        let e = leafed_upper q j v hq hv hj in rw e (t.rights q v j hq hv hj (rw e at odd));
    heap_aligned = t.heap_aligned;
    heap_bound = t.heap_bound;
  }
