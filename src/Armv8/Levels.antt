-- ===== src/Armv8/Levels.antt =====
-- The way through the upper levels in arch/armv8/txln_table.c.
use simbench.Base.{
  ℕ, ◌+◌, ◌*◌, ◌/◌, ◌%◌, ◌^◌, ◌≤◌, ◌<◌, ◌≡◌, ◌≢◌, refl, ap, ◌∙◌, arith, List, [], ◌∷◌, length,
  ne→==, bit_and, bit_and_mask,
}
use simbench.Base.Outcome.{returns}
use simbench.Armv8.State.{Core}
use simbench.Armv8.Table.{
  get_l0_table, get_descriptor, get_l1_table, get_l2_table, get_l3_table, leaf_table,
}
use simbench.Armv8.Entries.{base, entry, address-base}
use simbench.Armv8.Tree.{Roles, IsTree, Live, Live-same}
use simbench.Armv8.Ensure.{Ensured, present_or_new-Ensured}
use simbench.Armv8.Walk.{path_of}

pub index_mask : (x : ℕ) → bit_and (x % 2 ^ 32) 511 ≡ x % 512
index_mask x = bit_and_mask 9 (x % 2 ^ 32) ∙ omega arith

-- The descriptor of a level, by what its block does.
get_descriptor-eq :
    {root : ℕ} {role : Roles} {s : Core} {p : ℕ} {w : List ℕ} (shift va : ℕ)
    → (x : Ensured root role s p (va / 2 ^ shift % 512) w)
    → get_descriptor shift p va s ≡ returns x.descriptor x.after
unfolding get_descriptor
get_descriptor-eq shift va x = rw (index_mask (va / 2 ^ shift)) x.done

-- What the calls in front of a mapping's last write did: the table of the leaf is there and is
-- reached, and what was reached stays.
pub record Found (root : ℕ) (role : Roles) (s : Core) (va : ℕ) : Type 0 where
  pub after : Core
  pub role' : Roles
  pub table : ℕ
  pub done : leaf_table va s ≡ returns table after
  pub tree : IsTree root role' after
  pub live : Live after.memory root (path_of va) table
  pub kept :
      (v : List ℕ) (q j : ℕ)
      → length v ≤ 3
      → Live s.memory root v q
      → j < 512
      → s.memory (entry q j) % 4 ≡ 3
      → after.memory (entry q j) ≡ s.memory (entry q j)
  pub live_kept :
      (v : List ℕ) (q : ℕ) → length v ≤ 3 → Live s.memory root v q → Live after.memory root v q
  pub heap_grows : s.heap_ptr ≤ after.heap_ptr
  pub heap_use : after.heap_ptr ≤ s.heap_ptr + 3 * 4096
  pub rest : after ≡ record s { memory = after.memory; heap_ptr = after.heap_ptr }

-- A table that is reached stays reached.
Ensured-Live :
    {root : ℕ} {role : Roles} {s : Core} {p i : ℕ} {w : List ℕ}
    → (x : Ensured root role s p i w) → (v : List ℕ) (q : ℕ) → length v ≤ 3
    → Live s.memory root v q
    → Live x.after.memory root v q
Ensured-Live {root} {s} x v q short live =
    Live-same s.memory x.after.memory root v q
      (λ u r j shorter reached hj present. x.same u r j (omega arith) reached hj present) live

module _ {root : ℕ} {role : Roles} {s : Core} (t : IsTree root role s) (set : s.l0_table ≡ root)
    (nonzero : root ≢ 0) (va : ℕ) (room : s.heap_ptr + 3 * 4096 ≤ s.layout.heap_end) where
  abbrev i0 : ℕ
  i0 = va / 2 ^ 39 % 512

  abbrev i1 : ℕ
  i1 = va / 2 ^ 30 % 512

  abbrev i2 : ℕ
  i2 = va / 2 ^ 21 % 512

  first : Ensured root role s root i0 []
  first = present_or_new-Ensured root i0 [] t refl (omega arith) (omega arith) (omega arith)

  second : Ensured root first.role' first.after (base first.descriptor) i1 (i0 ∷ [])
  second =
      present_or_new-Ensured (base first.descriptor) i1 (i0 ∷ []) first.tree first.live
        (omega arith) (omega arith)
        (omega (arith, first.heap_use, ap (λ x. x.layout.heap_end) first.rest))

  third : Ensured root second.role' second.after (base second.descriptor) i2 (i1 ∷ i0 ∷ [])
  third =
      present_or_new-Ensured (base second.descriptor) i2 (i1 ∷ i0 ∷ []) second.tree second.live
        (omega arith) (omega arith)
        (omega (
          arith,
          first.heap_use,
          second.heap_use,
          ap (λ x. x.layout.heap_end) first.rest,
          ap (λ x. x.layout.heap_end) second.rest,
        ))

  l0-eq : get_l0_table s ≡ returns root s
  unfolding get_l0_table
  l0-eq = rw (set, ne→== root 0 nonzero) refl

  l1-eq : get_l1_table root va s ≡ returns (base first.descriptor) first.after
  unfolding get_l1_table
  l1-eq = rw (get_descriptor-eq 39 va first, address-base first.descriptor) refl

  l2-eq :
      get_l2_table (base first.descriptor) va first.after
      ≡ returns (base second.descriptor) second.after
  unfolding get_l2_table
  l2-eq = rw (get_descriptor-eq 30 va second, address-base second.descriptor) refl

  l3-eq :
      get_l3_table (base second.descriptor) va second.after
      ≡ returns (base third.descriptor) third.after
  unfolding get_l3_table
  l3-eq = rw (get_descriptor-eq 21 va third, address-base third.descriptor) refl

  leaf_table-eq : leaf_table va s ≡ returns (base third.descriptor) third.after
  unfolding leaf_table
  leaf_table-eq = rw (l0-eq, l1-eq, l2-eq, l3-eq) refl

  -- What is present and reached at the start is so in front of the last write.
  upper_kept :
      (v : List ℕ) (q j : ℕ)
      → length v ≤ 3
      → Live s.memory root v q
      → j < 512
      → s.memory (entry q j) % 4 ≡ 3
      → third.after.memory (entry q j) ≡ s.memory (entry q j)
  upper_kept v q j short live hj present =
      let k1 = first.same v q j short live hj present in
      let live1 = Ensured-Live first v q short live in
      let k2 = second.same v q j short live1 hj (ap (λ x. x % 4) k1 ∙ present) in
      let live2 = Ensured-Live second v q short live1 in
      let k3 = third.same v q j short live2 hj (ap (λ x. x % 4) (k2 ∙ k1) ∙ present) in k3 ∙ k2 ∙ k1

  all-Live :
      (v : List ℕ) (q : ℕ)
      → length v ≤ 3
      → Live s.memory root v q
      → Live third.after.memory root v q
  all-Live v q short live =
      Ensured-Live third v q short
        (Ensured-Live second v q short (Ensured-Live first v q short live))

  abbrev with_memory : Core → Core
  with_memory x = record x { memory = third.after.memory; heap_ptr = third.after.heap_ptr }

  -- With three pages left on the heap, the calls find or make the table of the leaf.
  pub leaf_table-Found : Found root role s va
  leaf_table-Found = record {
    after = third.after;
    role' = third.role';
    table = base third.descriptor;
    done = leaf_table-eq;
    tree = third.tree;
    live = third.live;
    kept = upper_kept;
    live_kept = all-Live;
    heap_grows = omega (arith, first.heap_grows, second.heap_grows, third.heap_grows);
    heap_use = omega (arith, first.heap_use, second.heap_use, third.heap_use);
    rest = ap with_memory third.rest ∙ ap with_memory second.rest ∙ ap with_memory first.rest;
  }
