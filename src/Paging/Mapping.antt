-- ===== src/Paging/Mapping.antt =====
-- `__create_page_mapping` of arch/x86_64/mem.c as a whole.
use simbench.Base.{
  ℕ, ◌+◌, ◌*◌, ◌/◌, ◌%◌, ◌^◌, ◌≤◌, ◌<◌, ◌≡◌, ◌≢◌, refl, ◌∙◌, sym, ap, arith, some, List, [], ◌∷◌,
  length,
}
use simbench.Paging.Bits.{base_of, calculate_indicies-eq}
use simbench.Paging.Machine.{Machine}
use simbench.Paging.Map.{entry_at, create_page_mapping}
use simbench.Paging.Tree.{Roles, IsTree, grants, entry_at-injective, same_role}
use simbench.Paging.Ensure.{Ensured}
use simbench.Paging.Fresh.{ensure_table-Ensured}
use simbench.Paging.Leaf.{
  leafed, write_leaf-leafed, leafed_entry, leafed_other, leafed_upper, leafed-IsTree,
}
use simbench.Paging.Walk.{walk, odd_of, Walked, Walked-walk, walk-Walked, child_role, Ensured-keeps}

-- The page of a virtual address, of the 48 bits that the processor translates.
abbrev pub page_of : ℕ → ℕ
page_of va = va / 2 ^ 12 % 2 ^ 36

-- What mapping `va` to `pa` did.
pub record IsMapped (root : ℕ) (role : Roles) (s : Machine) (pa va : ℕ) : Type 0 where
  pub after : Machine
  pub role' : Roles
  pub returns : create_page_mapping root pa va s ≡ some (tt, after)
  pub tree : IsTree root role' after
  pub translates : walk after.memory root va ≡ some (base_of pa + 7)
  pub others :
      (va' e : ℕ)
      → page_of va' ≢ page_of va
      → walk s.memory root va' ≡ some e
      → walk after.memory root va' ≡ some e
  pub shared :
      (va' e : ℕ)
      → va' / 2 ^ 21 ≡ va / 2 ^ 21
      → walk s.memory root va' ≡ some e
      → after.heap_cur ≡ s.heap_cur
  pub heap_grows : s.heap_cur ≤ after.heap_cur
  pub heap_use : after.heap_cur ≤ s.heap_cur + 3 * 4096
  pub heap_end_same : after.heap_end ≡ s.heap_end
  pub runtime_same : after.runtime_pagetables ≡ s.runtime_pagetables

module _ {root : ℕ} {role : Roles} {s : Machine} (t : IsTree root role s)
    (room : s.heap_cur + 2 * 4096 < s.heap_end) (pa va : ℕ) where
  abbrev i0 : ℕ
  i0 = va / 2 ^ 39 % 512

  abbrev i1 : ℕ
  i1 = va / 2 ^ 30 % 512

  abbrev i2 : ℕ
  i2 = va / 2 ^ 21 % 512

  abbrev i3 : ℕ
  i3 = va / 2 ^ 12 % 512

  first : Ensured root role s root i0 []
  first = ensure_table-Ensured t t.root_role (omega arith) (omega arith) (omega arith)

  second : Ensured root first.role' first.after first.table i1 (i0 ∷ [])
  second =
      ensure_table-Ensured first.tree first.table_role (omega arith) (omega arith)
        (omega (arith, first.heap_use, first.heap_end_same))

  third : Ensured root second.role' second.after second.table i2 (i1 ∷ i0 ∷ [])
  third =
      ensure_table-Ensured second.tree second.table_role (omega arith) (omega arith)
        (omega (arith, first.heap_use, first.heap_end_same, second.heap_use, second.heap_end_same))

  abbrev before_leaf : Machine
  before_leaf = third.after

  abbrev leaf : ℕ
  leaf = entry_at third.table i3

  abbrev after : Machine
  after = leafed before_leaf leaf pa

  mapping_returns : create_page_mapping root pa va s ≡ some (tt, after)
  unfolding create_page_mapping
  mapping_returns =
      rw (calculate_indicies-eq va, first.returns, second.returns, third.returns)
        (write_leaf-leafed before_leaf leaf pa)

  -- A present entry of a table known at the start survives up to the leaf.
  survives :
      (q j : ℕ) (v : List ℕ)
      → role q ≡ some v
      → j < 512
      → s.memory (entry_at q j) % 2 ≡ 1
      → before_leaf.memory (entry_at q j) ≡ s.memory (entry_at q j)
  survives q j v hq hj odd =
      let k1 = Ensured-keeps t first q j v hq hj odd in
      let odd1 : first.after.memory (entry_at q j) % 2 ≡ 1 = omega (arith, k1) in
      let k2 = Ensured-keeps first.tree second q j v (first.kept q v hq) hj odd1 in
      let odd2 : second.after.memory (entry_at q j) % 2 ≡ 1 = omega (arith, k2) in
      let k3 =
        Ensured-keeps second.tree third q j v (second.kept q v (first.kept q v hq)) hj odd2 in
      k3 ∙ k2 ∙ k1

  all_kept : (q : ℕ) (v : List ℕ) → role q ≡ some v → third.role' q ≡ some v
  all_kept q v hq = third.kept q v (second.kept q v (first.kept q v hq))

  upper_survives :
      (q j : ℕ) (v : List ℕ)
      → role q ≡ some v
      → length v < 3
      → j < 512
      → s.memory (entry_at q j) % 2 ≡ 1
      → after.memory (entry_at q j) ≡ s.memory (entry_at q j)
  upper_survives q j v hq hv hj odd =
      leafed_upper third.tree third.table i3 pa third.table_role refl (omega arith) q j v
        (all_kept q v hq) hv hj
      ∙ survives q j v hq hj odd

  upper_entry :
      (q j : ℕ) (v : List ℕ)
      → third.role' q ≡ some v
      → length v < 3
      → j < 512
      → after.memory (entry_at q j) ≡ before_leaf.memory (entry_at q j)
  upper_entry q j v hq hv hj =
      leafed_upper third.tree third.table i3 pa third.table_role refl (omega arith) q j v hq hv hj

  -- The three entries that lead to the leaf stay as they were made.
  entry0 : after.memory (entry_at root i0) ≡ first.after.memory (entry_at root i0)
  entry0 =
      let at1 : first.role' root ≡ some [] = first.kept root [] t.root_role in
      let at2 = second.kept root [] at1 in
      let k2 = Ensured-keeps first.tree second root i0 [] at1 (omega arith) first.present in
      let k3 =
        Ensured-keeps second.tree third root i0 [] at2 (omega arith)
          (omega (arith, k2, first.present)) in
      upper_entry root i0 [] (third.kept root [] at2) (omega arith) (omega arith) ∙ k3 ∙ k2

  entry1 : after.memory (entry_at first.table i1) ≡ second.after.memory (entry_at first.table i1)
  entry1 =
      let at2 = second.kept first.table (i0 ∷ []) first.table_role in
      let k3 =
        Ensured-keeps second.tree third first.table i1 (i0 ∷ []) at2 (omega arith) second.present in
      upper_entry first.table i1 (i0 ∷ []) (third.kept first.table (i0 ∷ []) at2) (omega arith)
        (omega arith)
      ∙ k3

  entry2 : after.memory (entry_at second.table i2) ≡ before_leaf.memory (entry_at second.table i2)
  entry2 =
      upper_entry second.table i2 (i1 ∷ i0 ∷ [])
        (third.kept second.table (i1 ∷ i0 ∷ []) second.table_role) (omega arith) (omega arith)

  final-IsTree : IsTree root third.role' after
  final-IsTree = leafed-IsTree third.tree third.table i3 pa third.table_role refl (omega arith)

  new_Walked : Walked after.memory root va (base_of pa + 7)
  new_Walked =
      let at = leafed_entry before_leaf leaf pa in
      record {
        pdp = first.table;
        pd = second.table;
        pt = third.table;
        open0 =
            final-IsTree.rights root [] i0 (all_kept root [] t.root_role) (omega arith)
              (omega arith) (omega (arith, entry0, first.present));
        to_pdp = ap base_of entry0 ∙ first.points;
        open1 =
            final-IsTree.rights first.table (i0 ∷ []) i1
              (third.kept first.table _ (second.kept first.table _ first.table_role)) (omega arith)
              (omega arith) (omega (arith, entry1, second.present));
        to_pd = ap base_of entry1 ∙ second.points;
        open2 =
            final-IsTree.rights second.table (i1 ∷ i0 ∷ []) i2
              (third.kept second.table _ second.table_role) (omega arith) (omega arith)
              (omega (arith, entry2, third.present));
        to_pt = ap base_of entry2 ∙ third.points;
        odd3 = omega (arith, at);
        at = at;
      }

  -- The leaf entry of another page is another entry.
  leaf_ne :
      (va' q : ℕ)
      → page_of va' ≢ page_of va
      → role q ≡ some (va' / 2 ^ 21 % 512 ∷ va' / 2 ^ 30 % 512 ∷ va' / 2 ^ 39 % 512 ∷ [])
      → entry_at q (va' / 2 ^ 12 % 512) ≢ leaf
  leaf_ne va' q apart hq hit =
      let hq' = all_kept q _ hq in
      let (same, low) =
        entry_at-injective q third.table (va' / 2 ^ 12 % 512) i3 (third.tree.aligned q _ hq')
          (third.tree.aligned third.table _ third.table_role) (omega arith) (omega arith) hit in
      let path = same_role third.role' hq' third.table_role same in
      let c2 : va' / 2 ^ 21 % 512 ≡ i2 = cc in
      let c1 : va' / 2 ^ 30 % 512 ≡ i1 = cc in
      let c0 : va' / 2 ^ 39 % 512 ≡ i0 = cc in apart (omega arith)

  old_Walked :
      (va' e : ℕ)
      → page_of va' ≢ page_of va
      → Walked s.memory root va' e
      → Walked after.memory root va' e
  old_Walked va' e apart w =
      let r1 =
        child_role t root _ w.pdp [] t.root_role (omega arith) (omega arith) (odd_of _ w.open0)
          w.to_pdp in
      let r2 =
        child_role t w.pdp _ w.pd _ r1 (omega arith) (omega arith) (odd_of _ w.open1) w.to_pd in
      let r3 =
        child_role t w.pd _ w.pt _ r2 (omega arith) (omega arith) (odd_of _ w.open2) w.to_pt in
      let s0 =
        upper_survives root _ [] t.root_role (omega arith) (omega arith) (odd_of _ w.open0) in
      let s1 = upper_survives w.pdp _ _ r1 (omega arith) (omega arith) (odd_of _ w.open1) in
      let s2 = upper_survives w.pd _ _ r2 (omega arith) (omega arith) (odd_of _ w.open2) in
      let s3 =
        leafed_other before_leaf leaf pa _ (leaf_ne va' w.pt apart r3)
        ∙ survives w.pt _ _ r3 (omega arith) w.odd3 in
      record {
        pdp = w.pdp;
        pd = w.pd;
        pt = w.pt;
        open0 = ap grants s0 ∙ w.open0;
        to_pdp = ap base_of s0 ∙ w.to_pdp;
        open1 = ap grants s1 ∙ w.open1;
        to_pd = ap base_of s1 ∙ w.to_pd;
        open2 = ap grants s2 ∙ w.open2;
        to_pt = ap base_of s2 ∙ w.to_pt;
        odd3 = omega (arith, s3, w.odd3);
        at = s3 ∙ w.at;
      }

  -- No page is taken from the heap where the three upper entries are present already.
  no_pages :
      (pdp pd : ℕ)
      → s.memory (entry_at root i0) % 2 ≡ 1
      → base_of (s.memory (entry_at root i0)) ≡ pdp
      → s.memory (entry_at pdp i1) % 2 ≡ 1
      → base_of (s.memory (entry_at pdp i1)) ≡ pd
      → s.memory (entry_at pd i2) % 2 ≡ 1
      → third.after.heap_cur ≡ s.heap_cur
  no_pages pdp pd odd0 to0 odd1 to1 odd2 =
      let r1 = child_role t root i0 pdp [] t.root_role (omega arith) (omega arith) odd0 to0 in
      let r2 = child_role t pdp i1 pd (i0 ∷ []) r1 (omega arith) (omega arith) odd1 to1 in
      let table1 : first.table ≡ pdp = sym first.points ∙ ap base_of (first.still odd0) ∙ to0 in
      let k1 = Ensured-keeps t first pdp i1 (i0 ∷ []) r1 (omega arith) odd1 in
      let at1 : first.after.memory (entry_at first.table i1) ≡ s.memory (entry_at pdp i1) =
        ap (λ x. first.after.memory (entry_at x i1)) table1 ∙ k1 in
      let odd1' : first.after.memory (entry_at first.table i1) % 2 ≡ 1 = omega (arith, at1) in
      let table2 : second.table ≡ pd =
        sym second.points ∙ ap base_of (second.still odd1' ∙ at1) ∙ to1 in
      let k2 = Ensured-keeps t first pd i2 (i1 ∷ i0 ∷ []) r2 (omega arith) odd2 in
      let odd2' : first.after.memory (entry_at pd i2) % 2 ≡ 1 = omega (arith, k2) in
      let k3 =
        Ensured-keeps first.tree second pd i2 (i1 ∷ i0 ∷ []) (first.kept pd _ r2) (omega arith)
          odd2' in
      let at2 : second.after.memory (entry_at second.table i2) ≡ s.memory (entry_at pd i2) =
        ap (λ x. second.after.memory (entry_at x i2)) table2 ∙ k3 ∙ k2 in
      third.no_page (omega (arith, at2)) ∙ second.no_page odd1' ∙ first.no_page odd0

  shared_tables :
      (va' e : ℕ)
      → va' / 2 ^ 21 ≡ va / 2 ^ 21
      → Walked s.memory root va' e
      → third.after.heap_cur ≡ s.heap_cur
  shared_tables va' e same w =
      let e0 : va' / 2 ^ 39 % 512 ≡ i0 = omega arith in
      let e1 : va' / 2 ^ 30 % 512 ≡ i1 = omega arith in
      let e2 : va' / 2 ^ 21 % 512 ≡ i2 = omega arith in
      no_pages w.pdp w.pd (odd_of _ (rw e0 at w.open0)) (rw e0 at w.to_pdp)
        (odd_of _ (rw e1 at w.open1)) (rw e1 at w.to_pd) (odd_of _ (rw e2 at w.open2))

  -- With three pages left on the heap, `__create_page_mapping` returns; the processor then
  -- translates `va` to the frame of `pa`, with each of the four entries on its way present,
  -- writable and open to user mode, every other page that was translated is translated as before,
  -- and the tables keep their shape. No more than three heap pages are used, and none where a page
  -- of the same 2 MB was translated before.
  pub create_page_mapping-IsMapped : IsMapped root role s pa va
  create_page_mapping-IsMapped = record {
    after = after;
    role' = third.role';
    returns = mapping_returns;
    tree = final-IsTree;
    translates = Walked-walk after.memory root va _ new_Walked;
    others = λ va' e apart h.
        Walked-walk after.memory root va' e
          (old_Walked va' e apart (walk-Walked s.memory root va' e h));
    shared = λ va' e same h. shared_tables va' e same (walk-Walked s.memory root va' e h);
    heap_grows = omega (arith, first.heap_grows, second.heap_grows, third.heap_grows);
    heap_use = omega (arith, first.heap_use, second.heap_use, third.heap_use);
    heap_end_same = third.heap_end_same ∙ second.heap_end_same ∙ first.heap_end_same;
    runtime_same = third.runtime_same ∙ second.runtime_same ∙ first.runtime_same;
  }
