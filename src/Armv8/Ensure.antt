-- ===== src/Armv8/Ensure.antt =====
-- One level of arch/armv8/txln_table.c: the table behind an entry, found, taken again or made.
use simbench.Base.{
  ℕ, zero, suc, ◌+◌, ◌*◌, ◌/◌, ◌%◌, ◌^◌, ◌≤◌, ◌<◌, ◌==◌, ltb, if◌then◌else◌, ◌≡◌, ◌≢◌, inl, inr,
  refl, ap, ◌∙◌, arith, true, false, some, List, [], ◌∷◌, length, eq_or_ne, eq→==, ne→==, le→ltb,
  bit_and,
}
use simbench.Base.Outcome.{returns}
use simbench.Armv8.State.{Core, update, armv8_heap_get_page}
use simbench.Armv8.Table.{clear_entries, clear_table, present_or_new}
use simbench.Armv8.Entries.{
  base, entry, address-base, not_present-clear, table-or, flags-mask, update_self, update_ne,
  clear_entries-other, clear_entries-in,
}
use simbench.Armv8.Tree.{
  Roles, IsTree, Live, Live-role, Live-same, Live-unique, entry-injective, same_role,
}
use simbench.Armv8.Link.{IsLinked, IsLinked-IsTree, link-same}

-- The memory after `c` was cleared and linked under entry `i` of `p`.
abbrev pub linked_memory : ℕ → ℕ → ℕ → (ℕ → ℕ) → ℕ → ℕ
linked_memory p i c f = update (clear_entries 512 0 c f) (entry p i) (c + 3)

pub clear_entries-word :
    (rounds i table : ℕ) (f : ℕ → ℕ)
    → ((a : ℕ) → f a < 2 ^ 64)
    → (a : ℕ) → clear_entries rounds i table f a < 2 ^ 64
unfolding clear_entries
clear_entries-word zero i table f word a = word a
clear_entries-word (suc rounds) i table f word a =
    clear_entries-word rounds (suc i) table _
      (λ b. elim (eq_or_ne b (entry table i)) [
        | inl here ↦
            rw
              (
                eq→== b (entry table i) here,
                not_present-clear (f (entry table i)) (word (entry table i)),
              )
              (omega (arith, word (entry table i)))
        | inr other ↦ rw (ne→== b (entry table i) other) (word b)
      ])
      a

module _ (p i c : ℕ) (f : ℕ → ℕ) (word : (a : ℕ) → f a < 2 ^ 64) where
  linked-link : linked_memory p i c f (entry p i) ≡ c + 3
  linked-link = update_self (clear_entries 512 0 c f) (entry p i) (c + 3)

  linked-cleared :
      (j : ℕ)
      → j < 512
      → entry c j ≢ entry p i
      → linked_memory p i c f (entry c j) ≡ f (entry c j) / 4 * 4
  linked-cleared j hj apart =
      update_ne (clear_entries 512 0 c f) (entry p i) (c + 3) (entry c j) apart
      ∙ clear_entries-in 512 0 c f j (omega arith) (omega arith)
      ∙ not_present-clear (f (entry c j)) (word (entry c j))

  linked-other :
      (a : ℕ) → a ≢ entry p i → ((j : ℕ) → j < 512 → a ≢ entry c j) → linked_memory p i c f a ≡ f a
  linked-other a apart outside =
      update_ne (clear_entries 512 0 c f) (entry p i) (c + 3) a apart
      ∙ clear_entries-other 512 0 c f a (λ j low high. outside j (omega arith))

  linked-word : c < 2 ^ 48 → (a : ℕ) → linked_memory p i c f a < 2 ^ 64
  linked-word bound a = elim (eq_or_ne a (entry p i)) [
    | inl here ↦ rw (eq→== a (entry p i) here) (omega arith)
    | inr other ↦ rw (ne→== a (entry p i) other) (clear_entries-word 512 0 c f word a)
  ]

-- The block at entry `i` of the table `p`, whose role is `w`: what it returns and what it changed.
pub record Ensured (root : ℕ) (role : Roles) (s : Core) (p i : ℕ) (w : List ℕ) : Type 0 where
  pub after : Core
  pub descriptor : ℕ
  pub role' : Roles
  pub done : present_or_new (entry p i) (s.memory (entry p i)) s ≡ returns descriptor after
  pub tree : IsTree root role' after
  pub live : Live after.memory root (i ∷ w) (base descriptor)
  pub same :
      (v : List ℕ) (q j : ℕ)
      → length v ≤ 3
      → Live s.memory root v q
      → j < 512
      → s.memory (entry q j) % 4 ≡ 3
      → after.memory (entry q j) ≡ s.memory (entry q j)
  pub kept : (q : ℕ) (v : List ℕ) → role q ≡ some v → role' q ≡ some v
  pub heap_grows : s.heap_ptr ≤ after.heap_ptr
  pub heap_use : after.heap_ptr ≤ s.heap_ptr + 4096
  pub rest : after ≡ record s { memory = after.memory; heap_ptr = after.heap_ptr }

abbrev with_role : Roles → ℕ → List ℕ → Roles
with_role role c w q = if q == c then some w else role q

abbrev linked_state : Core → ℕ → ℕ → ℕ → ℕ → Core
linked_state s p i c heap = record s { memory = linked_memory p i c s.memory; heap_ptr = heap }

module _ {root : ℕ} {role : Roles} {s : Core} (p i : ℕ) (w : List ℕ) (t : IsTree root role s)
    (lp : Live s.memory root w p) (hw : length w < 3) (hi : i < 512) where
  hp : role p ≡ some w
  hp = Live-role w p t (omega arith) lp

  Ensured-present : (s.memory (entry p i)) % 4 ≡ 3 → Ensured root role s p i w
  unfolding present_or_new
  Ensured-present present =
      let set : (bit_and (s.memory (entry p i)) 3 == 0) ≡ false =
        ne→== (bit_and (s.memory (entry p i)) 3) 0
          (λ e. omega (arith, flags-mask (s.memory (entry p i)))) in
      record {
        after = s;
        descriptor = s.memory (entry p i);
        role' = role;
        done = rw set refl;
        tree = t;
        live = (p, hi, lp, present, refl);
        same = λ v q j short live hj odd. refl;
        kept = λ q v hq. hq;
        heap_grows = omega arith;
        heap_use = omega arith;
        rest = refl;
      }

  module _ (absent : (s.memory (entry p i)) % 4 ≡ 0) where
    clear_flags : (bit_and (s.memory (entry p i)) 3 == 0) ≡ true
    clear_flags =
        eq→== (bit_and (s.memory (entry p i)) 3) 0 (flags-mask (s.memory (entry p i)) ∙ absent)

    linked-Live :
        (c heap : ℕ)
        → c % 4096 ≡ 0
        → c < 2 ^ 48
        → ((v : List ℕ) (q j : ℕ)
            → length v ≤ 3
            → Live s.memory root v q
            → j < 512
            → s.memory (entry q j) % 4 ≡ 3
            → linked_memory p i c s.memory (entry q j) ≡ s.memory (entry q j))
        → Live (linked_memory p i c s.memory) root (i ∷ w) (base (c + 3))
    linked-Live c heap aligned bound same =
        let link = linked-link p i c s.memory t.word in
        (
          p,
          hi,
          Live-same s.memory (linked_memory p i c s.memory) root w p
              (λ v q j short live hj odd. same v q j (omega arith) live hj odd) lp,
          omega (arith, link),
          ap base link,
        )

    Ensured-stale : base (s.memory (entry p i)) ≢ 0 → Ensured root role s p i w
    unfolding present_or_new clear_table
    Ensured-stale based =
        let c = base (s.memory (entry p i)) in
        let hc : role c ≡ some (i ∷ w) = t.child p w i hp hw hi based in
        let apart : (j : ℕ) → j < 512 → entry c j ≢ entry p i = λ j hj e.
          let (cp, _) = entry-injective c p j i (omega arith) (t.aligned p w hp) hj hi e in
          omega (arith, ap length (same_role role hc hp cp)) in
        let linked : IsLinked role role s (linked_state s p i c s.heap_ptr) p i c w = record {
          kept = λ q v hq. hq;
          old_or_c = λ q v hq other. hq;
          linked = hc;
          link = linked-link p i c s.memory t.word;
          c_aligned = omega arith;
          c_pos = based;
          c_bound = omega arith;
          c_below = t.below c (i ∷ w) hc;
          cleared = λ j hj. omega (arith, linked-cleared p i c s.memory t.word j hj (apart j hj));
          leads = λ j hj deep ne.
              let at : base (linked_memory p i c s.memory (entry c j))
                  ≡ base (s.memory (entry c j)) =
                omega (arith, linked-cleared p i c s.memory t.word j hj (apart j hj)) in
              rw at (t.child c (i ∷ w) j hc deep hj (rw at at ne));
          same = λ a below other outside. linked-other p i c s.memory t.word a other outside;
          word' = linked-word p i c s.memory t.word (omega arith);
          blank' = λ a high.
              linked-other p i c s.memory t.word a (λ e. omega (arith, t.below p w hp))
                (λ j hj e. omega (arith, t.below c (i ∷ w) hc))
              ∙ t.blank a high;
          heap_grows = omega arith;
          heap_aligned' = t.heap_aligned;
          layout_same = refl;
        } in
        let unreached : (v : List ℕ) → length v ≤ 3 → Live s.memory root v c → ⊥ = λ v short live.
          let vw = same_role role (Live-role v c t short live) hc refl in
          let (p', _, to_p', present, _) = rw vw at live in
          omega (
            arith,
            absent,
            ap (λ x. s.memory (entry x i) % 4) (Live-unique s.memory root w p' p to_p' lp),
            present,
          ) in
        let same = link-same t hp hi linked absent unreached in
        let page : (c == 0) ≡ false = ne→== c 0 based in
        record {
          after = linked_state s p i c s.heap_ptr;
          descriptor = c + 3;
          role' = role;
          done =
              rw (clear_flags, address-base (s.memory (entry p i)), page, table-or c (omega arith))
                refl;
          tree = IsLinked-IsTree t hp hi linked;
          live = linked-Live c s.heap_ptr (omega arith) (omega arith) same;
          same = same;
          kept = λ q v hq. hq;
          heap_grows = omega arith;
          heap_use = omega arith;
          rest = refl;
        }

    -- A new page has no role yet, and no path leads to it.
    new_page-ne : (q : ℕ) (v : List ℕ) → role q ≡ some v → q ≢ s.heap_ptr
    new_page-ne q v hq e = omega (arith, t.below q v hq)

    Ensured-fresh :
        base (s.memory (entry p i)) ≡ 0
        → s.heap_ptr + 4096 ≤ s.layout.heap_end
        → Ensured root role s p i w
    unfolding present_or_new clear_table armv8_heap_get_page
    Ensured-fresh based room =
        let c = s.heap_ptr in
        let next = s.heap_ptr + 4096 in
        let role' = with_role role c (i ∷ w) in
        let fits : (s.heap_ptr + 4096) % 2 ^ 64 ≡ s.heap_ptr + 4096 = omega (arith, t.heap_bound) in
        let free : ltb s.layout.heap_end (s.heap_ptr + 4096) ≡ false =
          le→ltb s.layout.heap_end (s.heap_ptr + 4096) room in
        let apart : (j : ℕ) → j < 512 → entry c j ≢ entry p i =
          λ j hj e. omega (arith, t.below p w hp) in
        let blank : (j : ℕ) → j < 512 → linked_memory p i c s.memory (entry c j) ≡ 0 = λ j hj.
          linked-cleared p i c s.memory t.word j hj (apart j hj)
          ∙ ap (λ x. x / 4 * 4) (t.blank (entry c j) (omega arith)) in
        let linked : IsLinked role role' s (linked_state s p i c next) p i c w = record {
          kept = λ q v hq. rw (ne→== q c (new_page-ne q v hq)) hq;
          old_or_c = λ q v hq other. rw (ne→== q c other) at hq;
          linked = rw (eq→== c c refl) refl;
          link = linked-link p i c s.memory t.word;
          c_aligned = t.heap_aligned;
          c_pos = λ z. omega (arith, t.below root [] t.root_role);
          c_bound = omega (arith, t.heap_bound);
          c_below = omega arith;
          cleared = λ j hj. ap (λ x. x % 4) (blank j hj);
          leads = λ j hj deep ne. absurd (ne (ap base (blank j hj)));
          same = λ a below other outside. linked-other p i c s.memory t.word a other outside;
          word' = linked-word p i c s.memory t.word (omega (arith, t.heap_bound));
          blank' = λ a high.
              linked-other p i c s.memory t.word a (λ e. omega (arith, t.below p w hp))
                (λ j hj e. omega arith)
              ∙ t.blank a (omega arith);
          heap_grows = omega arith;
          heap_aligned' = omega (arith, t.heap_aligned);
          layout_same = refl;
        } in
        let unreached : (v : List ℕ) → length v ≤ 3 → Live s.memory root v c → ⊥ =
          λ v short live. new_page-ne c v (Live-role v c t short live) refl in
        let same = link-same t hp hi linked absent unreached in
        record {
          after = linked_state s p i c next;
          descriptor = c + 3;
          role' = role';
          done =
              rw
                (
                  clear_flags,
                  address-base (s.memory (entry p i)),
                  based,
                  fits,
                  free,
                  table-or c t.heap_aligned,
                )
                refl;
          tree = IsLinked-IsTree t hp hi linked;
          live = linked-Live c next t.heap_aligned (omega (arith, t.heap_bound)) same;
          same = same;
          kept = linked.kept;
          heap_grows = omega arith;
          heap_use = omega arith;
          rest = refl;
        }

  -- In each case the block returns a descriptor that leads to the table of its indices, and keeps
  -- every present entry that the processor can reach.
  pub present_or_new-Ensured : s.heap_ptr + 4096 ≤ s.layout.heap_end → Ensured root role s p i w
  present_or_new-Ensured room = elim (t.flags p w i hp hw hi) [
    | inr present ↦ Ensured-present present
    | inl absent ↦ elim (eq_or_ne (base (s.memory (entry p i))) 0) [
      | inl none_yet ↦ Ensured-fresh absent none_yet room
      | inr based ↦ Ensured-stale absent based
    ]
  ]
