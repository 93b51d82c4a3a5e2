-- ===== src/Paging/Fresh.antt =====
-- The block of `__create_page_mapping` (arch/x86_64/mem.c) on every entry, a fresh page included.
use simbench.Base.{
  ℕ, ◌+◌, ◌^◌, ◌<◌, ◌==◌, ◌≡◌, ◌≢◌, ◌⊎◌, inl, inr, refl, ◌∙◌, ap, false, if◌then◌else◌, arith, some,
  List, ◌∷◌, length, ==_iff, eq→==, ne→==, Bool-cases,
}
use simbench.Paging.Bits.{
  base_of, get_base_address-eq, set_base_address-eq, set_flags-eq, is_present-eq,
}
use simbench.Paging.Entry.{set_base_address, set_flags, is_present}
use simbench.Paging.Machine.{Machine}
use simbench.Paging.Map.{entry_at, table_flags}
use simbench.Paging.Tree.{Roles, IsTree, IsLinked, IsLinked-IsTree}
use simbench.Paging.Ensure.{
  with_entry, with_page, update_self, update_ne, fast_zero_below, fast_zero_inside,
  ensure_fresh_page, Ensured, Ensured-present, Ensured-relinked,
}

module _ {root : ℕ} {role : Roles} {s : Machine} {p i : ℕ} {w : List ℕ} (t : IsTree root role s)
    (hp : role p ≡ some w) (hw : length w < 3) (hi : i < 512) (room : s.heap_cur < s.heap_end) where
  abbrev a : ℕ
  a = entry_at p i

  abbrev page : ℕ
  page = s.heap_cur

  a_below : a < page
  a_below = omega (arith, t.below p w hp)

  abbrev cleared : Machine
  cleared = with_page s

  abbrev based : Machine
  based = with_entry cleared a (set_base_address (cleared.memory a) page)

  abbrev linked : Machine
  linked = with_entry based a (set_flags (based.memory a) table_flags)

  page_bound : page < 2 ^ 64
  page_bound = omega (arith, t.heap_bound)

  based_entry : base_of (based.memory a) ≡ page
  based_entry = omega (
    arith,
    update_self cleared.memory a (set_base_address (cleared.memory a) page),
    set_base_address-eq (cleared.memory a) page,
    t.heap_aligned,
    page_bound,
  )

  linked_entry : linked.memory a ≡ page + 7
  linked_entry =
      update_self based.memory a _
      ∙ set_flags-eq (based.memory a) table_flags
      ∙ omega (arith, based_entry)

  linked_other : (b : ℕ) → b ≢ a → linked.memory b ≡ cleared.memory b
  linked_other b ne = update_ne based.memory a _ b ne ∙ update_ne cleared.memory a _ b ne

  linked_same : (b : ℕ) → b < page → b ≢ a → linked.memory b ≡ s.memory b
  linked_same b hb ne = linked_other b ne ∙ fast_zero_below page s.memory b hb

  linked_zero : (j : ℕ) → j < 512 → linked.memory (entry_at page j) ≡ 0
  linked_zero j hj =
      linked_other (entry_at page j) (omega (arith, a_below))
      ∙ fast_zero_inside page s.memory (entry_at page j) (omega arith) (omega arith)

  heap_after : linked.heap_cur ≡ page + 4096
  heap_after = omega (arith, t.heap_bound)

  role_after : Roles
  role_after q = if q == page then some (i ∷ w) else role q

  role_kept : (q : ℕ) (v : List ℕ) → role q ≡ some v → role_after q ≡ some v
  unfolding role_after
  role_kept q v hq = rw (ne→== q page (omega (arith, t.below q v hq))) hq

  role_cases :
      (q : ℕ) (v : List ℕ)
      → role_after q ≡ some v
      → (role q ≡ some v)
        ⊎ ((q ≡ page) × (v ≡ i ∷ w) × ((j : ℕ) → j < 512 → linked.memory (entry_at q j) ≡ 0))
  unfolding role_after
  role_cases q v hq = elim (Bool-cases (q == page)) [
    | inl hit ↦
        let is_page : q ≡ page = (==_iff q page).0 hit in
        let is_role : some (i ∷ w) ≡ some v = rw hit at hq in
        inr (is_page, cc, λ j hj. rw is_page (linked_zero j hj))
    | inr miss ↦ inl (rw miss at hq)
  ]

  role_page : role_after page ≡ some (i ∷ w)
  unfolding role_after
  role_page = rw (eq→== page page refl)

  fresh_link : page ≢ 0 → IsLinked role role_after s linked p i page w
  fresh_link pos = record {
    kept = role_kept;
    old_or_fresh = role_cases;
    linked = role_page;
    entry = linked_entry;
    c_aligned = t.heap_aligned;
    c_pos = pos;
    c_below = omega (arith, heap_after);
    c_bound = page_bound;
    same = linked_same;
    heap_grows = omega (arith, heap_after);
    heap_aligned' = omega (arith, heap_after, t.heap_aligned);
    heap_end_same = refl;
  }

  Ensured-fresh :
      is_present (s.memory a) ≡ false → base_of (s.memory a) ≡ 0 → Ensured root role s p i w
  Ensured-fresh h zeroed =
      let pos : page ≢ 0 = omega (arith, a_below) in
      record {
        after = linked;
        table = page;
        role' = role_after;
        returns =
            ensure_fresh_page s a h (eq→== _ 0 (get_base_address-eq (s.memory a) ∙ zeroed))
              (ground arith)
            ∙ ap (λ c. some (c, linked))
                (get_base_address-eq _ ∙ omega (arith, linked_entry, t.heap_aligned, page_bound));
        tree = IsLinked-IsTree t hp hi (fresh_link pos);
        kept = role_kept;
        table_role = role_page;
        present = omega (arith, linked_entry, t.heap_aligned);
        points = omega (arith, linked_entry, t.heap_aligned, page_bound);
        same = linked_same;
        still = λ odd. ground (arith, is_present-eq (s.memory a));
        no_page = λ odd. ground (arith, is_present-eq (s.memory a));
        heap_grows = omega (arith, heap_after);
        heap_use = omega (arith, heap_after);
        heap_end_same = refl;
        runtime_same = refl;
      }

  -- With a page left on the heap the block returns, on every entry.
  pub ensure_table-Ensured : Ensured root role s p i w
  ensure_table-Ensured = elim (Bool-cases (is_present (s.memory a))) [
    | inl h ↦ Ensured-present t hp hw hi h
    | inr h ↦ elim (Bool-cases (base_of (s.memory a) == 0)) [
      | inl z ↦ Ensured-fresh h ((==_iff (base_of (s.memory a)) 0).0 z)
      | inr n ↦ Ensured-relinked t hp hw hi h (ground arith)
    ]
  ]
