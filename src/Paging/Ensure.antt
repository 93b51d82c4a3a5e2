-- ===== src/Paging/Ensure.antt =====
-- The block of `__create_page_mapping` (arch/x86_64/mem.c) that makes one table present.
use simbench.Base.{
  ℕ, ◌+◌, ◌%◌, ◌^◌, ◌≤◌, ◌<◌, ◌==◌, leb, ◌≡◌, ◌≢◌, inl, refl, ◌∙◌, ap, true, false, arith, some,
  List, ◌∷◌, length, eq→==, ne→==,
}
use simbench.Paging.Bits.{base_of, get_base_address-eq, set_flags-eq, is_present-eq}
use simbench.Paging.Entry.{get_base_address, set_base_address, set_flags, is_present}
use simbench.Paging.Machine.{Machine, update, fast_zero_page, heap_alloc_page}
use simbench.Paging.Map.{entry_at, table_flags, ensure_table}
use simbench.Paging.Tree.{Roles, IsTree, IsLinked, IsLinked-IsTree}

pub update_self : (f : ℕ → ℕ) (a v : ℕ) → update f a v a ≡ v
update_self f a v = rw (eq→== a a refl)

pub update_ne : (f : ℕ → ℕ) (a v b : ℕ) → b ≢ a → update f a v b ≡ f b
update_ne f a v b h = rw (ne→== b a h)

-- The three outcomes of the block, by the entry that it finds.
abbrev pub with_entry : Machine → ℕ → ℕ → Machine
with_entry s a e = record s { memory = update s.memory a e }

abbrev pub with_page : Machine → Machine
with_page s = record s {
  heap_cur = (s.heap_cur + 0x1000) % 2 ^ 64;
  memory = fast_zero_page s.heap_cur s.memory;
}

module _ (s : Machine) (a : ℕ) where
  pub ensure_present :
      is_present (s.memory a) ≡ true → ensure_table a s ≡ some (get_base_address (s.memory a), s)
  unfolding ensure_table
  ensure_present e = rw e

  pub ensure_old_page :
      is_present (s.memory a) ≡ false
      → (get_base_address (s.memory a) == 0) ≡ false
      → let e = set_flags (s.memory a) table_flags in
        ensure_table a s ≡ some (get_base_address (update s.memory a e a), with_entry s a e)
  unfolding ensure_table
  ensure_old_page absent based = rw (absent, based)

  pub ensure_fresh_page :
      is_present (s.memory a) ≡ false
      → (get_base_address (s.memory a) == 0) ≡ true
      → leb s.heap_end s.heap_cur ≡ false
      → let t = with_page s in
        let u = with_entry t a (set_base_address (t.memory a) s.heap_cur) in
        let e = set_flags (u.memory a) table_flags in
        ensure_table a s ≡ some (get_base_address (update u.memory a e a), with_entry u a e)
  unfolding ensure_table heap_alloc_page
  ensure_fresh_page absent unbased room = rw (absent, unbased, room)

pub fast_zero_below : (page : ℕ) (f : ℕ → ℕ) (b : ℕ) → b < page → fast_zero_page page f b ≡ f b
unfolding fast_zero_page
fast_zero_below page f b h = ground arith

pub fast_zero_inside :
    (page : ℕ) (f : ℕ → ℕ) (b : ℕ) → page ≤ b → b < page + 4096 → fast_zero_page page f b ≡ 0
unfolding fast_zero_page
fast_zero_inside page f b h k = ground arith

-- The block at entry `i` of the table `p`, whose role is `w`: what it returns and what it changed.
pub record Ensured (root : ℕ) (role : Roles) (s : Machine) (p i : ℕ) (w : List ℕ) : Type 0 where
  pub after : Machine
  pub table : ℕ
  pub role' : Roles
  pub returns : ensure_table (entry_at p i) s ≡ some (table, after)
  pub tree : IsTree root role' after
  pub kept : (q : ℕ) (v : List ℕ) → role q ≡ some v → role' q ≡ some v
  pub table_role : role' table ≡ some (i ∷ w)
  pub present : after.memory (entry_at p i) % 2 ≡ 1
  pub points : base_of (after.memory (entry_at p i)) ≡ table
  pub same : (b : ℕ) → b < s.heap_cur → b ≢ entry_at p i → after.memory b ≡ s.memory b
  pub still :
      s.memory (entry_at p i) % 2 ≡ 1 → after.memory (entry_at p i) ≡ s.memory (entry_at p i)
  pub no_page : s.memory (entry_at p i) % 2 ≡ 1 → after.heap_cur ≡ s.heap_cur
  pub heap_grows : s.heap_cur ≤ after.heap_cur
  pub heap_use : after.heap_cur ≤ s.heap_cur + 4096
  pub heap_end_same : after.heap_end ≡ s.heap_end
  pub runtime_same : after.runtime_pagetables ≡ s.runtime_pagetables

module _ {root : ℕ} {role : Roles} {s : Machine} {p i : ℕ} {w : List ℕ} (t : IsTree root role s)
    (hp : role p ≡ some w) (hw : length w < 3) (hi : i < 512) where
  abbrev pub a : ℕ
  a = entry_at p i

  abbrev pub e : ℕ
  e = s.memory a

  pub a_below : a < s.heap_cur
  a_below = omega (arith, t.below p w hp)

  pub Ensured-present : is_present e ≡ true → Ensured root role s p i w
  Ensured-present h =
      let odd : e % 2 ≡ 1 = ground (arith, is_present-eq e) in
      let based : base_of e ≢ 0 = λ z. omega (arith, t.vacant p w i hp hw hi z) in
      record {
        after = s;
        table = base_of e;
        role' = role;
        returns = ensure_present s a h ∙ ap (λ c. some (c, s)) (get_base_address-eq e);
        tree = t;
        kept = λ q v hq. hq;
        table_role = t.child p w i hp hw hi based;
        present = odd;
        points = refl;
        same = λ b hb ne. refl;
        still = λ o. refl;
        no_page = λ o. refl;
        heap_grows = omega arith;
        heap_use = omega arith;
        heap_end_same = refl;
        runtime_same = refl;
      }

  abbrev relinked : Machine
  relinked = with_entry s a (set_flags e table_flags)

  relinked_entry : relinked.memory a ≡ base_of e + 7
  relinked_entry = update_self s.memory a _ ∙ set_flags-eq e table_flags

  relink : base_of e ≢ 0 → IsLinked role role s relinked p i (base_of e) w
  relink based = record {
    kept = λ q v hq. hq;
    old_or_fresh = λ q v hq. inl hq;
    linked = t.child p w i hp hw hi based;
    entry = relinked_entry;
    c_aligned = omega arith;
    c_pos = based;
    c_below = t.below (base_of e) (i ∷ w) (t.child p w i hp hw hi based);
    c_bound = omega arith;
    same = λ b hb ne. update_ne s.memory a _ b ne;
    heap_grows = omega arith;
    heap_aligned' = t.heap_aligned;
    heap_end_same = refl;
  }

  pub Ensured-relinked : is_present e ≡ false → base_of e ≢ 0 → Ensured root role s p i w
  Ensured-relinked h based = record {
    after = relinked;
    table = base_of e;
    role' = role;
    returns =
        ensure_old_page s a h (ne→== _ 0 (rw (get_base_address-eq e) based))
        ∙ ap (λ c. some (c, relinked)) (get_base_address-eq _ ∙ omega (arith, relinked_entry));
    tree = IsLinked-IsTree t hp hi (relink based);
    kept = λ q v hq. hq;
    table_role = t.child p w i hp hw hi based;
    present = omega (arith, relinked_entry);
    points = omega (arith, relinked_entry);
    same = λ b hb ne. update_ne s.memory a _ b ne;
    still = λ odd. ground (arith, is_present-eq e);
    no_page = λ odd. refl;
    heap_grows = omega arith;
    heap_use = omega arith;
    heap_end_same = refl;
    runtime_same = refl;
  }
