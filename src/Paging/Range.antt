-- ===== src/Paging/Range.antt =====
-- `map_page_ranges` of arch/x86_64/mem.c.
use simbench.Base.{
  ℕ, zero, suc, ◌+◌, ◌-◌, ◌*◌, ◌/◌, ◌%◌, ◌^◌, ◌≤◌, ◌<◌, ◌≡◌, ◌≢◌, refl, ◌∙◌, ap, arith, some,
}
use native.Mathlib.Decide.{dec_lt}
use simbench.Paging.Bits.{base_of}
use simbench.Paging.Machine.{Machine}
use simbench.Paging.Map.{create_page_mapping, mem_create_page_mapping_data, map_page_ranges}
use simbench.Paging.Tree.{Roles, IsTree}
use simbench.Paging.Walk.{walk}
use simbench.Paging.Mapping.{page_of, IsMapped, create_page_mapping-IsMapped}

-- What mapping `n` pages from `va` on to the frames from `pa` on did, with at most three heap pages
-- for each unit of `budget`.
pub record IsRangeMapped (root : ℕ) (role : Roles) (s : Machine) (pa va n budget : ℕ) : Type 0 where
  pub after : Machine
  pub role' : Roles
  pub returns : map_page_ranges pa va n s ≡ some (tt, after)
  pub tree : IsTree root role' after
  pub translates :
      (k : ℕ) → k < n → walk after.memory root (va + 4096 * k) ≡ some (base_of (pa + 4096 * k) + 7)
  pub others :
      (va' e : ℕ)
      → ((k : ℕ) → k < n → page_of va' ≢ page_of (va + 4096 * k))
      → walk s.memory root va' ≡ some e
      → walk after.memory root va' ≡ some e
  pub heap_grows : s.heap_cur ≤ after.heap_cur
  pub heap_use : after.heap_cur ≤ s.heap_cur + 3 * 4096 * budget
  pub heap_end_same : after.heap_end ≡ s.heap_end
  pub runtime_same : after.runtime_pagetables ≡ s.runtime_pagetables

-- One page through the table that `runtime_pagetables` points to.
pub mapping_data_eq :
    {root : ℕ} (pa va : ℕ) (s : Machine)
    → s.runtime_pagetables ≡ root
    → mem_create_page_mapping_data pa va s ≡ create_page_mapping root pa va s
unfolding mem_create_page_mapping_data
mapping_data_eq pa va s e = rw e

range_nil :
    {root : ℕ} {role : Roles} (s : Machine) (pa va : ℕ)
    → IsTree root role s
    → IsRangeMapped root role s pa va 0 0
unfolding map_page_ranges
range_nil {role} s pa va t = record {
  after = s;
  role' = role;
  returns = refl;
  tree = t;
  translates = λ k h. elim h [ ];
  others = λ va' e apart h. h;
  heap_grows = omega arith;
  heap_use = omega arith;
  heap_end_same = refl;
  runtime_same = refl;
}

module _ {root : ℕ} {role : Roles} {s : Machine} (pa va n : ℕ)
    (is_root : s.runtime_pagetables ≡ root) (va_bound : va + 4096 * suc n ≤ 2 ^ 48)
    (pa_bound : pa + 4096 * suc n < 2 ^ 64) (m : IsMapped root role s pa va) {budget : ℕ}
    (rest : IsRangeMapped root m.role' m.after (pa + 4096) (va + 4096) n budget) where
  cons_returns : map_page_ranges pa va (suc n) s ≡ some (tt, rest.after)
  unfolding map_page_ranges
  cons_returns =
      let wrap_pa : (pa + 4096) % 2 ^ 64 ≡ pa + 4096 = omega arith in
      let wrap_va : (va + 4096) % 2 ^ 64 ≡ va + 4096 = omega arith in
      rw (mapping_data_eq pa va s is_root, m.returns, wrap_pa, wrap_va) rest.returns

  cons_translates :
      (k : ℕ)
      → k < suc n
      → walk rest.after.memory root (va + 4096 * k) ≡ some (base_of (pa + 4096 * k) + 7)
  cons_translates zero h =
      let zero_va : va + 4096 * 0 ≡ va = omega arith in
      let zero_pa : pa + 4096 * 0 ≡ pa = omega arith in
      rw (zero_va, zero_pa) (rest.others va _ (λ k hk. omega arith) m.translates)
  cons_translates (suc k) h =
      let suc_va : va + 4096 * suc k ≡ va + 4096 + 4096 * k = omega arith in
      let suc_pa : pa + 4096 * suc k ≡ pa + 4096 + 4096 * k = omega arith in
      rw (suc_va, suc_pa) (rest.translates k (omega arith))

  cons_others :
      (va' e : ℕ)
      → ((k : ℕ) → k < suc n → page_of va' ≢ page_of (va + 4096 * k))
      → walk s.memory root va' ≡ some e
      → walk rest.after.memory root va' ≡ some e
  cons_others va' e apart h =
      rest.others va' e (λ k hk eq. apart (suc k) (omega arith) (eq ∙ ap page_of (omega arith)))
        (m.others va' e (λ eq. apart 0 (omega arith) (eq ∙ ap page_of (omega arith))) h)

  range_cons :
      (budget' : ℕ)
      → m.after.heap_cur + 3 * 4096 * budget ≤ s.heap_cur + 3 * 4096 * budget'
      → IsRangeMapped root role s pa va (suc n) budget'
  range_cons budget' cost = record {
    after = rest.after;
    role' = rest.role';
    returns = cons_returns;
    tree = rest.tree;
    translates = cons_translates;
    others = cons_others;
    heap_grows = omega (arith, m.heap_grows, rest.heap_grows);
    heap_use = omega (arith, cost, rest.heap_use);
    heap_end_same = rest.heap_end_same ∙ m.heap_end_same;
    runtime_same = rest.runtime_same ∙ m.runtime_same;
  }

-- The blocks of 2 MB that begin among the `n` pages from `va` on.
abbrev pub crossings : ℕ → ℕ → ℕ
crossings va n = (va / 4096 + n + 511) / 512 - (va / 4096 + 511) / 512

-- The rest of a range: the page before `va` is translated already.
range_behind :
    (n : ℕ) {root : ℕ} {role : Roles} (s : Machine) (pa va before e : ℕ)
    → IsTree root role s
    → s.runtime_pagetables ≡ root
    → walk s.memory root before ≡ some e
    → before + 4096 ≡ va
    → s.heap_cur + 3 * 4096 * (crossings va n + 1) ≤ s.heap_end
    → va + 4096 * n ≤ 2 ^ 48
    → pa + 4096 * n < 2 ^ 64
    → IsRangeMapped root role s pa va n (crossings va n)
range_behind zero s pa va before e t is_root walked next room hv hp =
    rw zero_crossings (range_nil s pa va t)
  where
    zero_crossings : crossings va 0 ≡ 0
    zero_crossings = omega arith
range_behind (suc n) s pa va before e t is_root walked next room hv hp =
    let m = create_page_mapping-IsMapped t (omega arith) pa va in
    let cost : m.after.heap_cur + 3 * 4096 * crossings (va + 4096) n
        ≤ s.heap_cur + 3 * 4096 * crossings va (suc n) =
      elim (dec_lt 0 (va / 4096 % 512)) [
        | yes inside ↦ omega (arith, m.shared before e (omega arith) walked)
        | no start ↦ omega (arith, m.heap_use)
      ] in
    let rest =
      range_behind n m.after (pa + 4096) (va + 4096) va _ m.tree (m.runtime_same ∙ is_root)
        m.translates refl (omega (arith, cost, m.heap_end_same)) (omega arith) (omega arith) in
    range_cons pa va n is_root hv hp m rest (crossings va (suc n)) cost

range_widen :
    {root : ℕ} {role : Roles} {s : Machine} {pa va n budget budget' : ℕ}
    → IsRangeMapped root role s pa va n budget
    → budget ≤ budget'
    → IsRangeMapped root role s pa va n budget'
range_widen r h = record {
  after = r.after;
  role' = r.role';
  returns = r.returns;
  tree = r.tree;
  translates = r.translates;
  others = r.others;
  heap_grows = r.heap_grows;
  heap_use = omega (arith, r.heap_use);
  heap_end_same = r.heap_end_same;
  runtime_same = r.runtime_same;
}

-- The heap pages that a range may need, in threes: for its first page and for each block of 2 MB
-- that begins behind it.
abbrev pub range_budget : ℕ → ℕ → ℕ
range_budget va n = 1 + crossings (va + 4096) (n - 1)

-- With heap pages for the 2 MB blocks of the range and no wrap-around, `map_page_ranges` returns;
-- page `k` of the range is then translated to frame `k`, every other page that was translated is
-- translated as before, and the tables keep their shape.
pub map_page_ranges-IsRangeMapped :
    {root : ℕ} {role : Roles} (s : Machine) (pa va n : ℕ)
    → IsTree root role s
    → s.runtime_pagetables ≡ root
    → s.heap_cur + 3 * 4096 * (range_budget va n + 1) ≤ s.heap_end
    → va + 4096 * n ≤ 2 ^ 48
    → pa + 4096 * n < 2 ^ 64
    → IsRangeMapped root role s pa va n (range_budget va n)
map_page_ranges-IsRangeMapped s pa va zero t is_root room hv hp =
    range_widen (range_nil s pa va t) (omega arith)
map_page_ranges-IsRangeMapped s pa va (suc n) t is_root room hv hp =
    let m = create_page_mapping-IsMapped t (omega arith) pa va in
    let rest =
      range_behind n m.after (pa + 4096) (va + 4096) va _ m.tree (m.runtime_same ∙ is_root)
        m.translates refl (omega (arith, m.heap_use, m.heap_end_same)) (omega arith)
        (omega arith) in
    range_cons pa va n is_root hv hp m rest (range_budget va (suc n)) (omega (arith, m.heap_use))
