-- ===== src/Paging/Walk.antt =====
-- The processor's translation, and what the steps of `__create_page_mapping` (arch/x86_64/mem.c)
-- leave of it.
use simbench.Base.{
  ℕ, ◌/◌, ◌%◌, ◌^◌, ◌<◌, ◌==◌, ◌≡◌, ◌≢◌, inl, inr, refl, ◌∙◌, sym, ap, if◌then◌else◌, arith, Option,
  none, some, List, ◌∷◌, length, ==_iff, eq→==, Bool-cases,
}
use simbench.Paging.Bits.{base_of}
use simbench.Paging.Machine.{Machine}
use simbench.Paging.Map.{entry_at}
use simbench.Paging.Tree.{Roles, grants, IsTree, entry_at-injective, same_role}
use simbench.Paging.Ensure.{Ensured}

-- One level of a walk for a write in user mode: the table behind an entry that is present, writable and
-- open to user mode, and not itself a large page.
unfoldable pub next_table : (ℕ → ℕ) → ℕ → ℕ → Option ℕ
next_table f table i =
    if grants (f (entry_at table i)) == 7 then some (base_of (f (entry_at table i))) else none

-- The last level: a present entry.
unfoldable pub leaf_entry : (ℕ → ℕ) → ℕ → ℕ → Option ℕ
leaf_entry f table i = if f (entry_at table i) % 2 == 1 then some (f (entry_at table i)) else none

infixl 5 ◌>>=◌
abbrev ◌>>=◌ : Option ℕ → (ℕ → Option ℕ) → Option ℕ
none >>= k = none
some x >>= k = k x

-- The 4-level walk of the processor from `root`: the entry that translates `va`, if there is one.
unfoldable pub walk : (ℕ → ℕ) → ℕ → ℕ → Option ℕ
walk f root va = do
  pdp_table ← next_table f root (va / 2 ^ 39 % 512)
  pd_table ← next_table f pdp_table (va / 2 ^ 30 % 512)
  pt_table ← next_table f pd_table (va / 2 ^ 21 % 512)
  leaf_entry f pt_table (va / 2 ^ 12 % 512)

-- The entry is present.
pub odd_of : (e : ℕ) → grants e ≡ 7 → e % 2 ≡ 1
odd_of e rights = omega (arith, rights)

-- The tables and the entry of a successful walk.
pub record Walked (f : ℕ → ℕ) (root va e : ℕ) : Type 0 where
  pub pdp : ℕ
  pub pd : ℕ
  pub pt : ℕ
  pub open0 : grants (f (entry_at root (va / 2 ^ 39 % 512))) ≡ 7
  pub to_pdp : base_of (f (entry_at root (va / 2 ^ 39 % 512))) ≡ pdp
  pub open1 : grants (f (entry_at pdp (va / 2 ^ 30 % 512))) ≡ 7
  pub to_pd : base_of (f (entry_at pdp (va / 2 ^ 30 % 512))) ≡ pd
  pub open2 : grants (f (entry_at pd (va / 2 ^ 21 % 512))) ≡ 7
  pub to_pt : base_of (f (entry_at pd (va / 2 ^ 21 % 512))) ≡ pt
  pub odd3 : f (entry_at pt (va / 2 ^ 12 % 512)) % 2 ≡ 1
  pub at : f (entry_at pt (va / 2 ^ 12 % 512)) ≡ e

next_table-eq :
    (f : ℕ → ℕ) (table i next : ℕ)
    → grants (f (entry_at table i)) ≡ 7
    → base_of (f (entry_at table i)) ≡ next
    → next_table f table i ≡ some next
unfolding next_table
next_table-eq f table i next rights to = rw (eq→== _ 7 rights, to)

leaf_entry-eq :
    (f : ℕ → ℕ) (table i e : ℕ)
    → f (entry_at table i) % 2 ≡ 1
    → f (entry_at table i) ≡ e
    → leaf_entry f table i ≡ some e
unfolding leaf_entry
leaf_entry-eq f table i e odd at = rw (eq→== _ 1 odd, at)

pub Walked-walk : (f : ℕ → ℕ) (root va e : ℕ) → Walked f root va e → walk f root va ≡ some e
unfolding walk
Walked-walk f root va e w = rw (
  next_table-eq f root _ w.pdp w.open0 w.to_pdp,
  next_table-eq f w.pdp _ w.pd w.open1 w.to_pd,
  next_table-eq f w.pd _ w.pt w.open2 w.to_pt,
  leaf_entry-eq f w.pt _ e w.odd3 w.at,
)

next_table-inv :
    (f : ℕ → ℕ) (table i next : ℕ)
    → next_table f table i ≡ some next
    → (grants (f (entry_at table i)) ≡ 7) × (base_of (f (entry_at table i)) ≡ next)
unfolding next_table
next_table-inv f table i next h = ground arith

leaf_entry-inv :
    (f : ℕ → ℕ) (table i e : ℕ)
    → leaf_entry f table i ≡ some e
    → (f (entry_at table i) % 2 ≡ 1) × (f (entry_at table i) ≡ e)
unfolding leaf_entry
leaf_entry-inv f table i e h = ground arith

>>=-eq-some :
    (o : Option ℕ) (k : ℕ → Option ℕ) {e : ℕ}
    → (o >>= k) ≡ some e
    → (x : ℕ) × (o ≡ some x) × (k x ≡ some e)
>>=-eq-some none k h = cc
>>=-eq-some (some x) k h = (x, refl, h)

pub walk-Walked : (f : ℕ → ℕ) (root va e : ℕ) → walk f root va ≡ some e → Walked f root va e
unfolding walk
walk-Walked f root va e h =
    let (pdp, h0, k0) = >>=-eq-some (next_table f root _) _ h in
    let (pd, h1, k1) = >>=-eq-some (next_table f pdp _) _ k0 in
    let (pt, h2, k2) = >>=-eq-some (next_table f pd _) _ k1 in
    let (o0, t0) = next_table-inv f root _ pdp h0 in
    let (o1, t1) = next_table-inv f pdp _ pd h1 in
    let (o2, t2) = next_table-inv f pd _ pt h2 in
    let (o3, at) = leaf_entry-inv f pt _ e k2 in
    record {
      pdp = pdp;
      pd = pd;
      pt = pt;
      open0 = o0;
      to_pdp = t0;
      open1 = o1;
      to_pd = t1;
      open2 = o2;
      to_pt = t2;
      odd3 = o3;
      at = at;
    }

-- A present entry of a table leads to a table with a role.
pub child_role :
    {root : ℕ} {role : Roles} {s : Machine}
    → IsTree root role s
    → (p i c : ℕ) (w : List ℕ) → role p ≡ some w
    → length w < 3
    → i < 512
    → s.memory (entry_at p i) % 2 ≡ 1
    → base_of (s.memory (entry_at p i)) ≡ c
    → role c ≡ some (i ∷ w)
child_role t p i c w hp hw hi odd to =
    rw (← to) (t.child p w i hp hw hi λ z. omega (arith, t.vacant p w i hp hw hi z))

-- Making a table present leaves every present entry of a table as it was.
pub Ensured-keeps :
    {root : ℕ} {role : Roles} {s : Machine} {p i : ℕ} {w : List ℕ}
    → IsTree root role s
    → (x : Ensured root role s p i w) → (q j : ℕ) (v : List ℕ) → role q ≡ some v
    → j < 512
    → s.memory (entry_at q j) % 2 ≡ 1
    → x.after.memory (entry_at q j) ≡ s.memory (entry_at q j)
Ensured-keeps {s} {p} {i} t x q j v hq hj odd = elim (Bool-cases (entry_at q j == entry_at p i)) [
  | inl hit ↦
      let e = (==_iff (entry_at q j) (entry_at p i)).0 hit in
      ap x.after.memory e ∙ x.still (ap (λ b. s.memory b % 2) (sym e) ∙ odd) ∙ ap s.memory (sym e)
  | inr miss ↦ x.same (entry_at q j) (omega (arith, t.below q v hq)) (ground arith)
]

-- Tables at different depths have no entry in common.
pub entry_ne :
    {root : ℕ} {role : Roles} {s : Machine}
    → IsTree root role s
    → (p q i j : ℕ) (w v : List ℕ) → role p ≡ some w
    → role q ≡ some v
    → length w ≢ length v
    → i < 512
    → j < 512
    → entry_at p i ≢ entry_at q j
entry_ne {role} t p q i j w v hp hq ne hi hj e =
    let (pq, ij) = entry_at-injective p q i j (t.aligned p w hp) (t.aligned q v hq) hi hj e in
    ne (ap length (same_role role hp hq pq))
