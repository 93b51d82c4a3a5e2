-- ===== src/Armv8/Walk.antt =====
-- The processor's translation on ARMv8 with 48-bit addresses and pages of 4 KB.
use simbench.Base.{
  ℕ, ◌/◌, ◌%◌, ◌^◌, ◌==◌, if◌then◌else◌, ◌≡◌, refl, arith, Option, none, some, List, [], ◌∷◌, eq→==,
}
use simbench.Armv8.Entries.{base, entry}
use simbench.Armv8.Tree.{Live}

-- One level of a walk: the table behind a table descriptor; the last level: a page descriptor.
unfoldable pub next_table : (ℕ → ℕ) → ℕ → ℕ → Option ℕ
next_table f table i = if f (entry table i) % 4 == 3 then some (base (f (entry table i))) else none

unfoldable pub leaf_entry : (ℕ → ℕ) → ℕ → ℕ → Option ℕ
leaf_entry f table i = if f (entry table i) % 4 == 3 then some (f (entry table i)) else none

infixl 5 ◌>>=◌
abbrev ◌>>=◌ : Option ℕ → (ℕ → Option ℕ) → Option ℕ
none >>= k = none
some x >>= k = k x

-- The walk from `root`: the descriptor that translates `va`, if there is one.
unfoldable pub walk : (ℕ → ℕ) → ℕ → ℕ → Option ℕ
walk f root va = do
  l1 ← next_table f root (va / 2 ^ 39 % 512)
  l2 ← next_table f l1 (va / 2 ^ 30 % 512)
  l3 ← next_table f l2 (va / 2 ^ 21 % 512)
  leaf_entry f l3 (va / 2 ^ 12 % 512)

-- The indices of the tables on the walk, the last one first.
abbrev pub path_of : ℕ → List ℕ
path_of va = (va / 2 ^ 21 % 512) ∷ (va / 2 ^ 30 % 512) ∷ (va / 2 ^ 39 % 512) ∷ []

-- A successful walk: a table that is reached and a page descriptor in it.
pub record Walked (f : ℕ → ℕ) (root va e : ℕ) : Type 0 where
  pub table : ℕ
  pub live : Live f root (path_of va) table
  pub present : f (entry table (va / 2 ^ 12 % 512)) % 4 ≡ 3
  pub at : f (entry table (va / 2 ^ 12 % 512)) ≡ e

next_table-eq :
    (f : ℕ → ℕ) (table i next : ℕ)
    → f (entry table i) % 4 ≡ 3
    → base (f (entry table i)) ≡ next
    → next_table f table i ≡ some next
unfolding next_table
next_table-eq f table i next odd to = rw (eq→== _ 3 odd, to)

leaf_entry-eq :
    (f : ℕ → ℕ) (table i e : ℕ)
    → f (entry table i) % 4 ≡ 3
    → f (entry table i) ≡ e
    → leaf_entry f table i ≡ some e
unfolding leaf_entry
leaf_entry-eq f table i e odd at = rw (eq→== _ 3 odd, at)

pub Walked-walk : (f : ℕ → ℕ) (root va e : ℕ) → Walked f root va e → walk f root va ≡ some e
unfolding walk
Walked-walk f root va e w =
    let (l2, _, (l1, _, (l0, _, to0, odd0, is1), odd1, is2), odd2, is3) = w.live in
    rw (
      next_table-eq f root (va / 2 ^ 39 % 512) l1 (rw to0 at odd0) (rw to0 at is1),
      next_table-eq f l1 (va / 2 ^ 30 % 512) l2 odd1 is2,
      next_table-eq f l2 (va / 2 ^ 21 % 512) w.table odd2 is3,
      leaf_entry-eq f w.table (va / 2 ^ 12 % 512) e w.present w.at,
    )

next_table-inv :
    (f : ℕ → ℕ) (table i next : ℕ)
    → next_table f table i ≡ some next
    → (f (entry table i) % 4 ≡ 3) × (base (f (entry table i)) ≡ next)
unfolding next_table
next_table-inv f table i next h = ground arith

leaf_entry-inv :
    (f : ℕ → ℕ) (table i e : ℕ)
    → leaf_entry f table i ≡ some e
    → (f (entry table i) % 4 ≡ 3) × (f (entry table i) ≡ e)
unfolding leaf_entry
leaf_entry-inv f table i e h = ground arith

>>=-eq-some :
    (o : Option ℕ) (k : ℕ → Option ℕ) {e : ℕ}
    → (o >>= k) ≡ some e
    → (x : ℕ) × (o ≡ some x) × (k x ≡ some e)
>>=-eq-some none k h = cc
>>=-eq-some (some x) k h = (x, refl, h)

pub walk-Walked : (f : ℕ → ℕ) (root va e : ℕ) → walk f root va ≡ some e → Walked f root va e
unfolding walk
walk-Walked f root va e h =
    let (l1, h0, k0) = >>=-eq-some (next_table f root (va / 2 ^ 39 % 512)) _ h in
    let (l2, h1, k1) = >>=-eq-some (next_table f l1 (va / 2 ^ 30 % 512)) _ k0 in
    let (l3, h2, k2) = >>=-eq-some (next_table f l2 (va / 2 ^ 21 % 512)) _ k1 in
    let (o0, t0) = next_table-inv f root (va / 2 ^ 39 % 512) l1 h0 in
    let (o1, t1) = next_table-inv f l1 (va / 2 ^ 30 % 512) l2 h1 in
    let (o2, t2) = next_table-inv f l2 (va / 2 ^ 21 % 512) l3 h2 in
    let (o3, at) = leaf_entry-inv f l3 (va / 2 ^ 12 % 512) e k2 in
    record {
      table = l3;
      live =
          (l2, omega arith, (l1, omega arith, (root, omega arith, refl, o0, t0), o1, t1), o2, t2);
      present = o3;
      at = at;
    }
