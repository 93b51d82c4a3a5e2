-- ===== src/Armv8/Tree.antt =====
-- The shape that the tables of arch/armv8/txln_table.c keep, and the tables that the processor
-- reaches through present entries.
use simbench.Base.{
  ℕ, ◌+◌, ◌%◌, ◌^◌, ◌≤◌, ◌<◌, ◌≡◌, ◌≢◌, ◌⊎◌, ap, ◌∙◌, sym, arith, Option, some, List, [], ◌∷◌,
  length,
}
use simbench.Armv8.State.{Core}
use simbench.Armv8.Entries.{base, entry}

-- Which table a page is: the indices that lead to it from the root, the last one first.
abbrev pub Roles : Type 0
Roles = ℕ → Option (List ℕ)

-- Each table below `root` has one role. An entry of the upper three levels that holds an address
-- leads to the table of its own indices, also while it is not present, and is absent or a table
-- descriptor. The memory from the heap pointer on has not been used.
pub record IsTree (root : ℕ) (role : Roles) (s : Core) : Type 0 where
  pub root_role : role root ≡ some []
  pub aligned : (p : ℕ) (w : List ℕ) → role p ≡ some w → p % 4096 ≡ 0
  pub below : (p : ℕ) (w : List ℕ) → role p ≡ some w → p + 4096 ≤ s.heap_ptr
  pub child :
      (p : ℕ) (w : List ℕ) (i : ℕ)
      → role p ≡ some w
      → length w < 3
      → i < 512
      → base (s.memory (entry p i)) ≢ 0
      → role (base (s.memory (entry p i))) ≡ some (i ∷ w)
  pub vacant :
      (p : ℕ) (w : List ℕ) (i : ℕ)
      → role p ≡ some w
      → length w < 3
      → i < 512
      → base (s.memory (entry p i)) ≡ 0
      → s.memory (entry p i) % 4 ≡ 0
  pub flags :
      (p : ℕ) (w : List ℕ) (i : ℕ)
      → role p ≡ some w
      → length w < 3
      → i < 512
      → (s.memory (entry p i) % 4 ≡ 0) ⊎ (s.memory (entry p i) % 4 ≡ 3)
  pub word : (a : ℕ) → s.memory a < 2 ^ 64
  pub blank : (a : ℕ) → s.heap_ptr ≤ a → s.memory a ≡ 0
  pub heap_aligned : s.heap_ptr % 4096 ≡ 0
  pub heap_bound : s.layout.heap_end ≤ 2 ^ 48

-- The table at the end of a path of present entries.
abbrev pub Live : (ℕ → ℕ) → ℕ → List ℕ → ℕ → Type 0
Live f root [] q = q ≡ root
Live f root (i ∷ w) q =
    (p : ℕ) × (i < 512) × (Live f root w p) × (f (entry p i) % 4 ≡ 3) × (base (f (entry p i)) ≡ q)

pub Live-unique :
    (f : ℕ → ℕ) (root : ℕ) (w : List ℕ) (p q : ℕ) → Live f root w p → Live f root w q → p ≡ q
Live-unique f root [] p q hp hq = omega arith
Live-unique f root (i ∷ w) p q (p', _, to_p, _, is_p) (q', _, to_q, _, is_q) =
    let same = Live-unique f root w p' q' to_p to_q in
    sym is_p ∙ ap (λ t. base (f (entry t i))) same ∙ is_q

pub Live-role :
    {root : ℕ} {role : Roles} {s : Core}
    → (w : List ℕ) (q : ℕ) → IsTree root role s
    → length w ≤ 3
    → Live s.memory root w q
    → role q ≡ some w
Live-role {role} [] q t short live = rw live t.root_role
Live-role {role} (i ∷ w) q t short (p, small, to_p, present, is_q) =
    let at_p = Live-role w p t (omega arith) to_p in
    rw (← is_q) (
      t.child p w i at_p (omega arith) small
        (λ z. omega (arith, t.vacant p w i at_p (omega arith) small z)))

-- A path survives where the present entries on it do.
pub Live-same :
    (f g : ℕ → ℕ) (root : ℕ) (w : List ℕ) (q : ℕ)
    → ((v : List ℕ) (p j : ℕ)
        → length v < length w
        → Live f root v p
        → j < 512
        → f (entry p j) % 4 ≡ 3
        → g (entry p j) ≡ f (entry p j))
    → Live f root w q
    → Live g root w q
Live-same f g root [] q same live = live
Live-same f g root (i ∷ w) q same (p, small, to_p, present, is_q) =
    let at_i = same w p i (omega arith) to_p small present in
    (
      p,
      small,
      Live-same f g root w p (λ v t j short. same v t j (omega arith)) to_p,
      ap (λ d. d % 4) at_i ∙ present,
      ap base at_i ∙ is_q,
    )

-- Two entries at one address are one entry of one table.
pub entry-injective :
    (p q i j : ℕ)
    → p % 4096 ≡ 0
    → q % 4096 ≡ 0
    → i < 512
    → j < 512
    → entry p i ≡ entry q j
    → (p ≡ q) × (i ≡ j)
entry-injective p q i j hp hq hi hj e = (omega arith, omega arith)

pub same_role :
    (role : Roles) {p q : ℕ} {w v : List ℕ} → role p ≡ some w → role q ≡ some v → p ≡ q → w ≡ v
same_role role hp hq e = cc
