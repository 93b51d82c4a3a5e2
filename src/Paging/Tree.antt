-- ===== src/Paging/Tree.antt =====
-- The shape that the tables of arch/x86_64/mem.c keep, and the processor's walk through them.
use simbench.Base.{
  ℕ, ◌+◌, ◌*◌, ◌/◌, ◌%◌, ◌^◌, ◌≤◌, ◌<◌, ◌==◌, ◌≡◌, ◌≢◌, ◌⊎◌, inl, inr, ◌∙◌, ap, arith, Option, some,
  List, [], ◌∷◌, length, ==_iff, Bool-cases,
}
use simbench.Paging.Bits.{base_of}
use simbench.Paging.Machine.{Machine}
use simbench.Paging.Map.{entry_at}

-- Which table a page is: the indices that lead to it from the root, the last one first.
abbrev pub Roles : Type 0
Roles = ℕ → Option (List ℕ)

-- The low three bits of an entry, and 8 for the page size bit: 7 for an entry that leads to a table and
-- leaves the pages below it present, writable and open to user mode.
abbrev pub grants : ℕ → ℕ
grants e = e % 8 + 8 * (e / 2 ^ 7 % 2)

-- `role` names every table below `root`. Each has one role, so no page serves as two tables, and
-- every entry of the upper three levels that holds a page leads to the table of its own indices. A
-- present one takes no right from the pages below it.
pub record IsTree (root : ℕ) (role : Roles) (s : Machine) : Type 0 where
  pub root_role : role root ≡ some []
  pub aligned : (p : ℕ) (w : List ℕ) → role p ≡ some w → p % 4096 ≡ 0
  pub below : (p : ℕ) (w : List ℕ) → role p ≡ some w → p + 4096 ≤ s.heap_cur
  pub child :
      (p : ℕ) (w : List ℕ) (i : ℕ)
      → role p ≡ some w
      → length w < 3
      → i < 512
      → base_of (s.memory (entry_at p i)) ≢ 0
      → role (base_of (s.memory (entry_at p i))) ≡ some (i ∷ w)
  pub vacant :
      (p : ℕ) (w : List ℕ) (i : ℕ)
      → role p ≡ some w
      → length w < 3
      → i < 512
      → base_of (s.memory (entry_at p i)) ≡ 0
      → s.memory (entry_at p i) % 2 ≡ 0
  pub rights :
      (p : ℕ) (w : List ℕ) (i : ℕ)
      → role p ≡ some w
      → length w < 3
      → i < 512
      → s.memory (entry_at p i) % 2 ≡ 1
      → grants (s.memory (entry_at p i)) ≡ 7
  pub heap_aligned : s.heap_cur % 4096 ≡ 0
  pub heap_bound : s.heap_end + 4096 ≤ 2 ^ 64

-- Two entries at one address are one entry of one table.
pub entry_at-injective :
    (p q i j : ℕ)
    → p % 4096 ≡ 0
    → q % 4096 ≡ 0
    → i < 512
    → j < 512
    → entry_at p i ≡ entry_at q j
    → (p ≡ q) × (i ≡ j)
entry_at-injective p q i j hp hq hi hj e = (omega arith, omega arith)

pub same_role :
    (role : Roles) {p q : ℕ} {w v : List ℕ} → role p ≡ some w → role q ≡ some v → p ≡ q → w ≡ v
same_role role hp hq e = cc

-- What linking the table `c` under entry `i` of `p` did to memory and roles.
pub record IsLinked (role role' : Roles) (s s' : Machine) (p i c : ℕ) (w : List ℕ) : Type 0 where
  pub kept : (q : ℕ) (v : List ℕ) → role q ≡ some v → role' q ≡ some v
  pub old_or_fresh :
      (q : ℕ) (v : List ℕ)
      → role' q ≡ some v
      → (role q ≡ some v)
        ⊎ ((q ≡ c) × (v ≡ i ∷ w) × ((j : ℕ) → j < 512 → s'.memory (entry_at q j) ≡ 0))
  pub linked : role' c ≡ some (i ∷ w)
  pub entry : s'.memory (entry_at p i) ≡ c + 7
  pub c_aligned : c % 4096 ≡ 0
  pub c_pos : c ≢ 0
  pub c_below : c + 4096 ≤ s'.heap_cur
  pub c_bound : c < 2 ^ 64
  pub same : (b : ℕ) → b < s.heap_cur → b ≢ entry_at p i → s'.memory b ≡ s.memory b
  pub heap_grows : s.heap_cur ≤ s'.heap_cur
  pub heap_aligned' : s'.heap_cur % 4096 ≡ 0
  pub heap_end_same : s'.heap_end ≡ s.heap_end

module _ {root : ℕ} {role role' : Roles} {s s' : Machine} {p i c : ℕ} {w : List ℕ}
    (t : IsTree root role s) (hp : role p ≡ some w) (hi : i < 512)
    (l : IsLinked role role' s s' p i c w) where
  -- An entry of an old table is the linked one, or is as it was.
  entry_cases :
      (q : ℕ) (v : List ℕ) (j : ℕ)
      → role q ≡ some v
      → j < 512
      → ((v ≡ w) × (j ≡ i) × (s'.memory (entry_at q j) ≡ c + 7))
        ⊎ (s'.memory (entry_at q j) ≡ s.memory (entry_at q j))
  entry_cases q v j hq hj = elim (Bool-cases (entry_at q j == entry_at p i)) [
    | inl hit ↦
        let e = (==_iff (entry_at q j) (entry_at p i)).0 hit in
        let (pq, ij) = entry_at-injective q p j i (t.aligned q v hq) (t.aligned p w hp) hj hi e in
        inl (same_role role hq hp pq, ij, ap s'.memory e ∙ l.entry)
    | inr miss ↦ inr (l.same (entry_at q j) (omega (arith, t.below q v hq)) (ground arith))
  ]

  new_child :
      (q : ℕ) (v : List ℕ) (j : ℕ)
      → role' q ≡ some v
      → length v < 3
      → j < 512
      → base_of (s'.memory (entry_at q j)) ≢ 0
      → role' (base_of (s'.memory (entry_at q j))) ≡ some (j ∷ v)
  new_child q v j hq hv hj ne = elim (l.old_or_fresh q v hq) [
    | inr (_, _, zeroed) ↦ absurd (ne (ap base_of (zeroed j hj)))
    | inl old ↦ elim (entry_cases q v j old hj) [
      | inl (vw, ji, here) ↦
          let is_c : base_of (s'.memory (entry_at q j)) ≡ c =
            omega (arith, here, l.c_aligned, l.c_bound) in
          rw (is_c, vw, ji) l.linked
      | inr there ↦ rw there (l.kept _ _ (t.child q v j old hv hj (rw there at ne)))
    ]
  ]

  new_vacant :
      (q : ℕ) (v : List ℕ) (j : ℕ)
      → role' q ≡ some v
      → length v < 3
      → j < 512
      → base_of (s'.memory (entry_at q j)) ≡ 0
      → s'.memory (entry_at q j) % 2 ≡ 0
  new_vacant q v j hq hv hj e = elim (l.old_or_fresh q v hq) [
    | inr (_, _, zeroed) ↦ rw (zeroed j hj)
    | inl old ↦ elim (entry_cases q v j old hj) [
      | inl (vw, ji, here) ↦ absurd (omega (arith, here, l.c_aligned, l.c_bound, l.c_pos, e))
      | inr there ↦ rw there (t.vacant q v j old hv hj (rw there at e))
    ]
  ]

  new_rights :
      (q : ℕ) (v : List ℕ) (j : ℕ)
      → role' q ≡ some v
      → length v < 3
      → j < 512
      → s'.memory (entry_at q j) % 2 ≡ 1
      → grants (s'.memory (entry_at q j)) ≡ 7
  new_rights q v j hq hv hj odd = elim (l.old_or_fresh q v hq) [
    | inr (_, _, zeroed) ↦ absurd (omega (arith, zeroed j hj, odd))
    | inl old ↦ elim (entry_cases q v j old hj) [
      | inl (_, _, here) ↦ omega (arith, here, l.c_aligned)
      | inr there ↦ rw there (t.rights q v j old hv hj (rw there at odd))
    ]
  ]

  new_aligned : (q : ℕ) (v : List ℕ) → role' q ≡ some v → q % 4096 ≡ 0
  new_aligned q v hq = elim (l.old_or_fresh q v hq) [
    | inl old ↦ t.aligned q v old
    | inr (qc, _, _) ↦ rw qc l.c_aligned
  ]

  new_below : (q : ℕ) (v : List ℕ) → role' q ≡ some v → q + 4096 ≤ s'.heap_cur
  new_below q v hq = elim (l.old_or_fresh q v hq) [
    | inl old ↦ omega (arith, t.below q v old, l.heap_grows)
    | inr (qc, _, _) ↦ rw qc l.c_below
  ]

  -- Linking a table keeps the shape.
  pub IsLinked-IsTree : IsTree root role' s'
  IsLinked-IsTree = record {
    root_role = l.kept root [] t.root_role;
    aligned = new_aligned;
    below = new_below;
    child = new_child;
    vacant = new_vacant;
    rights = new_rights;
    heap_aligned = l.heap_aligned';
    heap_bound = omega (arith, t.heap_bound, l.heap_end_same);
  }
