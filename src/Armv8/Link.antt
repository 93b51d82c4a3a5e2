-- ===== src/Armv8/Link.antt =====
-- Linking a cleared table under an entry keeps the shape of the tables of arch/armv8/txln_table.c.
use simbench.Base.{
  ℕ, suc, ◌+◌, ◌%◌, ◌^◌, ◌≤◌, ◌<◌, ◌≡◌, ◌≢◌, ◌⊎◌, inl, inr, ap, ◌∙◌, arith, some, List, [], ◌∷◌,
  length, eq_or_ne,
}
use simbench.Armv8.State.{Core}
use simbench.Armv8.Entries.{base, entry}
use simbench.Armv8.Tree.{Roles, IsTree, Live, Live-role, entry-injective, same_role}

-- What linking the table `c` under entry `i` of `p` did.
pub record IsLinked (role role' : Roles) (s t : Core) (p i c : ℕ) (w : List ℕ) : Type 0 where
  pub kept : (q : ℕ) (v : List ℕ) → role q ≡ some v → role' q ≡ some v
  pub old_or_c : (q : ℕ) (v : List ℕ) → role' q ≡ some v → q ≢ c → role q ≡ some v
  pub linked : role' c ≡ some (i ∷ w)
  pub link : t.memory (entry p i) ≡ c + 3
  pub c_aligned : c % 4096 ≡ 0
  pub c_pos : c ≢ 0
  pub c_bound : c < 2 ^ 48
  pub c_below : c + 4096 ≤ t.heap_ptr
  pub cleared : (j : ℕ) → j < 512 → t.memory (entry c j) % 4 ≡ 0
  pub leads :
      (j : ℕ)
      → j < 512
      → suc (length w) < 3
      → base (t.memory (entry c j)) ≢ 0
      → role' (base (t.memory (entry c j))) ≡ some (j ∷ i ∷ w)
  pub same :
      (a : ℕ)
      → a < s.heap_ptr
      → a ≢ entry p i
      → ((j : ℕ) → j < 512 → a ≢ entry c j)
      → t.memory a ≡ s.memory a
  pub word' : (a : ℕ) → t.memory a < 2 ^ 64
  pub blank' : (a : ℕ) → t.heap_ptr ≤ a → t.memory a ≡ 0
  pub heap_grows : s.heap_ptr ≤ t.heap_ptr
  pub heap_aligned' : t.heap_ptr % 4096 ≡ 0
  pub layout_same : t.layout ≡ s.layout

module _ {root : ℕ} {role role' : Roles} {s t : Core} {p i c : ℕ} {w : List ℕ}
    (tree : IsTree root role s) (hp : role p ≡ some w) (hi : i < 512)
    (l : IsLinked role role' s t p i c w) where
  -- An entry of another table than `c` is the link or is as it was.
  entry_same :
      (q : ℕ) (v : List ℕ) (j : ℕ)
      → role q ≡ some v
      → j < 512
      → q ≢ c
      → entry q j ≢ entry p i
      → t.memory (entry q j) ≡ s.memory (entry q j)
  entry_same q v j hq hj other apart =
      l.same (entry q j) (omega (arith, tree.below q v hq)) apart
        (λ k hk e. other (entry-injective q c j k (tree.aligned q v hq) l.c_aligned hj hk e).0)

  entry_cases :
      (q : ℕ) (v : List ℕ) (j : ℕ)
      → role' q ≡ some v
      → j < 512
      → ((q ≡ c) × (v ≡ i ∷ w))
        ⊎ (((v ≡ w) × (j ≡ i) × (t.memory (entry q j) ≡ c + 3))
            ⊎ ((role q ≡ some v) × (t.memory (entry q j) ≡ s.memory (entry q j))))
  entry_cases q v j hq hj = elim (eq_or_ne q c) [
    | inl is_c ↦ inl (is_c, same_role role' hq l.linked is_c)
    | inr other ↦
        let old = l.old_or_c q v hq other in
        elim (eq_or_ne (entry q j) (entry p i)) [
          | inl hit ↦
              let (pq, ij) =
                entry-injective q p j i (tree.aligned q v old) (tree.aligned p w hp) hj hi hit in
              inr (inl (same_role role old hp pq, ij, ap t.memory hit ∙ l.link))
          | inr miss ↦ inr (inr (old, entry_same q v j old hj other miss))
        ]
  ]

  new_child :
      (q : ℕ) (v : List ℕ) (j : ℕ)
      → role' q ≡ some v
      → length v < 3
      → j < 512
      → base (t.memory (entry q j)) ≢ 0
      → role' (base (t.memory (entry q j))) ≡ some (j ∷ v)
  new_child q v j hq hv hj ne = elim (entry_cases q v j hq hj) [
    | inl (qc, vw) ↦ rw (qc, vw) (l.leads j hj (omega (arith, ap length vw)) (rw qc at ne))
    | inr (inl (vw, ji, here)) ↦
        let is_c : base (t.memory (entry q j)) ≡ c = omega (arith, here, l.c_aligned, l.c_bound) in
        rw (is_c, vw, ji) l.linked
    | inr (inr (old, there)) ↦ rw there (l.kept _ _ (tree.child q v j old hv hj (rw there at ne)))
  ]

  new_vacant :
      (q : ℕ) (v : List ℕ) (j : ℕ)
      → role' q ≡ some v
      → length v < 3
      → j < 512
      → base (t.memory (entry q j)) ≡ 0
      → t.memory (entry q j) % 4 ≡ 0
  new_vacant q v j hq hv hj e = elim (entry_cases q v j hq hj) [
    | inl (qc, _) ↦ rw qc (l.cleared j hj)
    | inr (inl (_, _, here)) ↦ absurd (omega (arith, here, l.c_aligned, l.c_bound, l.c_pos, e))
    | inr (inr (old, there)) ↦ rw there (tree.vacant q v j old hv hj (rw there at e))
  ]

  new_flags :
      (q : ℕ) (v : List ℕ) (j : ℕ)
      → role' q ≡ some v
      → length v < 3
      → j < 512
      → (t.memory (entry q j) % 4 ≡ 0) ⊎ (t.memory (entry q j) % 4 ≡ 3)
  new_flags q v j hq hv hj = elim (entry_cases q v j hq hj) [
    | inl (qc, _) ↦ inl (rw qc (l.cleared j hj))
    | inr (inl (_, _, here)) ↦ inr (omega (arith, here, l.c_aligned))
    | inr (inr (old, there)) ↦ rw there (tree.flags q v j old hv hj)
  ]

  new_aligned : (q : ℕ) (v : List ℕ) → role' q ≡ some v → q % 4096 ≡ 0
  new_aligned q v hq = elim (eq_or_ne q c) [
    | inl is_c ↦ rw is_c l.c_aligned
    | inr other ↦ tree.aligned q v (l.old_or_c q v hq other)
  ]

  new_below : (q : ℕ) (v : List ℕ) → role' q ≡ some v → q + 4096 ≤ t.heap_ptr
  new_below q v hq = elim (eq_or_ne q c) [
    | inl is_c ↦ rw is_c l.c_below
    | inr other ↦ omega (arith, tree.below q v (l.old_or_c q v hq other), l.heap_grows)
  ]

  pub IsLinked-IsTree : IsTree root role' t
  IsLinked-IsTree = record {
    root_role = l.kept root [] tree.root_role;
    aligned = new_aligned;
    below = new_below;
    child = new_child;
    vacant = new_vacant;
    flags = new_flags;
    word = l.word';
    blank = l.blank';
    heap_aligned = l.heap_aligned';
    heap_bound = omega (arith, tree.heap_bound, ap (λ x. x.heap_end) l.layout_same);
  }

  -- Where the entry was absent and `c` was not reached, all present entries that are reached stay.
  module _ (absent : s.memory (entry p i) % 4 ≡ 0)
      (unreached : (v : List ℕ) → length v ≤ 3 → Live s.memory root v c → ⊥) where
    pub link-same :
        (v : List ℕ) (q j : ℕ)
        → length v ≤ 3
        → Live s.memory root v q
        → j < 512
        → s.memory (entry q j) % 4 ≡ 3
        → t.memory (entry q j) ≡ s.memory (entry q j)
    link-same v q j short live hj present =
        entry_same q v j (Live-role v q tree short live) hj (λ e. unreached v short (rw e at live))
          (λ e. omega (arith, absent, present, ap (λ a. s.memory a % 4) e))
