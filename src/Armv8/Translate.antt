-- ===== src/Armv8/Translate.antt =====
-- A mapping of arch/armv8/txln_table.c, as the processor then translates.
use simbench.Base.{
  ℕ, ◌+◌, ◌*◌, ◌/◌, ◌%◌, ◌^◌, ◌≤◌, ◌<◌, ◌≡◌, ◌≢◌, inl, inr, refl, ap, ◌∙◌, arith, some, List,
  length, eq_or_ne,
}
use simbench.Base.Outcome.{returns, pure, ◌>>=◌, ◌>>◌}
use simbench.Armv8.State.{Core, M, update, store}
use simbench.Armv8.Table.{get_l3_descriptor, leaf_table}
use simbench.Armv8.Entries.{entry, update_self, update_ne}
use simbench.Armv8.Tree.{Roles, IsTree, Live, Live-role, Live-same, entry-injective, same_role}
use simbench.Armv8.Levels.{Found, index_mask}
use simbench.Armv8.Walk.{walk, path_of, Walked, Walked-walk, walk-Walked}

-- A page is the address without its low 12 bits, within 48 bits.
abbrev pub page_of : ℕ → ℕ
page_of va = va / 2 ^ 12 % 2 ^ 36

-- A mapping of the page of `va` by the descriptor `d`: its result, the translation of the page and
-- of all others, the shape, and what stays.
pub record IsMapped (map : M ℕ) (root : ℕ) (role : Roles) (s : Core) (va d : ℕ) : Type 0 where
  pub after : Core
  pub role' : Roles
  pub done : map s ≡ returns 0 after
  pub tree : IsTree root role' after
  pub translates : walk after.memory root va ≡ some d
  pub others :
      (va' e : ℕ)
      → page_of va' ≢ page_of va
      → walk s.memory root va' ≡ some e
      → walk after.memory root va' ≡ some e
  pub heap_grows : s.heap_ptr ≤ after.heap_ptr
  pub heap_use : after.heap_ptr ≤ s.heap_ptr + 3 * 4096
  pub rest : after ≡ record s { memory = after.memory; heap_ptr = after.heap_ptr }

-- The part that the three mappings share.
abbrev pub put_leaf : ℕ → ℕ → M ℕ
put_leaf va d = leaf_table va >>= λ l3_table. store (get_l3_descriptor l3_table va) d >> pure 0

module _ {root : ℕ} {role : Roles} {s : Core} (va : ℕ) (x : Found root role s va) (d : ℕ)
    (d_bound : d < 2 ^ 64) (valid : d % 4 ≡ 3) where
  abbrev i3 : ℕ
  i3 = va / 2 ^ 12 % 512

  abbrev leaf : ℕ
  leaf = entry x.table i3

  pt_role : x.role' x.table ≡ some (path_of va)
  pt_role = Live-role (path_of va) x.table x.tree (omega arith) x.live

  abbrev after : Core
  after = record x.after { memory = update x.after.memory leaf d }

  put_leaf-eq : put_leaf va d s ≡ returns 0 after
  unfolding get_l3_descriptor
  put_leaf-eq = rw (x.done, index_mask (va / 2 ^ 12)) refl

  upper_same :
      (q : ℕ) (v : List ℕ) (j : ℕ)
      → x.role' q ≡ some v
      → length v < 3
      → j < 512
      → after.memory (entry q j) ≡ x.after.memory (entry q j)
  upper_same q v j hq short hj = update_ne x.after.memory leaf d (entry q j) (λ e.
      let (same, _) =
        entry-injective q x.table j i3 (x.tree.aligned q v hq) (x.tree.aligned x.table _ pt_role) hj
          (omega arith) e in
      omega (arith, ap length (same_role x.role' hq pt_role same)))

  after-IsTree : IsTree root x.role' after
  after-IsTree = record {
    root_role = x.tree.root_role;
    aligned = x.tree.aligned;
    below = x.tree.below;
    child = λ q v j hq short hj ne.
        let same = upper_same q v j hq short hj in
        rw same (x.tree.child q v j hq short hj (rw same at ne));
    vacant = λ q v j hq short hj e.
        let same = upper_same q v j hq short hj in
        rw same (x.tree.vacant q v j hq short hj (rw same at e));
    flags = λ q v j hq short hj. rw (upper_same q v j hq short hj) (x.tree.flags q v j hq short hj);
    word = λ a. elim (eq_or_ne a leaf) [
      | inl here ↦ rw (here, update_self x.after.memory leaf d) d_bound
      | inr other ↦ rw (update_ne x.after.memory leaf d a other) (x.tree.word a)
    ];
    blank = λ a high.
        update_ne x.after.memory leaf d a (λ e. omega (arith, x.tree.below x.table _ pt_role))
        ∙ x.tree.blank a high;
    heap_aligned = x.tree.heap_aligned;
    heap_bound = x.tree.heap_bound;
  }

  after-Live :
      (v : List ℕ) (q : ℕ)
      → length v ≤ 3
      → Live x.after.memory root v q
      → Live after.memory root v q
  after-Live v q short live =
      Live-same x.after.memory after.memory root v q
        (λ u r j shorter reached hj present.
          upper_same r u j (Live-role u r x.tree (omega arith) reached) (omega arith) hj)
        live

  new_Walked : Walked after.memory root va d
  new_Walked =
      let at = update_self x.after.memory leaf d in
      record {
        table = x.table;
        live = after-Live (path_of va) x.table (omega arith) x.live;
        present = ap (λ x. x % 4) at ∙ valid;
        at = at;
      }

  -- The leaf entry of another page is another entry.
  leaf_ne :
      (va' q : ℕ)
      → page_of va' ≢ page_of va
      → x.role' q ≡ some (path_of va')
      → entry q (va' / 2 ^ 12 % 512) ≢ leaf
  leaf_ne va' q apart hq hit =
      let (same, low) =
        entry-injective q x.table (va' / 2 ^ 12 % 512) i3 (x.tree.aligned q _ hq)
          (x.tree.aligned x.table _ pt_role) (omega arith) (omega arith) hit in
      let path = same_role x.role' hq pt_role same in
      let c2 : va' / 2 ^ 21 % 512 ≡ va / 2 ^ 21 % 512 = cc in
      let c1 : va' / 2 ^ 30 % 512 ≡ va / 2 ^ 30 % 512 = cc in
      let c0 : va' / 2 ^ 39 % 512 ≡ va / 2 ^ 39 % 512 = cc in apart (omega arith)

  old_Walked :
      (va' e : ℕ)
      → page_of va' ≢ page_of va
      → Walked s.memory root va' e
      → Walked after.memory root va' e
  old_Walked va' e apart w =
      let live = x.live_kept (path_of va') w.table (omega arith) w.live in
      let at_table = Live-role (path_of va') w.table x.tree (omega arith) live in
      let same =
        update_ne x.after.memory leaf d (entry w.table (va' / 2 ^ 12 % 512))
          (leaf_ne va' w.table apart at_table)
        ∙ x.kept (path_of va') w.table (va' / 2 ^ 12 % 512) (omega arith) w.live (omega arith)
            w.present in
      record {
        table = w.table;
        live = after-Live (path_of va') w.table (omega arith) live;
        present = ap (λ x. x % 4) same ∙ w.present;
        at = same ∙ w.at;
      }

  pub put_leaf-IsMapped : IsMapped (put_leaf va d) root role s va d
  put_leaf-IsMapped = record {
    after = after;
    role' = x.role';
    done = put_leaf-eq;
    tree = after-IsTree;
    translates = Walked-walk after.memory root va d new_Walked;
    others = λ va' e apart h.
        Walked-walk after.memory root va' e
          (old_Walked va' e apart (walk-Walked s.memory root va' e h));
    heap_grows = x.heap_grows;
    heap_use = x.heap_use;
    rest = ap (λ (y : Core). record y { memory = after.memory }) x.rest;
  }
