-- ===== src/Printf/Writes.antt =====
-- Changes that stay between two indices of the buffer.
use simbench.Base.{
  ℕ, zero, suc, ◌+◌, ◌≤◌, ◌<◌, ◌≡◌, ◌⊎◌, refl, ◌∙◌, arith, List, [], ◌∷◌, Option, some, length, set,
  get_elem?, length-set, lt→ltb,
}
use simbench.Printf.Buffer.{write, shift, prepend_to_buffer}

pub get_elem?-in :
    {A : Type 0} (xs : List A) (i : ℕ) → i < length xs → (a : A) × (get_elem? xs i ≡ some a)
get_elem?-in [] i h = absurd (omega arith)
get_elem?-in (x ∷ xs) zero h = (x, refl)
get_elem?-in (x ∷ xs) (suc i) h = get_elem?-in xs i (omega arith)

pub get_elem?-set-other :
    {A : Type 0} (xs : List A) (i j : ℕ) (v : A)
    → (i < j) ⊎ (j < i)
    → get_elem? (set xs i v) j ≡ get_elem? xs j
get_elem?-set-other [] i j v h = refl
get_elem?-set-other (x ∷ xs) zero zero v h = absurd (omega arith)
get_elem?-set-other (x ∷ xs) zero (suc j) v h = refl
get_elem?-set-other (x ∷ xs) (suc i) zero v h = refl
get_elem?-set-other (x ∷ xs) (suc i) (suc j) v h = get_elem?-set-other xs i j v (omega arith)

pub get_elem?-set :
    {A : Type 0} (xs : List A) (i : ℕ) (v : A) → i < length xs → get_elem? (set xs i v) i ≡ some v
get_elem?-set [] i v h = absurd (omega arith)
get_elem?-set (x ∷ xs) zero v h = refl
get_elem?-set (x ∷ xs) (suc i) v h = get_elem?-set xs i v (omega arith)

-- `after` is `buf` but for the characters from `lo` to below `hi`.
pub record IsWithin (lo hi : ℕ) (buf after : List ℕ) : Type 0 where
  pub length_same : length after ≡ length buf
  pub outside : (i : ℕ) → (i < lo) ⊎ (hi ≤ i) → get_elem? after i ≡ get_elem? buf i

pub IsWithin-nothing : (lo hi : ℕ) (buf : List ℕ) → IsWithin lo hi buf buf
IsWithin-nothing lo hi buf = record { length_same = refl; outside = λ i h. refl }

pub IsWithin-then :
    {lo hi lo' hi' : ℕ} {buf after after' : List ℕ} (lo'' hi'' : ℕ)
    → IsWithin lo hi buf after
    → IsWithin lo' hi' after after'
    → lo'' ≤ lo
    → lo'' ≤ lo'
    → hi ≤ hi''
    → hi' ≤ hi''
    → IsWithin lo'' hi'' buf after'
IsWithin-then lo'' hi'' first rest a b c d = record {
  length_same = rest.length_same ∙ first.length_same;
  outside = λ i h. rest.outside i (omega arith) ∙ first.outside i (omega arith);
}

-- A run on a buffer that returns, between `lo` and `hi`.
pub record IsRun (lo hi : ℕ) (buf : List ℕ) (run : Option (List ℕ)) : Type 0 where
  pub after : List ℕ
  pub done : run ≡ some after
  pub within : IsWithin lo hi buf after

pub write-IsRun : (i c : ℕ) (buf : List ℕ) → i < length buf → IsRun i (suc i) buf (write i c buf)
write-IsRun i c buf h = record {
  after = set buf i c;
  done = rw (lt→ltb i (length buf) h) refl;
  within = record {
    length_same = length-set buf i c;
    outside = λ j apart. get_elem?-set-other buf i j c (omega arith);
  };
}

shift-IsRun :
    (p i : ℕ) (buf : List ℕ) → p + i < length buf → IsRun p (p + suc i) buf (shift p i buf)
unfolding shift
shift-IsRun p zero buf h = record {
  after = buf;
  done = refl;
  within = IsWithin-nothing p (p + 1) buf;
}
shift-IsRun p (suc i) buf h =
    let got = get_elem?-in buf (p + i) (omega arith) in
    let put = write-IsRun (p + suc i) got.0 buf h in
    let rest = shift-IsRun p i put.after (omega (arith, put.within.length_same)) in
    record {
      after = rest.after;
      done = rw (got.1, put.done) rest.done;
      within =
          IsWithin-then p (p + suc (suc i)) put.within rest.within (omega arith) (omega arith)
            (omega arith) (omega arith);
    }

pub prepend-IsRun :
    (c p n : ℕ) (buf : List ℕ)
    → p + n < length buf
    → IsRun p (p + suc n) buf (prepend_to_buffer c p n buf)
unfolding prepend_to_buffer
prepend-IsRun c p n buf h =
    let moved = shift-IsRun p n buf h in
    let put = write-IsRun p c moved.after (omega (arith, moved.within.length_same)) in
    record {
      after = put.after;
      done = rw moved.done put.done;
      within =
          IsWithin-then p (p + suc n) moved.within put.within (omega arith) (omega arith)
            (omega arith) (omega arith);
    }
