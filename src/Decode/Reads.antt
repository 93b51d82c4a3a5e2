-- ===== src/Decode/Reads.antt =====
-- How many bytes a reader of arch/x86_64/decode.c takes, and that it looks at no others.
use simbench.Base.{
  ℕ, ◌+◌, ◌≤◌, ◌≡◌, ◌≢◌, refl, ap, sym, ◌∙◌, Bool, true, false, if◌then◌else◌, List, [], ◌∷◌, ◌++◌,
  length, length-append, arith,
}
use mathlib.Core.List.{append_assoc}
use simbench.Decode.Cursor.{Result, ok, refused, fault, Cursor, pure, refuse, and_then, ◌>>=◌, next}

-- A success took `used` off the front, and does not depend on what is appended behind.
pub record IsTaken {A : Type 0} (lo hi : ℕ) (m : Cursor A) (code : List ℕ) (a : A) (rest : List ℕ)
    : Type 0 where
  pub used : List ℕ
  pub split : code ≡ used ++ rest
  pub at_least : lo ≤ length used
  pub at_most : length used ≤ hi
  pub extend : (more : List ℕ) → m (code ++ more) ≡ ok a (rest ++ more)

-- Each success takes `lo` to `hi` bytes, and `hi` bytes are enough not to fault.
pub record Reads {A : Type 0} (lo hi : ℕ) (m : Cursor A) : Type 0 where
  pub takes :
      (code : List ℕ) (a : A) (rest : List ℕ) → m code ≡ ok a rest → IsTaken lo hi m code a rest
  pub enough : (code : List ℕ) → hi ≤ length code → m code ≢ fault

pub and_then-eq-ok :
    {A B : Type 0} (r : Result A) (k : A → Cursor B) {b : B} {rest : List ℕ}
    → and_then r k ≡ ok b rest
    → (a : A) × (mid : List ℕ) × (r ≡ ok a mid) × (k a mid ≡ ok b rest)
and_then-eq-ok (ok a mid) k h = (a, mid, refl, h)
and_then-eq-ok refused k h = cc
and_then-eq-ok fault k h = cc

pub and_then-ne-fault :
    {A B : Type 0} (r : Result A) (k : A → Cursor B)
    → r ≢ fault
    → ((a : A) (mid : List ℕ) → r ≡ ok a mid → k a mid ≢ fault)
    → and_then r k ≢ fault
and_then-ne-fault (ok a mid) k h g e = g a mid refl e
and_then-ne-fault refused k h g e = cc
and_then-ne-fault fault k h g e = h refl

pub Reads-pure : {A : Type 0} (a : A) → Reads 0 0 (pure a)
Reads-pure a = record {
  takes = λ code b rest e. record {
    used = [];
    split = cc;
    at_least = omega arith;
    at_most = omega arith;
    extend = λ more. cc;
  };
  enough = λ code h e. cc;
}

pub Reads-refuse : {A : Type 0} (lo hi : ℕ) → Reads {A = A} lo hi refuse
Reads-refuse lo hi = record { takes = λ code a rest e. cc; enough = λ code h e. cc }

next-IsTaken :
    (code : List ℕ) (a : ℕ) (rest : List ℕ) → next code ≡ ok a rest → IsTaken 1 1 next code a rest
next-IsTaken [] a rest e = cc
next-IsTaken (b ∷ code) a rest e = record {
  used = b ∷ [];
  split = cc;
  at_least = omega arith;
  at_most = omega arith;
  extend = λ more. cc;
}

next-ne-fault : (code : List ℕ) → 1 ≤ length code → next code ≢ fault
next-ne-fault [] h e = elim h [ ]
next-ne-fault (b ∷ code) h e = cc

pub Reads-next : Reads 1 1 next
Reads-next = record { takes = next-IsTaken; enough = next-ne-fault }

pub length-split :
    {code : List ℕ} (used rest : List ℕ)
    → code ≡ used ++ rest
    → length code ≡ length used + length rest
length-split used rest e = ap length e ∙ length-append used rest

pub Reads->>= :
    {A B : Type 0} {l h l' h' : ℕ} (m : Cursor A) (k : A → Cursor B)
    → Reads l h m
    → ((a : A) → Reads l' h' (k a))
    → Reads (l + l') (h + h') (m >>= k)
Reads->>= {B} {l} {h} {l'} {h'} m k rm rk = record { takes = took; enough = fits }
  where
    took :
        (code : List ℕ) (b : B) (rest : List ℕ)
        → (m >>= k) code ≡ ok b rest
        → IsTaken (l + l') (h + h') (m >>= k) code b rest
    took code b rest e =
        let (a, mid, e1, e2) = and_then-eq-ok (m code) k e in
        let t1 = rm.takes code a mid e1 in
        let t2 = (rk a).takes mid b rest e2 in
        record {
          used = t1.used ++ t2.used;
          split =
              t1.split ∙ ap (λ w. t1.used ++ w) t2.split ∙ sym (append_assoc t1.used t2.used rest);
          at_least = omega (arith, length-append t1.used t2.used, t1.at_least, t2.at_least);
          at_most = omega (arith, length-append t1.used t2.used, t1.at_most, t2.at_most);
          extend = λ more. ap (λ r. and_then r k) (t1.extend more) ∙ t2.extend more;
        }

    fits : (code : List ℕ) → h + h' ≤ length code → (m >>= k) code ≢ fault
    fits code long = and_then-ne-fault (m code) k (rm.enough code (omega arith)) λ a mid e.
        let t = rm.takes code a mid e in
        (rk a).enough mid (omega (arith, length-split t.used mid t.split, t.at_most))

pub Reads-weaken :
    {A : Type 0} {l h l' h' : ℕ} {m : Cursor A} → Reads l h m → l' ≤ l → h ≤ h' → Reads l' h' m
Reads-weaken r p q = record {
  takes = λ code a rest e.
      let t = r.takes code a rest e in
      record {
        used = t.used;
        split = t.split;
        at_least = omega (arith, t.at_least);
        at_most = omega (arith, t.at_most);
        extend = t.extend;
      };
  enough = λ code h. r.enough code (omega arith);
}

pub Reads-if :
    {A : Type 0} {l h : ℕ} (b : Bool) (m n : Cursor A)
    → Reads l h m
    → Reads l h n
    → Reads l h (if b then m else n)
Reads-if true m n rm rn = rm
Reads-if false m n rm rn = rn
