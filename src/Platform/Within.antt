-- ===== src/Platform/Within.antt =====
-- Runs that keep a predicate of the bus, and those whose accesses all lie in a set of addresses.
use simbench.Base.{ℕ, Bool, true, false, if◌then◌else◌, List, [], ◌∷◌}
use simbench.Platform.Bus.{
  Access, load, store, Bus, M, Devices, Outcome, returns, aborts, unfinished, and_then, ◌>>◌, ◌>>=◌,
  load32, store32, or32,
}

abbrev pub AllIn : (ℕ → Type 0) → List Access → Type 0
AllIn In [] = Unit {0}
AllIn In (load a v ∷ rest) = In a × AllIn In rest
AllIn In (store a v ∷ rest) = In a × AllIn In rest

abbrev pub EndsIn : (Bus → Type 0) → {A : Type 0} → Outcome Bus A → Type 0
EndsIn P (returns a t) = P t
EndsIn P aborts = Unit {0}
EndsIn P unfinished = Unit {0}

-- Where the run returns, the predicate holds again.
pub record IsKeeping (P : Bus → Type 0) {A : Type 0} (m : M A) : Type 0 where
  pub ends : (s : Bus) → P s → EndsIn P (m s)

-- The run makes no other access.
abbrev pub IsWithin : (ℕ → Type 0) → {A : Type 0} → M A → Type 0
IsWithin In m = IsKeeping (λ s. AllIn In s.accesses) m

pub load32-IsWithin :
    {In : ℕ → Type 0} (devices : Devices) {a : ℕ} → In a → IsWithin In (load32 devices a)
load32-IsWithin devices here = record { ends = λ s all. (here, all) }

pub store32-IsWithin : {In : ℕ → Type 0} {a : ℕ} (v : ℕ) → In a → IsWithin In (store32 a v)
store32-IsWithin v here = record { ends = λ s all. (here, all) }

pub or32-IsWithin :
    {In : ℕ → Type 0} (devices : Devices) {a : ℕ} (bits : ℕ)
    → In a
    → IsWithin In (or32 devices a bits)
or32-IsWithin devices bits here = record { ends = λ s all. (here, (here, all)) }

pub quiet-IsKeeping : {P : Bus → Type 0} → IsKeeping P (λ s. returns tt s)
quiet-IsKeeping = record { ends = λ s all. all }

pub aborts-IsKeeping : {P : Bus → Type 0} {A : Type 0} → IsKeeping P {A = A} (λ s. aborts)
aborts-IsKeeping = record { ends = λ s all. tt }

pub unfinished-IsKeeping : {P : Bus → Type 0} {A : Type 0} → IsKeeping P {A = A} (λ s. unfinished)
unfinished-IsKeeping = record { ends = λ s all. tt }

EndsIn-then :
    {P : Bus → Type 0} {A B : Type 0} (o : Outcome Bus A) (k : A → M B)
    → EndsIn P o
    → ((a : A) → IsKeeping P (k a))
    → EndsIn P (and_then o k)
EndsIn-then (returns a t) k all rest = (rest a).ends t all
EndsIn-then aborts k all rest = tt
EndsIn-then unfinished k all rest = tt

pub IsKeeping-bind :
    {P : Bus → Type 0} {A B : Type 0} {m : M A} {k : A → M B}
    → IsKeeping P m
    → ((a : A) → IsKeeping P (k a))
    → IsKeeping P (m >>= k)
IsKeeping-bind {m} {k} first rest = record {
  ends = λ s all. EndsIn-then (m s) k (first.ends s all) rest;
}

pub IsKeeping-then :
    {P : Bus → Type 0} {A B : Type 0} {m : M A} {n : M B}
    → IsKeeping P m
    → IsKeeping P n
    → IsKeeping P (m >> n)
IsKeeping-then first rest = IsKeeping-bind first (λ a. rest)

pub IsKeeping-if :
    {P : Bus → Type 0} {A : Type 0} (c : Bool) {m n : M A}
    → IsKeeping P m
    → IsKeeping P n
    → IsKeeping P (if c then m else n)
IsKeeping-if true taken other = taken
IsKeeping-if false taken other = other
