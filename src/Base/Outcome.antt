-- ===== src/Base/Outcome.antt =====
-- State passing for code that may abort or loop: a shared monad.
-- `aborts` is `arch_abort`, which does not return; `unfinished` is a loop that ran out of fuel.
pub data Outcome (S A : Type 0) : Type 0 where
  returns : A → S → Outcome S A
  aborts unfinished : Outcome S A

abbrev pub and_then : {S A B : Type 0} → Outcome S A → (A → S → Outcome S B) → Outcome S B
and_then (returns a s) k = k a s
and_then aborts k = aborts
and_then unfinished k = unfinished

infixl 5 ◌>>=◌ ◌>>◌
abbrev pub ◌>>=◌ : {S A B : Type 0} → (S → Outcome S A) → (A → S → Outcome S B) → S → Outcome S B
m >>= k = λ s. and_then (m s) k

abbrev pub ◌>>◌ : {S A B : Type 0} → (S → Outcome S A) → (S → Outcome S B) → S → Outcome S B
m >> k = m >>= λ _. k

abbrev pub pure : {S A : Type 0} → A → S → Outcome S A
pure a s = returns a s

abbrev pub modify : {S : Type 0} → (S → S) → S → Outcome S (Unit {0})
modify f s = returns tt (f s)
