-- ===== src/Util/Tests.antt =====
-- The byte routines and the spinner at concrete inputs.
use simbench.Base.{ℕ, ◌≡◌, refl, inl, inr, arith, [], ◌∷◌}
use simbench.Util.Bytes.{copy_bytes, memcpy}
use simbench.Util.Copy.{IsCopied, memcpy-IsCopied, IsMoved, memmove-IsMoved}
use simbench.Util.Spinner.{Spinner, debug_spinner, debug_spinner_start, spins, IsSpun, spins-IsSpun}

abbrev bytes : ℕ → ℕ
bytes a = a

-- An overlapping copy upwards repeats the first two bytes.
repeats : (memcpy 12 10 4 bytes).1 15 ≡ 11
unfolding memcpy copy_bytes
repeats = refl

memcpy-IsCopied_example : IsCopied 12 10 4 bytes
memcpy-IsCopied_example = memcpy-IsCopied 12 10 4 bytes

memmove-IsMoved_example : IsMoved 100 12 10 4 bytes
memmove-IsMoved_example = memmove-IsMoved 100 12 10 4 bytes (inr (omega arith)) (inl (omega arith))

abbrev spinner : Spinner
spinner = record { counter_rollover = 0; counter = 0; counter_index = 0; printed = [] }

twice : (spins 5 (debug_spinner_start 2 spinner)).printed ≡ 45 ∷ 8 ∷ 47 ∷ 8 ∷ 32 ∷ []
unfolding debug_spinner debug_spinner_start
twice = refl

spins-IsSpun_example : IsSpun 2 5 spinner
spins-IsSpun_example = spins-IsSpun 2 5 spinner (omega arith) (omega arith)
