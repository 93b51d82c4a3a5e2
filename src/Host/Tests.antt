-- ===== src/Host/Tests.antt =====
-- The host on the output of the harness for one benchmark, with a clock that ticks once a character.
use simbench.Base.{ℕ, ◌*◌, ◌==◌, refl, arith, if◌then◌else◌, [], ◌∷◌, Option, none, some, drop}
use simbench.Harness.Tests.{wiring, copro, wiring-IsWired, copro-IsPrintable}
use simbench.Host.Input.{Input, is_spinner}
use simbench.Host.Timer.{Timespec, Header}
use simbench.Host.Times.{IsQuiet}
use simbench.Host.Protocol.{Scans, IsReported, host_main-IsReported}

abbrev clock : ℕ → Timespec
clock n = record { tv_sec = 1; tv_nsec = n * 100 }

abbrev header : Header
header = record { category = 105 ∷ 111 ∷ []; benchmark = 99 ∷ 112 ∷ []; iterations = 250 }

-- The header takes ten characters behind the begin line, and the blank behind it is read too.
abbrev scan : Input → Option (Header × Input)
scan i = if i.taken == 24 then some (header, record { left = drop 11 i.left; taken = 35 }) else none

body_IsQuiet : IsQuiet (8 ∷ 47 ∷ [])
unfolding is_spinner
body_IsQuiet = (refl, (refl, tt))

control_IsQuiet : IsQuiet (8 ∷ 124 ∷ [])
unfolding is_spinner
control_IsQuiet = (refl, (refl, tt))

copro-Scans : Scans clock scan wiring (copro ∷ []) (copro-IsPrintable, tt) [] 24
copro-Scans = (header, 34, refl, refl)

host_main-IsReported_example :
    IsReported clock scan wiring (copro ∷ []) (copro-IsPrintable, tt) copro-Scans 2
host_main-IsReported_example =
    host_main-IsReported clock scan wiring (copro ∷ []) (copro-IsPrintable, tt) copro-Scans 2
      wiring-IsWired (control_IsQuiet, body_IsQuiet, tt) (omega arith)
