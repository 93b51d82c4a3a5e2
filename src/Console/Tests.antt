-- ===== src/Console/Tests.antt =====
-- The console at a concrete text.
use simbench.Base.{ℕ, ◌≡◌, refl, [], ◌∷◌, List}
use simbench.Console.Screen.{Console, console_init}
use simbench.Console.Shown.{IsShown, print, blank, shown, print-init-IsShown}

abbrev console : Console
console = record { vga = λ a. 0x720; cur_x = 3; cur_y = 4; registers = [] }

-- "A", a newline, "B"
abbrev text : List ℕ
text = 65 ∷ 10 ∷ 66 ∷ []

text_shown : (shown text blank).cells 0 1 ≡ 0x742
text_shown = refl

print-init-IsShown_example :
    IsShown (print text (console_init console)) (shown text blank) (λ a. 0x720)
print-init-IsShown_example = print-init-IsShown text console
