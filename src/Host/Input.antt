-- ===== src/Host/Input.antt =====
-- The reading of standard input by host/main.c: the library's functions and the markers.
use simbench.Base.{
  ℕ, suc, ◌==◌, Bool, true, false, ◌&&◌, ◌||◌, if◌then◌else◌, List, [], ◌∷◌, ◌++◌, Option, none,
  some,
}
use simbench.Harness.Execute.{begin_line}

-- What is left of standard input, and how many characters have been read.
pub record Input : Type 0 where
  pub left : List ℕ
  pub taken : ℕ

-- A marker that was found, or 0, with the input behind it.
pub record Mark : Type 0 where
  pub char : ℕ
  pub input : Input

-- The characters that the spinner prints between two markers.
unfoldable pub is_spinner : ℕ → Bool
is_spinner c = (c == 124 || (c == 47 || (c == 45 || (c == 92 || (c == 32 || c == 8)))))

-- The loops over `fgetc`, which gives no other character at the end of the input.
unfoldable pub start_char : List ℕ → ℕ → Mark
unfolding is_spinner
start_char [] taken = record { char = 0; input = record { left = []; taken = taken } }
start_char (c ∷ left) taken =
    let rest = start_char left (suc taken) in
    let here : Input = record { left = left; taken = suc taken } in
    if c == 123 || c == 91
    then record { char = c; input = here }
    else (if is_spinner c then rest else record { char = 0; input = here })

unfoldable pub end_char : ℕ → List ℕ → ℕ → Mark
unfolding is_spinner
end_char target [] taken = record { char = 0; input = record { left = []; taken = taken } }
end_char target (c ∷ left) taken =
    let rest = end_char target left (suc taken) in
    let here : Input = record { left = left; taken = suc taken } in
    if c == target
    then record { char = target; input = here }
    else (if is_spinner c then rest else record { char = 0; input = here })

unfoldable pub read_timing_start_char : Input → Mark
unfolding start_char
read_timing_start_char i = start_char i.left i.taken

unfoldable pub read_timing_end_char : ℕ → Input → Mark
unfolding end_char
read_timing_end_char target i = end_char target i.left i.taken

-- `strcmp` of two texts, as a test for equality.
abbrev pub same_text : List ℕ → List ℕ → Bool
same_text [] [] = true
same_text [] (d ∷ ds) = false
same_text (c ∷ cs) [] = false
same_text (c ∷ cs) (d ∷ ds) = c == d && same_text cs ds

-- The loop over `getline`: `line` has what was read of the current line. `none` is a return of 1.
unfoldable pub find_begin : List ℕ → List ℕ → ℕ → Option Input
find_begin line [] taken = none
find_begin line (c ∷ left) taken =
    let next = find_begin [] left (suc taken) in
    let more = find_begin (line ++ (c ∷ [])) left (suc taken) in
    if c == 10
    then (if same_text begin_line (line ++ (c ∷ []))
        then some (record { left = left; taken = suc taken })
        else next)
    else more

unfoldable pub read_start : Input → Option Input
unfolding find_begin
read_start i = find_begin [] i.left i.taken
