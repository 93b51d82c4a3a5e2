-- ===== src/Trap/Command.antt =====
-- The command line parser of arch/x86_64/arch.c.
use simbench.Base.{
  ℕ, ◌==◌, Bool, true, ◌||◌, if◌then◌else◌, ◌≡◌, ◌≢◌, inl, inr, refl, List, [], ◌∷◌, ◌++◌, Option,
  none, some, ne→==, Bool-cases,
}

-- The characters from 0x7000 on; `none` is a read past them. The first argument is
-- `use_framebuffer`. `f`, `b` and the character behind them are each read by `*cmdline++`.
unfoldable pub parse_cmdline : Bool → List ℕ → Option Bool
parse_cmdline used [] = none
parse_cmdline used (c ∷ []) = if c == 0 then some used else none
parse_cmdline used (c ∷ d ∷ []) =
    let rest = parse_cmdline used (d ∷ []) in
    if c == 0 then some used else (if c == 102 then none else rest)
parse_cmdline used (c ∷ d ∷ e ∷ cmdline) =
    let other = parse_cmdline used (d ∷ e ∷ cmdline) in
    let behind_f = parse_cmdline used (e ∷ cmdline) in
    let behind_fb = parse_cmdline used cmdline in
    let found = parse_cmdline true cmdline in
    if c == 0
    then some used
    else (if c == 102
        then (if d == 98 then (if e == 32 || e == 0 then found else behind_fb) else behind_f)
        else other)

-- The text has no NUL, and no `f` among its last two characters.
abbrev pub IsRoomy : List ℕ → Type 0
IsRoomy [] = Unit {0}
IsRoomy (c ∷ []) = (c ≢ 0) × (c ≢ 102)
IsRoomy (c ∷ d ∷ []) = ((c ≢ 0) × (c ≢ 102)) × ((d ≢ 0) × (d ≢ 102))
IsRoomy (c ∷ d ∷ e ∷ text) = (c ≢ 0) × IsRoomy (d ∷ e ∷ text)

-- The parser reads no character behind the NUL that ends the text.
pub record IsRead (used : Bool) (text : List ℕ) : Type 0 where
  pub found : Bool
  pub read : (rest : List ℕ) → parse_cmdline used (text ++ 0 ∷ rest) ≡ some found

parse_cmdline-nul : (used : Bool) (rest : List ℕ) → parse_cmdline used (0 ∷ rest) ≡ some used
unfolding parse_cmdline
parse_cmdline-nul used [] = refl
parse_cmdline-nul used (d ∷ []) = refl
parse_cmdline-nul used (d ∷ e ∷ rest) = refl

parse_cmdline-last :
    (used : Bool) (c : ℕ) (rest : List ℕ)
    → c ≢ 0
    → c ≢ 102
    → parse_cmdline used (c ∷ 0 ∷ rest) ≡ some used
unfolding parse_cmdline
parse_cmdline-last used c [] nonzero other =
    rw (ne→== c 0 nonzero, ne→== c 102 other, parse_cmdline-nul used []) refl
parse_cmdline-last used c (e ∷ rest) nonzero other =
    rw (ne→== c 0 nonzero, ne→== c 102 other) (parse_cmdline-nul used (e ∷ rest))

parse_cmdline-last_two :
    (used : Bool) (c d : ℕ) (rest : List ℕ)
    → c ≢ 0
    → c ≢ 102
    → d ≢ 0
    → d ≢ 102
    → parse_cmdline used (c ∷ d ∷ 0 ∷ rest) ≡ some used
unfolding parse_cmdline
parse_cmdline-last_two used c d rest c_nonzero c_other d_nonzero d_other =
    rw (ne→== c 0 c_nonzero, ne→== c 102 c_other) (parse_cmdline-last used d rest d_nonzero d_other)

IsRoomy-tail : (c : ℕ) (text : List ℕ) → IsRoomy (c ∷ text) → IsRoomy text
IsRoomy-tail c [] roomy = tt
IsRoomy-tail c (d ∷ []) roomy = roomy.1
IsRoomy-tail c (d ∷ e ∷ text) roomy = roomy.1

-- A command line without NUL and without `f` among its last two characters is read up to the NUL
-- behind it, and what the parser finds does not depend on the memory there.
pub parse_cmdline-IsRead : (used : Bool) (text : List ℕ) → IsRoomy text → IsRead used text
unfolding parse_cmdline
parse_cmdline-IsRead used [] roomy = record { found = used; read = parse_cmdline-nul used }
parse_cmdline-IsRead used (c ∷ []) roomy = record {
  found = used;
  read = λ rest. parse_cmdline-last used c rest roomy.0 roomy.1;
}
parse_cmdline-IsRead used (c ∷ d ∷ []) roomy = record {
  found = used;
  read = λ rest. parse_cmdline-last_two used c d rest roomy.0.0 roomy.0.1 roomy.1.0 roomy.1.1;
}
parse_cmdline-IsRead used (c ∷ d ∷ e ∷ text) roomy =
    let behind_c = roomy.1 in
    let behind_d = IsRoomy-tail d (e ∷ text) behind_c in
    let behind_e = IsRoomy-tail e text behind_d in
    let other = parse_cmdline-IsRead used (d ∷ e ∷ text) behind_c in
    let behind_f = parse_cmdline-IsRead used (e ∷ text) behind_d in
    let behind_fb = parse_cmdline-IsRead used text behind_e in
    let found = parse_cmdline-IsRead true text behind_e in
    elim (Bool-cases (c == 102)) [
      | inr c_other ↦ record {
        found = other.found;
        read = λ rest. rw (ne→== c 0 roomy.0, c_other) (other.read rest);
      }
      | inl c_f ↦ elim (Bool-cases (d == 98)) [
        | inr d_other ↦ record {
          found = behind_f.found;
          read = λ rest. rw (ne→== c 0 roomy.0, c_f, d_other) (behind_f.read rest);
        }
        | inl d_b ↦ elim (Bool-cases (e == 32 || e == 0)) [
          | inr e_other ↦ record {
            found = behind_fb.found;
            read = λ rest. rw (ne→== c 0 roomy.0, c_f, d_b, e_other) (behind_fb.read rest);
          }
          | inl e_end ↦ record {
            found = found.found;
            read = λ rest. rw (ne→== c 0 roomy.0, c_f, d_b, e_end) (found.read rest);
          }
        ]
      ]
    ]
