-- ===== src/Util/Spinner.antt =====
-- The spinner of util/debug.c.
use simbench.Base.{
  ℕ, zero, suc, ◌+◌, ◌*◌, ◌%◌, ◌^◌, ◌<◌, ◌==◌, leb, true, false, if◌then◌else◌, ◌≡◌, ◌⊎◌, inl, inr,
  refl, ap, ◌∙◌, arith, List, ◌∷◌, bit_and, bit_and_mask,
}

-- The static variables, and the characters on the debug stream, the last one first.
pub record Spinner : Type 0 where
  pub counter_rollover : ℕ
  pub counter : ℕ
  pub counter_index : ℕ
  pub printed : List ℕ

abbrev pub spinner_char : ℕ → ℕ
spinner_char zero = 124
spinner_char (suc zero) = 47
spinner_char (suc (suc zero)) = 45
spinner_char (suc (suc (suc i))) = 92

unfoldable pub debug_spinner_start : ℕ → Spinner → Spinner
debug_spinner_start rollover s = record {
  counter_rollover = rollover % 2 ^ 32;
  counter = 0;
  counter_index = 0;
  printed = 32 ∷ s.printed;
}

-- The two cases of `debug_spinner`, for the counter after the increment.
abbrev pub count_on : ℕ → Spinner → Spinner
count_on counter s = record s { counter = counter }

abbrev pub turn : Spinner → Spinner
turn s =
    let index = (s.counter_index + 1) % 2 ^ 32 in
    record s {
      counter = 0;
      counter_index = index;
      printed = spinner_char (bit_and index 3) ∷ 8 ∷ s.printed;
    }

unfoldable pub debug_spinner : Spinner → Spinner
debug_spinner s =
    let counter = (s.counter + 1) % 2 ^ 32 in
    if leb s.counter_rollover counter then turn s else count_on counter s

-- A number of calls.
abbrev pub spins : ℕ → Spinner → Spinner
spins zero s = s
spins (suc k) s = debug_spinner (spins k s)

-- A bar that turns: `|`, `/`, `-` and `\`.
abbrev pub bar : ℕ → ℕ
bar i = if i == 0 then 124 else if i == 1 then 47 else if i == 2 then 45 else 92

-- The characters of a number of turns: a step back and the next position of the bar.
abbrev pub turns : ℕ → List ℕ → List ℕ
turns zero before = before
turns (suc q) before = bar (suc q % 4) ∷ 8 ∷ turns q before

pub record IsSpun (rollover k : ℕ) (s : Spinner) : Type 0 where
  pub full : ℕ
  pub over : ℕ
  pub split : k ≡ full * rollover + over
  pub over_bound : over < rollover
  pub printed : (spins k (debug_spinner_start rollover s)).printed ≡ turns full (32 ∷ s.printed)

record IsCounted (rollover k : ℕ) (before : List ℕ) (s : Spinner) : Type 0 where
  full : ℕ
  over : ℕ
  split : k ≡ full * rollover + over
  over_bound : over < rollover
  rollover_same : s.counter_rollover ≡ rollover
  counter_same : s.counter ≡ over
  index_same : s.counter_index ≡ full % 2 ^ 32
  printed_same : s.printed ≡ turns full before

lt_or_last : (over rollover : ℕ) → over < rollover → (over + 1 ≡ rollover) ⊎ (over + 1 < rollover)
lt_or_last over rollover h = ground arith

rolled : (over rollover : ℕ) → over + 1 ≡ rollover → leb rollover (over + 1) ≡ true
rolled over rollover h = ground arith

waiting : (over rollover : ℕ) → over + 1 < rollover → leb rollover (over + 1) ≡ false
waiting over rollover h = ground arith

full_turn :
    (full over rollover : ℕ)
    → over + 1 ≡ rollover
    → suc (full * rollover + over) ≡ suc full * rollover + 0
full_turn full over rollover h = ground arith

turn_index : (full : ℕ) → bit_and ((full % 2 ^ 32 + 1) % 2 ^ 32) 3 ≡ suc full % 4
turn_index full = omega (arith, bit_and_mask 2 ((full % 2 ^ 32 + 1) % 2 ^ 32))

spinner_char-bar : (i : ℕ) → i < 4 → spinner_char i ≡ bar i
spinner_char-bar zero h = refl
spinner_char-bar (suc zero) h = refl
spinner_char-bar (suc (suc zero)) h = refl
spinner_char-bar (suc (suc (suc zero))) h = refl
spinner_char-bar (suc (suc (suc (suc i)))) h = absurd (omega arith)

turn_char :
    (full : ℕ) → spinner_char (bit_and ((full % 2 ^ 32 + 1) % 2 ^ 32) 3) ≡ bar (suc full % 4)
turn_char full = ap spinner_char (turn_index full) ∙ spinner_char-bar (suc full % 4) (omega arith)

IsCounted-suc :
    (rollover k : ℕ) (before : List ℕ) (s : Spinner)
    → rollover < 2 ^ 32
    → IsCounted rollover k before s
    → IsCounted rollover (suc k) before (debug_spinner s)
unfolding debug_spinner
IsCounted-suc rollover k before s small c =
    let next : (s.counter + 1) % 2 ^ 32 ≡ c.over + 1 =
      ap (λ x. (x + 1) % 2 ^ 32) c.counter_same ∙ omega (arith, c.over_bound) in
    elim (lt_or_last c.over rollover c.over_bound) [
      | inl last ↦ record {
        full = suc c.full;
        over = 0;
        split = ap suc c.split ∙ full_turn c.full c.over rollover last;
        over_bound = omega (arith, c.over_bound);
        rollover_same = rw (next, c.rollover_same, rolled c.over rollover last) refl;
        counter_same = rw (next, c.rollover_same, rolled c.over rollover last) refl;
        index_same =
            rw (next, c.rollover_same, rolled c.over rollover last, c.index_same) (omega arith);
        printed_same =
            rw
              (
                next,
                c.rollover_same,
                rolled c.over rollover last,
                c.index_same,
                c.printed_same,
                turn_char c.full,
              )
              refl;
      }
      | inr inside ↦ record {
        full = c.full;
        over = c.over + 1;
        split = ap suc c.split ∙ omega arith;
        over_bound = inside;
        rollover_same = rw (next, c.rollover_same, waiting c.over rollover inside) refl;
        counter_same = rw (next, c.rollover_same, waiting c.over rollover inside) refl;
        index_same = rw (next, c.rollover_same, waiting c.over rollover inside) c.index_same;
        printed_same = rw (next, c.rollover_same, waiting c.over rollover inside) c.printed_same;
      }
    ]

IsCounted-spins :
    (rollover k : ℕ) (s : Spinner)
    → 0 < rollover
    → rollover < 2 ^ 32
    → IsCounted rollover k (32 ∷ s.printed) (spins k (debug_spinner_start rollover s))
unfolding debug_spinner_start
IsCounted-spins rollover zero s positive small = record {
  full = 0;
  over = 0;
  split = ground arith;
  over_bound = positive;
  rollover_same = omega arith;
  counter_same = refl;
  index_same = refl;
  printed_same = refl;
}
IsCounted-spins rollover (suc k) s positive small =
    IsCounted-suc rollover k (32 ∷ s.printed) (spins k (debug_spinner_start rollover s)) small
      (IsCounted-spins rollover k s positive small)

-- With a rollover from 1 to 2^32 - 1, the calls of `debug_spinner` after `debug_spinner_start`
-- print one turn for each full rollover, with any number of calls: a step back and the next of the
-- four characters in order, behind the blank of the start.
pub spins-IsSpun :
    (rollover k : ℕ) (s : Spinner) → 0 < rollover → rollover < 2 ^ 32 → IsSpun rollover k s
spins-IsSpun rollover k s positive small =
    let c = IsCounted-spins rollover k s positive small in
    record {
      full = c.full;
      over = c.over;
      split = c.split;
      over_bound = c.over_bound;
      printed = c.printed_same;
    }
