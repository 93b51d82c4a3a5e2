-- ===== src/Harness/Privilege.antt =====
-- The privileged mode in harness/harness.c.
use simbench.Base.{
  ℕ, suc, ◌+◌, Bool, true, false, if◌then◌else◌, ◌≡◌, refl, ap, ◌∙◌, List, [], ◌∷◌, ◌++◌, Option,
  none, some,
}
use simbench.Harness.Execute.{
  Phase, kernel_init, kernel_control, kernel, kernel_cleanup, Benchmark, Event, said, priv_enter,
  priv_leave, ran, Output, harness_execute,
}
use simbench.Harness.Console.{
  IsWired, IsPrintable, privileged, run_events, control_events, kernel_events, benchmark_events,
  harness_execute-eq,
}

-- What `arch_priv_enter` and `arch_priv_leave` of a port do to the mode of the processor, where its
-- modes are of the type `M`. ARMv8 switches between two modes; both functions are empty on ARM and on
-- x86-64.
pub record Privileges (M : Type 0) : Type 0 where
  pub enter : M → M
  pub leave : M → M

-- The runs of kernels in a trace, each with the mode of the processor then.
abbrev pub levels : {M : Type 0} → Privileges M → M → List Event → List (Phase × M)
levels port p [] = []
levels port p (said text ∷ events) = levels port p events
levels port p (priv_enter ∷ events) = levels port (port.enter p) events
levels port p (priv_leave ∷ events) = levels port (port.leave p) events
levels port p (ran phase text ∷ events) = (phase, p) ∷ levels port p events

abbrev pub level_after : {M : Type 0} → Privileges M → M → List Event → M
level_after port p [] = p
level_after port p (said text ∷ events) = level_after port p events
level_after port p (priv_enter ∷ events) = level_after port (port.enter p) events
level_after port p (priv_leave ∷ events) = level_after port (port.leave p) events
level_after port p (ran phase text ∷ events) = level_after port p events

abbrev pub count_leaves : List Event → ℕ
count_leaves [] = 0
count_leaves (priv_leave ∷ events) = suc (count_leaves events)
count_leaves (said text ∷ events) = count_leaves events
count_leaves (priv_enter ∷ events) = count_leaves events
count_leaves (ran phase text ∷ events) = count_leaves events

abbrev pub count_enters : List Event → ℕ
count_enters [] = 0
count_enters (priv_enter ∷ events) = suc (count_enters events)
count_enters (said text ∷ events) = count_enters events
count_enters (priv_leave ∷ events) = count_enters events
count_enters (ran phase text ∷ events) = count_enters events

-- What is expected of the runs of one benchmark: the control run and the kernel in the mode `q`, the
-- others in `p`.
abbrev pub run_level : {M : Type 0} → Phase → M → Option (List ℕ) → List (Phase × M)
run_level phase p none = []
run_level phase p (some text) = (phase, p) ∷ []

abbrev pub expected_levels : {M : Type 0} → M → M → Benchmark → List (Phase × M)
expected_levels p q b =
    run_level kernel_init p b.init
    ++ (run_level kernel_control q b.control
        ++ ((kernel, q) ∷ run_level kernel_cleanup p b.cleanup))

-- What one benchmark did to the mode.
pub record IsBalanced {V M : Type 0} (o : Output V) (port : Privileges M) (p : M) (b : Benchmark)
    : Type 0 where
  pub events : List Event
  pub done : harness_execute o b ≡ some events
  pub runs : levels port p events ≡ expected_levels p (if b.kernel_priv then port.enter p else p) b
  pub left : level_after port p events ≡ p
  pub surplus : count_leaves events ≡ count_enters events + (if b.kernel_priv then 1 else 0)

init_levels :
    {M : Type 0} (port : Privileges M) (p : M) (f : Option (List ℕ)) (more : List Event)
    → levels port p (run_events kernel_init f ++ more)
      ≡ run_level kernel_init p f ++ levels port p more
init_levels port p none more = refl
init_levels port p (some text) more = refl

run_after :
    {M : Type 0} (port : Privileges M) (p : M) (phase : Phase) (f : Option (List ℕ))
    (more : List Event)
    → level_after port p (run_events phase f ++ more) ≡ level_after port p more
run_after port p phase none more = refl
run_after port p phase (some text) more = refl

run_leaves :
    (phase : Phase) (f : Option (List ℕ)) (more : List Event)
    → count_leaves (run_events phase f ++ more) ≡ count_leaves more
run_leaves phase none more = refl
run_leaves phase (some text) more = refl

run_enters :
    (phase : Phase) (f : Option (List ℕ)) (more : List Event)
    → count_enters (run_events phase f ++ more) ≡ count_enters more
run_enters phase none more = refl
run_enters phase (some text) more = refl

-- The events behind the count.
abbrev rest_events : Bool → Option (List ℕ) → List ℕ → Option (List ℕ) → List Event
rest_events p control text cleanup =
    control_events p control
    ++ (kernel_events p text ++ (run_events kernel_cleanup cleanup ++ privileged p priv_leave))

module _ {M : Type 0} (port : Privileges M) (p : M) (round : port.leave (port.enter p) ≡ p)
    (idle : port.leave p ≡ p) where
  rest_levels :
      (priv : Bool) (control : Option (List ℕ)) (text : List ℕ) (cleanup : Option (List ℕ))
      → levels port p (rest_events priv control text cleanup)
        ≡ run_level kernel_control (if priv then port.enter p else p) control
          ++ ((kernel, if priv then port.enter p else p) ∷ run_level kernel_cleanup p cleanup)
  rest_levels true none text none = refl
  rest_levels true none text (some c) = rw round refl
  rest_levels true (some t) text none = rw round refl
  rest_levels true (some t) text (some c) = rw (round, round) refl
  rest_levels false none text none = refl
  rest_levels false none text (some c) = refl
  rest_levels false (some t) text none = refl
  rest_levels false (some t) text (some c) = refl

  rest_after :
      (priv : Bool) (control : Option (List ℕ)) (text : List ℕ) (cleanup : Option (List ℕ))
      → level_after port p (rest_events priv control text cleanup) ≡ p
  rest_after true none text none = rw (round, idle) refl
  rest_after true none text (some c) = rw (round, idle) refl
  rest_after true (some t) text none = rw (round, round, idle) refl
  rest_after true (some t) text (some c) = rw (round, round, idle) refl
  rest_after false none text none = refl
  rest_after false none text (some c) = refl
  rest_after false (some t) text none = refl
  rest_after false (some t) text (some c) = refl

rest_surplus :
    (p : Bool) (control : Option (List ℕ)) (text : List ℕ) (cleanup : Option (List ℕ))
    → count_leaves (rest_events p control text cleanup)
      ≡ count_enters (rest_events p control text cleanup) + (if p then 1 else 0)
rest_surplus true none text none = refl
rest_surplus true none text (some c) = refl
rest_surplus true (some t) text none = refl
rest_surplus true (some t) text (some c) = refl
rest_surplus false none text none = refl
rest_surplus false none text (some c) = refl
rest_surplus false (some t) text none = refl
rest_surplus false (some t) text (some c) = refl

-- Through a console stream with a device, where the two calls of fprintf for the benchmark succeed, and
-- on a port whose `arch_priv_leave` returns to the mode before `arch_priv_enter` and keeps that mode
-- otherwise, harness_execute does not fail: the control run and the kernel run in the mode that
-- `arch_priv_enter` gives exactly if `kernel_priv` is set, initialisation and cleanup always run in the
-- mode before, which is that at the end; with `kernel_priv` privileged mode is left once more often
-- than it was entered.
pub harness_execute-IsBalanced :
    {V M : Type 0} (o : Output V) (port : Privileges M) (p : M) (b : Benchmark)
    → port.leave (port.enter p) ≡ p
    → port.leave p ≡ p
    → IsWired o
    → IsPrintable o b
    → IsBalanced o port p b
harness_execute-IsBalanced o port p b round idle wired text =
    let rest = rest_events b.kernel_priv b.control b.body b.cleanup in
    record {
      events = benchmark_events text.header text.count b;
      done = harness_execute-eq o wired b text;
      runs =
          init_levels port p b.init (said text.count ∷ rest)
          ∙ ap (λ l. run_level kernel_init p b.init ++ l)
              (rest_levels port p round idle b.kernel_priv b.control b.body b.cleanup);
      left =
          run_after port p kernel_init b.init (said text.count ∷ rest)
          ∙ rest_after port p round idle b.kernel_priv b.control b.body b.cleanup;
      surplus =
          rw
            (
              run_leaves kernel_init b.init,
              run_enters kernel_init b.init,
              rest_surplus b.kernel_priv b.control b.body b.cleanup,
            )
            refl;
    }
