-- ===== src/Trap/Skip.antt =====
-- What the handlers of arch/x86_64/exception.c and irq.c do to the interrupted program.
use simbench.Base.{ℕ, ◌+◌, ◌%◌, ◌^◌, Bool, ◌≡◌, refl, List, ◌++◌, Option, none, some, length}
use simbench.Decode.Types.{Instruction}
use simbench.Decode.Cursor.{Result, ok, refused, fault}
use simbench.Decode.Inst.{decode_instruction}
use simbench.Decode.Length.{decode_instruction-IsDecoded}
use simbench.Paging.Machine.{
  FaultHandler, unset, default_page_fault_handler, return_handler, mem_skip_handler,
}
use simbench.Trap.State.{
  SyscallHandler, no_syscall, default_syscall_handler, syscall_skip_handler, UndefHandler, no_undef,
  default_undef_handler, undef_skip_handler, Cpu, returns,
}
use simbench.Trap.Handlers.{arch_dfault_install_skip}

-- `struct mcontext` of arch/x86_64/x86.h.
pub record Mcontext : Type 0 where
  pub r15 : ℕ
  pub r14 : ℕ
  pub r13 : ℕ
  pub r12 : ℕ
  pub r11 : ℕ
  pub r10 : ℕ
  pub r9 : ℕ
  pub r8 : ℕ
  pub rbp : ℕ
  pub rsi : ℕ
  pub rdi : ℕ
  pub rdx : ℕ
  pub rcx : ℕ
  pub rbx : ℕ
  pub rax : ℕ
  pub flags : ℕ
  pub rsp : ℕ
  pub extra : ℕ
  pub rip : ℕ
  pub temp_cs : ℕ
  pub temp_flags : ℕ
  pub temp_sp : ℕ
  pub temp_ss : ℕ

-- The memory that the handlers read: the word at an address and the bytes from an address on. `stack`
-- is what the local `struct instruction` holds at first, and `undefined_return` is that of the
-- decoder.
pub record Memory : Type 0 where
  pub word_at : ℕ → ℕ
  pub bytes_from : ℕ → List ℕ
  pub stack : Instruction
  pub undefined_return : Bool

-- The interrupted program's context; `none` is `arch_abort`.
unfoldable pub run_return_handler : Memory → Mcontext → Option Mcontext
run_return_handler m ctx =
    some (record ctx { rip = m.word_at ctx.temp_sp; temp_sp = (ctx.temp_sp + 8) % 2 ^ 64 })

abbrev pub skip_decoded : Mcontext → Result Instruction → Option Mcontext
skip_decoded ctx (ok inst rest) = some (record ctx { rip = (ctx.rip + inst.length) % 2 ^ 64 })
skip_decoded ctx refused = none
skip_decoded ctx fault = none

unfoldable pub run_mem_skip_handler : Memory → Mcontext → Option Mcontext
run_mem_skip_handler m ctx =
    skip_decoded ctx (decode_instruction m.undefined_return m.stack (m.bytes_from ctx.rip))

-- The call of `page_fault_handler_fn`; a call through a null pointer gives no result either.
unfoldable pub page_fault : FaultHandler → Memory → Mcontext → Option Mcontext
unfolding run_return_handler run_mem_skip_handler
page_fault unset m ctx = none
page_fault default_page_fault_handler m ctx = none
page_fault return_handler m ctx = run_return_handler m ctx
page_fault mem_skip_handler m ctx = run_mem_skip_handler m ctx

unfoldable pub syscall : SyscallHandler → Mcontext → Option Mcontext
syscall no_syscall ctx = none
syscall default_syscall_handler ctx = none
syscall syscall_skip_handler ctx = some ctx

unfoldable pub undefined_instruction : UndefHandler → Mcontext → Option Mcontext
undefined_instruction no_undef ctx = none
undefined_instruction default_undef_handler ctx = none
undefined_instruction undef_skip_handler ctx = some (record ctx { rip = (ctx.rip + 2) % 2 ^ 64 })

-- A fault on data with the skipping handler installed.
pub record IsSkipped (s : Cpu) (m : Memory) (ctx : Mcontext) (out : Instruction) (rest : List ℕ)
    : Type 0 where
  pub after : Cpu
  pub installed : arch_dfault_install_skip s ≡ returns tt after
  pub used : List ℕ
  pub split : m.bytes_from ctx.rip ≡ used ++ rest
  pub resumed :
      page_fault after.machine.page_fault_handler_fn m ctx
      ≡ some (record ctx { rip = (ctx.rip + length used) % 2 ^ 64 })

-- After `arch_dfault_install_skip`, a page fault at an instruction that the decoder accepts resumes
-- the program exactly behind the bytes that the decoder took for it, with every other register as it
-- was.
pub page_fault-IsSkipped :
    (s : Cpu) (m : Memory) (ctx : Mcontext) (out : Instruction) (rest : List ℕ)
    → decode_instruction m.undefined_return m.stack (m.bytes_from ctx.rip) ≡ ok out rest
    → IsSkipped s m ctx out rest
unfolding arch_dfault_install_skip page_fault
page_fault-IsSkipped s m ctx out rest e =
    let decoded =
      decode_instruction-IsDecoded m.undefined_return m.stack (m.bytes_from ctx.rip) out rest e in
    record {
      after = record s { machine = record s.machine { page_fault_handler_fn = mem_skip_handler } };
      installed = refl;
      used = decoded.used;
      split = decoded.split;
      resumed = rw (e, decoded.counted) refl;
    }
