-- ===== src/Cpu.antt =====
-- src/arch/ia32/cpu/cpu.c: the handler of all interrupts. The byte that the keyboard's port
-- gives, and the place and the old content of the local buffer, are arguments.
mod Vectors
mod Tests
use test_kernel.Base.{
  ℕ, zero, suc, ◌+◌, ◌%◌, Bool, true, false, ◌&&◌, not, Option, none, some, List, [], ◌∷◌, ◌++◌,
  if◌then◌else◌, ltb, leb, ◌==◌,
}
use test_kernel.Threads.{Kernel, change_thread}
use test_kernel.Display.{Display, num_terminals, puts, change_terminal}
use test_kernel.Mem.{Bytes, itoa, utoa}

-- The table of threads, the terminals, and what has been written to ports: port and byte, the last
-- one in front.
pub record Machine : Type 0 where
  pub kernel : Kernel
  pub display : Display
  pub outputs : List (ℕ × ℕ)

abbrev pub outportb : ℕ → ℕ → Machine → Machine
outportb port value s = record s { outputs = (port, value) ∷ s.outputs }

-- The string at an address, of at most `fuel` characters.
unfoldable pub text : (fuel p : ℕ) → Bytes → List ℕ
text zero p m = []
text (suc fuel) p m = let rest = text fuel (p + 1) m in if m p == 0 then [] else m p ∷ rest

-- `puts(display.tmp_terminal_num, …)`
unfoldable pub print : List ℕ → Machine → Machine
print cs s = record s { display = puts s.display.tmp_terminal_num cs s.display }

-- The characters of "recieved interrupt: ", and of "  You pressed key with scancode ".
abbrev pub received : List ℕ
received =
    114 ∷ 101 ∷ 99 ∷ 105 ∷ 101 ∷ 118 ∷ 101 ∷ 100 ∷ 32 ∷ 105 ∷ 110 ∷ 116 ∷ 101 ∷ 114 ∷ 114 ∷ 117
    ∷ 112 ∷ 116 ∷ 58 ∷ 32 ∷ []

abbrev pub pressed : List ℕ
pressed =
    32 ∷ 32 ∷ 89 ∷ 111 ∷ 117 ∷ 32 ∷ 112 ∷ 114 ∷ 101 ∷ 115 ∷ 115 ∷ 101 ∷ 100 ∷ 32 ∷ 107 ∷ 101 ∷ 121
    ∷ 32 ∷ 119 ∷ 105 ∷ 116 ∷ 104 ∷ 32 ∷ 115 ∷ 99 ∷ 97 ∷ 110 ∷ 99 ∷ 111 ∷ 100 ∷ 101 ∷ 32 ∷ []

abbrev pub newline : List ℕ
newline = 10 ∷ []

abbrev pub number : ℕ × Bytes → List ℕ
number (p, m) = text 12 p m

-- `recieved interrupt: ` and the vector.
abbrev pub print_vector : (buff : ℕ) → Bytes → ℕ → Machine → Machine
print_vector buff stack n s = print (number (itoa n buff 12 stack)) (print received s)

-- The first part: a timer interrupt changes the thread, and with it the frame; another one but the
-- keyboard's is printed.
unfoldable pub irq_start : (fuel buff : ℕ) → Bytes → (regs : ℕ) → Machine → Option (ℕ × Machine)
irq_start fuel buff stack regs s =
    let n = (s.kernel.frames regs).int_no in
    if n == 32
    then elim (change_thread fuel regs s.kernel) [
      | none ↦ none
      | some (r, k) ↦ some (r, record s { kernel = k })
    ]
    else (if n == 33
        then some (regs, s)
        else some (regs, print newline (print_vector buff stack n s)))

-- The end of the interrupt, at the slave and at the master controller. The vector is read from the
-- frame that `regs` now points to.
unfoldable pub end_interrupt : ℕ → Machine → Machine
end_interrupt n s = outportb 0x20 0x20 (if leb 40 n then outportb 0xA0 0x20 s else s)

-- The keyboard, with the scan code x.
unfoldable pub key : (buff : ℕ) → Bytes → (x : ℕ) → Machine → Machine
key buff stack x s =
    if x == 65
    then record s {
      display = change_terminal ((s.display.tmp_terminal_num + 1) % num_terminals) s.display;
    }
    else (if ltb x 128
        then print newline
            (print (number (utoa x buff 12 stack)) (print pressed (print_vector buff stack 33 s)))
        else s)

-- `irq_handler`: the frame that the stub returns to, and the machine.
unfoldable pub irq_handler :
    (fuel scancode buff : ℕ) → Bytes → (regs : ℕ) → Machine → Option (ℕ × Machine)
irq_handler fuel scancode buff stack regs s = elim (irq_start fuel buff stack regs s) [
  | none ↦ none
  | some (r, t) ↦
      (let n = (t.kernel.frames r).int_no in
        let e = end_interrupt n t in some (r, if n == 33 then key buff stack scancode e else e))
]
