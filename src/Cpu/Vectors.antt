-- ===== src/Cpu/Vectors.antt =====
-- src/arch/ia32/cpu/cpu.c: what an interrupt does, by its vector.
use test_kernel.Base.{
  ℕ, ◌+◌, ◌%◌, ◌≡◌, ◌≢◌, refl, sym, ap, subst, Bool, true, false, some, List, ◌∷◌, arith,
  if◌then◌else◌, ltb, leb, ◌==◌, Bool-cases, inl, inr,
}
use test_kernel.Threads.{Kernel}
use test_kernel.Display.{num_terminals, change_terminal}
use test_kernel.Display.Shown.{IsShown, puts-IsShown, change_terminal-IsShown}
use test_kernel.Mem.{Bytes, utoa}
use test_kernel.Cpu.{
  Machine, print, print_vector, newline, received, pressed, number, irq_start, end_interrupt, key,
  irq_handler,
}

-- The table of threads is that of s, the outputs are `outs`, and the screen is in order.
pub record Answered (s : Machine) (outs : List (ℕ × ℕ)) (t : Machine) : Type 0 where
  pub kernel : t.kernel ≡ s.kernel
  pub outputs : t.outputs ≡ outs
  pub shown : IsShown t.display

print-Answered :
    (cs : List ℕ) (s t : Machine) (outs : List (ℕ × ℕ))
    → Answered s outs t
    → Answered s outs (print cs t)
unfolding print
print-Answered cs s t outs w = record {
  kernel = w.kernel;
  outputs = w.outputs;
  shown = puts-IsShown _ cs t.display w.shown.chosen w.shown;
}

print_vector-Answered :
    (buff : ℕ) (stack : Bytes) (n : ℕ) (s t : Machine) (outs : List (ℕ × ℕ))
    → Answered s outs t
    → Answered s outs (print_vector buff stack n t)
print_vector-Answered buff stack n s t outs w =
    print-Answered _ s _ outs (print-Answered received s t outs w)

key-next :
    (buff x : ℕ) (stack : Bytes) (s : Machine)
    → (x == 65) ≡ true
    → key buff stack x s ≡ record s {
      display = change_terminal ((s.display.tmp_terminal_num + 1) % num_terminals) s.display;
    }
unfolding key
key-next buff x stack s e = rw (key, e) refl

key-prints :
    (buff x : ℕ) (stack : Bytes) (s : Machine)
    → (x == 65) ≡ false
    → ltb x 128 ≡ true
    → key buff stack x s
      ≡ print newline
          (print (number (utoa x buff 12 stack)) (print pressed (print_vector buff stack 33 s)))
unfolding key
key-prints buff x stack s e l = rw (key, e, l) refl

key-released :
    (buff x : ℕ) (stack : Bytes) (s : Machine)
    → (x == 65) ≡ false
    → ltb x 128 ≡ false
    → key buff stack x s ≡ s
unfolding key
key-released buff x stack s e l = rw (key, e, l) refl

key-Answered :
    (buff x : ℕ) (stack : Bytes) (s t : Machine) (outs : List (ℕ × ℕ))
    → Answered s outs t
    → Answered s outs (key buff stack x t)
key-Answered buff x stack s t outs w = elim (Bool-cases (x == 65)) [
  | inl e ↦ subst (Answered s outs) (sym (key-next buff x stack t e)) (record {
    kernel = w.kernel;
    outputs = w.outputs;
    shown = change_terminal-IsShown _ t.display (omega arith) w.shown;
  })
  | inr e ↦ elim (Bool-cases (ltb x 128)) [
    | inl l ↦ subst (Answered s outs) (sym (key-prints buff x stack t e l)) (
        print-Answered newline s _ outs (
          print-Answered _ s _ outs
            (print-Answered pressed s _ outs (print_vector-Answered buff stack 33 s t outs w))))
    | inr l ↦ subst (Answered s outs) (sym (key-released buff x stack t e l)) w
  ]
]

irq_start-keyboard :
    (fuel buff regs : ℕ) (stack : Bytes) (s : Machine)
    → (s.kernel.frames regs).int_no ≢ 32
    → ((s.kernel.frames regs).int_no == 33) ≡ true
    → irq_start fuel buff stack regs s ≡ some (regs, s)
unfolding irq_start
irq_start-keyboard fuel buff regs stack s ne e =
    let other : ((s.kernel.frames regs).int_no == 32) ≡ false = ground arith in
    rw (irq_start, other, e) refl

irq_start-prints :
    (fuel buff regs : ℕ) (stack : Bytes) (s : Machine)
    → (s.kernel.frames regs).int_no ≢ 32
    → ((s.kernel.frames regs).int_no == 33) ≡ false
    → irq_start fuel buff stack regs s
      ≡ some (regs, print newline (print_vector buff stack (s.kernel.frames regs).int_no s))
unfolding irq_start
irq_start-prints fuel buff regs stack s ne e =
    let other : ((s.kernel.frames regs).int_no == 32) ≡ false = ground arith in
    rw (irq_start, other, e) refl

-- The first part for a vector other than the timer's.
irq_start-Answered :
    (fuel buff regs : ℕ) (stack : Bytes) (s : Machine)
    → (s.kernel.frames regs).int_no ≢ 32
    → IsShown s.display
    → (t : Machine) × (irq_start fuel buff stack regs s ≡ some (regs, t)) × Answered s s.outputs t
irq_start-Answered fuel buff regs stack s ne shown = elim (Bool-cases (n == 33)) [
  | inl e ↦ (s, irq_start-keyboard fuel buff regs stack s ne e, unchanged)
  | inr e ↦ (
    print newline (print_vector buff stack n s),
    irq_start-prints fuel buff regs stack s ne e,
    print-Answered newline s _ s.outputs
        (print_vector-Answered buff stack n s s s.outputs unchanged),
  )
]
  where
    n : ℕ
    n = (s.kernel.frames regs).int_no

    unchanged : Answered s s.outputs s
    unchanged = record { kernel = refl; outputs = refl; shown = shown }

-- The outputs that end an interrupt: to the slave where the vector is one of its, then to the
-- master.
abbrev pub ended : ℕ → List (ℕ × ℕ) → List (ℕ × ℕ)
ended n outs = (0x20, 0x20) ∷ (if leb 40 n then (0xA0, 0x20) ∷ outs else outs)

end_interrupt-Answered :
    (n : ℕ) (s t : Machine)
    → Answered s s.outputs t
    → Answered s (ended n s.outputs) (end_interrupt n t)
unfolding end_interrupt
end_interrupt-Answered n s t w = elim (Bool-cases (leb 40 n)) [
  | inl e ↦ rw e (record {
    kernel = w.kernel;
    outputs = ap (λ o. (0x20, 0x20) ∷ (0xA0, 0x20) ∷ o) w.outputs;
    shown = w.shown;
  })
  | inr e ↦ rw e (record {
    kernel = w.kernel;
    outputs = ap (λ o. (0x20, 0x20) ∷ o) w.outputs;
    shown = w.shown;
  })
]

irq_handler-started :
    (fuel scancode buff regs : ℕ) (stack : Bytes) (s t : Machine)
    → irq_start fuel buff stack regs s ≡ some (regs, t)
    → irq_handler fuel scancode buff stack regs s
      ≡ some (
        regs,
        if (t.kernel.frames regs).int_no == 33
            then key buff stack scancode (end_interrupt (t.kernel.frames regs).int_no t)
            else end_interrupt (t.kernel.frames regs).int_no t,
      )
unfolding irq_handler
irq_handler-started fuel scancode buff regs stack s t ran = rw (irq_handler, ran) refl

key_or_not :
    (b : Bool) (buff x : ℕ) (stack : Bytes) (s t : Machine) (outs : List (ℕ × ℕ))
    → Answered s outs t
    → Answered s outs (if b then key buff stack x t else t)
key_or_not true buff x stack s t outs w = key-Answered buff x stack s t outs w
key_or_not false buff x stack s t outs w = w

-- For every vector other than the timer's 32, from a state whose screen is in order,
-- `irq_handler` returns to the frame that was interrupted, leaves the table of threads as it is,
-- ends the interrupt at the slave where the vector is 40 or above and then at the master, and
-- leaves a screen that is in order.
pub irq_handler-Answered :
    (fuel scancode buff regs : ℕ) (stack : Bytes) (s : Machine)
    → (s.kernel.frames regs).int_no ≢ 32
    → IsShown s.display
    → (t : Machine) × (irq_handler fuel scancode buff stack regs s ≡ some (regs, t))
      × Answered s (ended (s.kernel.frames regs).int_no s.outputs) t
irq_handler-Answered fuel scancode buff regs stack s ne shown =
    let (t, ran, w) = irq_start-Answered fuel buff regs stack s ne shown in
    let n = (t.kernel.frames regs).int_no in
    let e = end_interrupt n t in
    let same : (t.kernel.frames regs).int_no ≡ (s.kernel.frames regs).int_no =
      ap (λ (k : Kernel). (k.frames regs).int_no) w.kernel in
    let done : Answered s (ended (s.kernel.frames regs).int_no s.outputs) e =
      subst (λ v. Answered s (ended v s.outputs) e) same (end_interrupt-Answered n s t w) in
    (
      if n == 33 then key buff stack scancode e else e,
      irq_handler-started fuel scancode buff regs stack s t ran,
      key_or_not (n == 33) buff scancode stack s e _ done,
    )
