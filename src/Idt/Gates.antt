-- ===== src/Idt/Gates.antt =====
-- Every gate of the table leads to its handler, and every handler to the common stub.
use test_kernel.Base.{
  ℕ, ◌+◌, ◌*◌, ◌/◌, ◌%◌, ◌^◌, ◌<◌, ◌≡◌, refl, arith, bit_and, update_cases, u8, u16, ◌>>◌, false,
}
use test_kernel.Base.Bits.{bit_and_low}
use test_kernel.Base.Loops.{count_up_inv}
use test_kernel.Gdt.{make_selector, compile_selector}
use test_kernel.Idt.{
  CustomHandler, IdtDescriptor, IdtState, handlers_count, handler_address, make_custom_handler,
  init_gate, init_idt,
}

-- The offset that the processor puts together from a gate.
abbrev pub gate_offset : IdtDescriptor → ℕ
gate_offset g = g.base_1 + g.base_2 * 2 ^ 16

-- The byte operand of `push` is sign-extended to 32 bits.
abbrev pub pushed : ℕ → ℕ
pushed b = (b + (b / 128) * 0xFFFFFF00) % 2 ^ 32

-- A handler that lies at `h`: `cli`, two `push` of a byte and a near jump, whose operand counts
-- from the end of its ten bytes. It pushes 0 and `n` and goes on at `target`.
pub record Dispatches (c : CustomHandler) (h n target : ℕ) : Type 0 where
  pub clears_interrupts : c.op_cli_code ≡ 0xFA
  pub pushes : (c.op_push1_code ≡ 0x6A) × (c.op_push2_code ≡ 0x6A)
  pub first_pushed : pushed c.op_push1_arg ≡ 0
  pub then_pushed : pushed c.op_push2_arg ≡ n
  pub jumps : c.op_jmp_code ≡ 0xE9
  pub jump_target : (h + 10 + c.op_jmp_arg) % 2 ^ 32 ≡ target

-- A gate of ring 0 for 32-bit interrupts, present, in the segment of selector 3.
pub record LeadsTo (g : IdtDescriptor) (h : ℕ) : Type 0 where
  pub offset : gate_offset g ≡ h
  pub segment : g.sel ≡ 3 * 8
  pub reserved : g.always0 ≡ 0
  pub type_and_rights : g.flags ≡ 0x8E

make_custom_handler-Dispatches :
    (stub h n : ℕ) → stub < 2 ^ 32 → n < 128 → Dispatches (make_custom_handler stub h n) h n stub
unfolding make_custom_handler
make_custom_handler-Dispatches stub h n hs hn = record {
  clears_interrupts = refl;
  pushes = (refl, refl);
  first_pushed = refl;
  then_pushed = omega arith;
  jumps = refl;
  jump_target = omega arith;
}

-- The gates and handlers below `i` are set.
record Set (stub handlers i : ℕ) (s : IdtState) : Type 0 where
  gates : (k : ℕ) → k < i → LeadsTo (s.idt_seg k) (handler_address handlers k)
  stubs : (k : ℕ) → k < i → Dispatches (s.custom_handlers k) (handler_address handlers k) k stub

init_gate-Set :
    {stub handlers i : ℕ} {s : IdtState}
    → stub < 2 ^ 32
    → i < handlers_count
    → Set stub handlers i s
    → Set stub handlers (i + 1) (init_gate stub handlers i s)
unfolding init_gate
init_gate-Set {stub} {handlers} {i} {s} small lt h = record {
  gates = λ k kt.
      update_cases (λ g. LeadsTo g (handler_address handlers k)) s.idt_seg (u8 i) _ k
        (λ e. gate_of k (omega (arith, e))) (λ ne. h.gates k (omega (arith, ne)));
  stubs = λ k kt.
      update_cases (λ c. Dispatches c (handler_address handlers k) k stub) s.custom_handlers i _ k
        (λ e. rw e (make_custom_handler-Dispatches stub _ i small (omega arith)))
        (λ ne. h.stubs k (omega (arith, ne)));
}
  where
    low : bit_and (handler_address handlers i) 0xFFFF ≡ handler_address handlers i % 2 ^ 16
    low = bit_and_low 16 (handler_address handlers i)

    high :
        bit_and (handler_address handlers i >> 16) 0xFFFF
        ≡ (handler_address handlers i >> 16) % 2 ^ 16
    high = bit_and_low 16 (handler_address handlers i >> 16)

    gate_of :
        (k : ℕ)
        → k ≡ i
        → LeadsTo
            (record {
              base_1 = u16 (bit_and (handler_address handlers i) 0xFFFF);
              base_2 = u16 (bit_and (handler_address handlers i >> 16) 0xFFFF);
              sel = compile_selector (make_selector 3 false 0);
              always0 = 0;
              flags = 0x8E;
            })
            (handler_address handlers k)
    gate_of k e = rw e (record {
      offset = omega (arith, low, high);
      segment = refl;
      reserved = refl;
      type_and_rights = refl;
    })

-- After `init_idt` each of the 48 vectors has a gate to its own handler in the code segment of
-- selector 3, and that handler pushes 0 and the vector and jumps to the common stub.
pub init_idt-Dispatches :
    (stub handlers : ℕ) (s : IdtState) (k : ℕ)
    → stub < 2 ^ 32
    → k < handlers_count
    → LeadsTo ((init_idt stub handlers s).idt_seg k) (handler_address handlers k)
      × Dispatches
          ((init_idt stub handlers s).custom_handlers k)
          (handler_address handlers k)
          k
          stub
init_idt-Dispatches stub handlers s k small lt = (all.gates k lt, all.stubs k lt)
  where
    all : Set stub handlers handlers_count (init_idt stub handlers s)
    all =
        unfold init_idt in
        count_up_inv (λ i s. Set stub handlers i s) (init_gate stub handlers) handlers_count
          (λ i s lt h. init_gate-Set small lt h) handlers_count 0 s refl
          (record { gates = λ k kt. absurd (omega arith); stubs = λ k kt. absurd (omega arith) })
