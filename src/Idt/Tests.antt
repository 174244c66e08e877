-- ===== src/Idt/Tests.antt =====
-- Interrupt gates at concrete inputs.
use test_kernel.Base.{◌≡◌, refl}
use test_kernel.Base.Loops.{count_up}
use test_kernel.Idt.{IdtState, make_custom_handler, init_idt}

abbrev pub empty_idt : IdtState
empty_idt = record {
  custom_handlers = λ i. record {
    op_cli_code = 0;
    op_push1_code = 0;
    op_push1_arg = 0;
    op_push2_code = 0;
    op_push2_arg = 0;
    op_jmp_code = 0;
    op_jmp_arg = 0;
    op_nop = 0;
  };
  idt_seg = λ i. record { base_1 = 0; sel = 0; always0 = 0; flags = 0; base_2 = 0 };
}

-- A handler behind the stub jumps backwards, by a negative operand.
jump_back : (make_custom_handler 0x100000 0x101000 32).op_jmp_arg ≡ 0xFFFFEFF6
unfolding make_custom_handler
jump_back = refl

timer_gate : ((init_idt 0x100000 0x101000 empty_idt).idt_seg 32).base_1 ≡ 0x1200
unfolding init_idt count_up
timer_gate = refl
