-- ===== src/Idt.antt =====
-- src/arch/ia32/cpu/idt.c: interrupt gates, and the handler stubs that are assembled at run time.
-- Addresses are 32-bit words.
pub mod Gates
pub mod Pic
pub mod Tests
use test_kernel.Base.{ℕ, ◌+◌, ◌-◌, ◌*◌, ◌/◌, ◌%◌, ◌^◌, bit_and, true, false, update, u8, u16, u32}
use test_kernel.Base.{sub32, ◌>>◌, List, [], ◌∷◌}
use test_kernel.Base.Loops.{count_up}
use test_kernel.Gdt.{make_selector, compile_selector}

-- `raw_custom_handler_instance_t`: 16 packed bytes; each of the six bytes of `opNop` is `op_nop`.
pub record CustomHandler : Type 0 where
  pub op_cli_code : ℕ
  pub op_push1_code : ℕ
  pub op_push1_arg : ℕ
  pub op_push2_code : ℕ
  pub op_push2_arg : ℕ
  pub op_jmp_code : ℕ
  pub op_jmp_arg : ℕ
  pub op_nop : ℕ

-- `stub` is `&irq_common_stub`, `h` the address of the handler, whose `opNop` is at offset 10.
unfoldable pub make_custom_handler : (stub h n : ℕ) → CustomHandler
make_custom_handler stub h n = record {
  op_cli_code = 0xFA;
  op_push1_code = 0x6A;
  op_push1_arg = 0;
  op_push2_code = 0x6A;
  op_push2_arg = u8 n;
  op_jmp_code = 0xE9;
  op_jmp_arg = sub32 stub (u32 (h + 10));
  op_nop = 0x90;
}

-- `idt_descriptor_t`
pub record IdtDescriptor : Type 0 where
  pub base_1 : ℕ
  pub sel : ℕ
  pub always0 : ℕ
  pub flags : ℕ
  pub base_2 : ℕ

abbrev pub handlers_count : ℕ
handlers_count = 0x30

-- `custom_handlers` and `idt_seg`
pub record IdtState : Type 0 where
  pub custom_handlers : ℕ → CustomHandler
  pub idt_seg : ℕ → IdtDescriptor

unfoldable pub idt_set : (num base sel flags : ℕ) → IdtState → IdtState
idt_set num base sel flags s = record s {
  idt_seg = update s.idt_seg (u8 num) (record {
    base_1 = u16 (bit_and base 0xFFFF);
    base_2 = u16 (bit_and (base >> 16) 0xFFFF);
    sel = sel;
    always0 = 0;
    flags = flags;
  });
}

-- The address of `custom_handlers[i]`, where the array lies at `handlers`.
abbrev pub handler_address : ℕ → ℕ → ℕ
handler_address handlers i = u32 (handlers + i * 16)

unfoldable pub init_gate : (stub handlers i : ℕ) → IdtState → IdtState
unfolding make_custom_handler idt_set make_selector compile_selector
init_gate stub handlers i s =
    idt_set i (handler_address handlers i) (compile_selector (make_selector 3 false 0)) 0x8E
      (record s {
        custom_handlers =
            update s.custom_handlers i (make_custom_handler stub (handler_address handlers i) i);
      })

-- The tables that `init_idt` fills; `ptr.limit` and `ptr.adr` are constants.
unfoldable pub init_idt : (stub handlers : ℕ) → IdtState → IdtState
unfolding init_gate
init_idt stub handlers s = count_up (init_gate stub handlers) handlers_count 0 s
