-- ===== src/Idt/Pic.antt =====
-- TestKernel1/src/arch/ia32/cpu/idt.c: `PIC_remap`, over the ports of cpu/io.c. The machine's
-- `in` and `out` instructions are a parameter.
pub mod Remapped
pub mod Tests
use test_kernel.Base.{true, Bool, ℕ, ◌+◌, ◌%◌, ◌^◌, u8, u16}
use test_kernel.Idt.{IdtState, init_idt}

-- The instructions `inb` and `outb` on the states of a machine.
pub record Io (S : Type 0) : Type 0 where
  pub inb : (port : ℕ) → S → ℕ × S
  pub outb : (port value : ℕ) → S → S

abbrev pub outportb : {S : Type 0} → Io S → (port value : ℕ) → S → S
outportb io port value s = io.outb (u16 port) (u8 value) s

abbrev pub inportb : {S : Type 0} → Io S → (port : ℕ) → S → ℕ × S
inportb io port s = let (value, t) = io.inb (u16 port) s in (u8 value, t)

abbrev pub pic1_command : ℕ
pic1_command = 0x20

abbrev pub pic1_data : ℕ
pic1_data = 0x21

abbrev pub pic2_command : ℕ
pic2_command = 0xA0

abbrev pub pic2_data : ℕ
pic2_data = 0xA1

abbrev pub icw1_icw4 : ℕ
icw1_icw4 = 0x01

abbrev pub icw1_init : ℕ
icw1_init = 0x10

abbrev pub icw4_8086 : ℕ
icw4_8086 = 0x01

unfoldable pub pic_remap : {S : Type 0} → Io S → (offset1 offset2 : ℕ) → S → S
pic_remap io offset1 offset2 s =
    let (a1, s1) = inportb io pic1_data s in
    let (a2, s2) = inportb io pic2_data s1 in
    let s3 = outportb io pic1_command (icw1_init + icw1_icw4) s2 in
    let s4 = outportb io pic2_command (icw1_init + icw1_icw4) s3 in
    let s5 = outportb io pic1_data offset1 s4 in
    let s6 = outportb io pic2_data offset2 s5 in
    let s7 = outportb io pic1_data 4 s6 in
    let s8 = outportb io pic2_data 2 s7 in
    let s9 = outportb io pic1_data icw4_8086 s8 in
    let s10 = outportb io pic2_data icw4_8086 s9 in
    let s11 = outportb io pic1_data 0xFF s10 in
    let s12 = outportb io pic1_data a1 s11 in outportb io pic2_data a2 s12

-- `init_idt` as a whole: the tables, then the controllers, then `idt_flush`, which loads the table
-- and turns interrupts on: the last result is the interrupt flag.
unfoldable pub init_interrupts :
    {S : Type 0} → Io S → (stub handlers : ℕ) → IdtState × S → IdtState × S × Bool
init_interrupts io stub handlers (t, s) = (init_idt stub handlers t, pic_remap io 0x20 0x28 s, true)
