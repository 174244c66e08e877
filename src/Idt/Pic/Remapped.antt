-- ===== src/Idt/Pic/Remapped.antt =====
-- The interrupt controllers after `PIC_remap`. What an 8259A does with reads and writes of its
-- ports is a hypothesis.
use test_kernel.Base.{ℕ, ◌+◌, ◌*◌, ◌/◌, ◌^◌, ◌<◌, ◌≡◌, ◌≢◌, refl, ap, ◌∙◌, arith, u8}
use test_kernel.Idt.{IdtState, handler_address}
use test_kernel.Idt.Gates.{LeadsTo, Dispatches, init_idt-Dispatches}
use test_kernel.Idt.Pic.{
  Io, pic_remap, init_interrupts, pic1_command, pic1_data, pic2_command, pic2_data,
}

-- What a controller takes the next byte at its data port for.
pub data Phase : Type 0 where
  ready : Phase
  wants_offset : Phase
  wants_cascade : Phase
  wants_mode : Phase

pub record Chip : Type 0 where
  pub phase : Phase
  pub offset : ℕ
  pub cascade : ℕ
  pub mode : ℕ
  pub mask : ℕ

-- `chip` is the view of an 8259A on the two ports: the command 0x11 starts an initialisation and
-- clears the mask, three bytes at the data port complete it, any other byte there is the mask,
-- which a read returns. Of the vector offset the upper five bits count.
pub record IsPic {S : Type 0} (io : Io S) (chip : S → Chip) (command data_port : ℕ) : Type 0 where
  pub started :
      (s : S) → chip (io.outb command 0x11 s) ≡ record (chip s) { phase = wants_offset; mask = 0 }
  pub offset_taken :
      (s : S) (v : ℕ)
      → (chip s).phase ≡ wants_offset
      → chip (io.outb data_port v s) ≡ record (chip s) { phase = wants_cascade; offset = v / 8 * 8 }
  pub cascade_taken :
      (s : S) (v : ℕ)
      → (chip s).phase ≡ wants_cascade
      → chip (io.outb data_port v s) ≡ record (chip s) { phase = wants_mode; cascade = v }
  pub mode_taken :
      (s : S) (v : ℕ)
      → (chip s).phase ≡ wants_mode
      → chip (io.outb data_port v s) ≡ record (chip s) { phase = ready; mode = v }
  pub mask_taken :
      (s : S) (v : ℕ)
      → (chip s).phase ≡ ready
      → chip (io.outb data_port v s) ≡ record (chip s) { mask = v }
  pub mask_read : (s : S) → (chip s).phase ≡ ready → (io.inb data_port s).0 ≡ (chip s).mask
  pub read_only : (s : S) (port : ℕ) → chip (io.inb port s).1 ≡ chip s
  pub others :
      (s : S) (port v : ℕ) → port ≢ command → port ≢ data_port → chip (io.outb port v s) ≡ chip s

-- A controller that has been initialised.
abbrev pub set_up : (offset cascade mask : ℕ) → Chip
set_up o c k = record { phase = ready; offset = o; cascade = c; mode = 1; mask = k }

module _ {S : Type 0} (io : Io S) (chip : S → Chip) (command data_port : ℕ)
    (pic : IsPic io chip command data_port) where
  start :
      (s : S) (c : Chip)
      → chip s ≡ c
      → chip (io.outb command 0x11 s) ≡ record c { phase = wants_offset; mask = 0 }
  start s c h = pic.started s ∙ rw h refl

  take_offset :
      (s : S) (c : Chip) (v : ℕ)
      → chip s ≡ c
      → c.phase ≡ wants_offset
      → chip (io.outb data_port v s) ≡ record c { phase = wants_cascade; offset = v / 8 * 8 }
  take_offset s c v h p = pic.offset_taken s v (ap (λ d. d.phase) h ∙ p) ∙ rw h refl

  take_cascade :
      (s : S) (c : Chip) (v : ℕ)
      → chip s ≡ c
      → c.phase ≡ wants_cascade
      → chip (io.outb data_port v s) ≡ record c { phase = wants_mode; cascade = v }
  take_cascade s c v h p = pic.cascade_taken s v (ap (λ d. d.phase) h ∙ p) ∙ rw h refl

  take_mode :
      (s : S) (c : Chip) (v : ℕ)
      → chip s ≡ c
      → c.phase ≡ wants_mode
      → chip (io.outb data_port v s) ≡ record c { phase = ready; mode = v }
  take_mode s c v h p = pic.mode_taken s v (ap (λ d. d.phase) h ∙ p) ∙ rw h refl

  take_mask :
      (s : S) (c : Chip) (v : ℕ)
      → chip s ≡ c
      → c.phase ≡ ready
      → chip (io.outb data_port v s) ≡ record c { mask = v }
  take_mask s c v h p = pic.mask_taken s v (ap (λ d. d.phase) h ∙ p) ∙ rw h refl

  other :
      (s : S) (c : Chip) (port v : ℕ)
      → chip s ≡ c
      → port ≢ command
      → port ≢ data_port
      → chip (io.outb port v s) ≡ c
  other s c port v h nc nd = pic.others s port v nc nd ∙ h

-- The states that the writes of `PIC_remap` pass through.
module _ {S : Type 0} (io : Io S) (o1 o2 a1 a2 : ℕ) (s2 : S) where
  abbrev s3 : S
  s3 = io.outb pic1_command 0x11 s2

  abbrev s4 : S
  s4 = io.outb pic2_command 0x11 s3

  abbrev s5 : S
  s5 = io.outb pic1_data o1 s4

  abbrev s6 : S
  s6 = io.outb pic2_data o2 s5

  abbrev s7 : S
  s7 = io.outb pic1_data 4 s6

  abbrev s8 : S
  s8 = io.outb pic2_data 2 s7

  abbrev s9 : S
  s9 = io.outb pic1_data 1 s8

  abbrev s10 : S
  s10 = io.outb pic2_data 1 s9

  abbrev s11 : S
  s11 = io.outb pic1_data 0xFF s10

  abbrev s12 : S
  s12 = io.outb pic1_data a1 s11

  abbrev s13 : S
  s13 = io.outb pic2_data a2 s12

  programmed1 :
      (chip : S → Chip)
      → IsPic io chip pic1_command pic1_data
      → (chip s2).phase ≡ ready
      → chip s13 ≡ set_up (o1 / 8 * 8) 4 a1
  programmed1 chip pic r =
      let e3 : chip s3 ≡ (record (chip s2) { phase = wants_offset; mask = 0 }) =
        start io chip pic1_command pic1_data pic s2 (chip s2) refl in
      let e4 : chip s4 ≡ (record (chip s2) { phase = wants_offset; mask = 0 }) =
        other io chip pic1_command pic1_data pic s3
          (record (chip s2) { phase = wants_offset; mask = 0 }) pic2_command 0x11 e3 (omega arith)
          (omega arith) in
      let e5 : chip s5
          ≡ (record (chip s2) { phase = wants_cascade; offset = o1 / 8 * 8; mask = 0 }) =
        take_offset io chip pic1_command pic1_data pic s4
          (record (chip s2) { phase = wants_offset; mask = 0 }) o1 e4 refl in
      let e6 : chip s6
          ≡ (record (chip s2) { phase = wants_cascade; offset = o1 / 8 * 8; mask = 0 }) =
        other io chip pic1_command pic1_data pic s5
          (record (chip s2) { phase = wants_cascade; offset = o1 / 8 * 8; mask = 0 }) pic2_data o2
          e5 (omega arith) (omega arith) in
      let e7 : chip s7
          ≡ (record (chip s2) { phase = wants_mode; offset = o1 / 8 * 8; cascade = 4; mask = 0 }) =
        take_cascade io chip pic1_command pic1_data pic s6
          (record (chip s2) { phase = wants_cascade; offset = o1 / 8 * 8; mask = 0 }) 4 e6 refl in
      let e8 : chip s8
          ≡ (record (chip s2) { phase = wants_mode; offset = o1 / 8 * 8; cascade = 4; mask = 0 }) =
        other io chip pic1_command pic1_data pic s7
          (record (chip s2) { phase = wants_mode; offset = o1 / 8 * 8; cascade = 4; mask = 0 })
          pic2_data 2 e7 (omega arith) (omega arith) in
      let e9 : chip s9 ≡ (set_up (o1 / 8 * 8) 4 0) =
        take_mode io chip pic1_command pic1_data pic s8
          (record (chip s2) { phase = wants_mode; offset = o1 / 8 * 8; cascade = 4; mask = 0 }) 1 e8
          refl in
      let e10 : chip s10 ≡ (set_up (o1 / 8 * 8) 4 0) =
        other io chip pic1_command pic1_data pic s9 (set_up (o1 / 8 * 8) 4 0) pic2_data 1 e9
          (omega arith) (omega arith) in
      let e11 : chip s11 ≡ (set_up (o1 / 8 * 8) 4 0xFF) =
        take_mask io chip pic1_command pic1_data pic s10 (set_up (o1 / 8 * 8) 4 0) 0xFF e10 refl in
      let e12 : chip s12 ≡ (set_up (o1 / 8 * 8) 4 a1) =
        take_mask io chip pic1_command pic1_data pic s11 (set_up (o1 / 8 * 8) 4 0xFF) a1 e11 refl in
      other io chip pic1_command pic1_data pic s12 (set_up (o1 / 8 * 8) 4 a1) pic2_data a2 e12
        (omega arith) (omega arith)

  programmed2 :
      (chip : S → Chip)
      → IsPic io chip pic2_command pic2_data
      → (chip s2).phase ≡ ready
      → chip s13 ≡ set_up (o2 / 8 * 8) 2 a2
  programmed2 chip pic r =
      let e3 : chip s3 ≡ (chip s2) =
        other io chip pic2_command pic2_data pic s2 (chip s2) pic1_command 0x11 refl (omega arith)
          (omega arith) in
      let e4 : chip s4 ≡ (record (chip s2) { phase = wants_offset; mask = 0 }) =
        start io chip pic2_command pic2_data pic s3 (chip s2) e3 in
      let e5 : chip s5 ≡ (record (chip s2) { phase = wants_offset; mask = 0 }) =
        other io chip pic2_command pic2_data pic s4
          (record (chip s2) { phase = wants_offset; mask = 0 }) pic1_data o1 e4 (omega arith)
          (omega arith) in
      let e6 : chip s6
          ≡ (record (chip s2) { phase = wants_cascade; offset = o2 / 8 * 8; mask = 0 }) =
        take_offset io chip pic2_command pic2_data pic s5
          (record (chip s2) { phase = wants_offset; mask = 0 }) o2 e5 refl in
      let e7 : chip s7
          ≡ (record (chip s2) { phase = wants_cascade; offset = o2 / 8 * 8; mask = 0 }) =
        other io chip pic2_command pic2_data pic s6
          (record (chip s2) { phase = wants_cascade; offset = o2 / 8 * 8; mask = 0 }) pic1_data 4 e6
          (omega arith) (omega arith) in
      let e8 : chip s8
          ≡ (record (chip s2) { phase = wants_mode; offset = o2 / 8 * 8; cascade = 2; mask = 0 }) =
        take_cascade io chip pic2_command pic2_data pic s7
          (record (chip s2) { phase = wants_cascade; offset = o2 / 8 * 8; mask = 0 }) 2 e7 refl in
      let e9 : chip s9
          ≡ (record (chip s2) { phase = wants_mode; offset = o2 / 8 * 8; cascade = 2; mask = 0 }) =
        other io chip pic2_command pic2_data pic s8
          (record (chip s2) { phase = wants_mode; offset = o2 / 8 * 8; cascade = 2; mask = 0 })
          pic1_data 1 e8 (omega arith) (omega arith) in
      let e10 : chip s10 ≡ (set_up (o2 / 8 * 8) 2 0) =
        take_mode io chip pic2_command pic2_data pic s9
          (record (chip s2) { phase = wants_mode; offset = o2 / 8 * 8; cascade = 2; mask = 0 }) 1 e9
          refl in
      let e11 : chip s11 ≡ (set_up (o2 / 8 * 8) 2 0) =
        other io chip pic2_command pic2_data pic s10 (set_up (o2 / 8 * 8) 2 0) pic1_data 0xFF e10
          (omega arith) (omega arith) in
      let e12 : chip s12 ≡ (set_up (o2 / 8 * 8) 2 0) =
        other io chip pic2_command pic2_data pic s11 (set_up (o2 / 8 * 8) 2 0) pic1_data a1 e11
          (omega arith) (omega arith) in
      take_mask io chip pic2_command pic2_data pic s12 (set_up (o2 / 8 * 8) 2 0) a2 e12 refl

-- Line `line` of a controller raises the vector of a gate that leads to that vector's own
-- handler, which pushes the vector and goes on at the common stub.
pub record LineServed (t : IdtState) (stub handlers : ℕ) (c : Chip) (line : ℕ) : Type 0 where
  pub gate : LeadsTo (t.idt_seg (c.offset + line)) (handler_address handlers (c.offset + line))
  pub handler :
      Dispatches
        (t.custom_handlers (c.offset + line))
        (handler_address handlers (c.offset + line))
        (c.offset + line)
        stub

module _ {S : Type 0} (io : Io S) (chip1 chip2 : S → Chip)
    (pic1 : IsPic io chip1 pic1_command pic1_data) (pic2 : IsPic io chip2 pic2_command pic2_data)
    (s : S) (ready1 : (chip1 s).phase ≡ ready) (ready2 : (chip2 s).phase ≡ ready)
    (byte1 : (chip1 s).mask < 256) (byte2 : (chip2 s).mask < 256) where
  -- After the masks have been read.
  abbrev read_masks : S
  read_masks = (io.inb pic2_data (io.inb pic1_data s).1).1

  kept1 : chip1 read_masks ≡ chip1 s
  kept1 = pic1.read_only _ pic2_data ∙ pic1.read_only s pic1_data

  kept2 : chip2 read_masks ≡ chip2 s
  kept2 = pic2.read_only _ pic2_data ∙ pic2.read_only s pic1_data

  mask1 : u8 (u8 (io.inb pic1_data s).0) ≡ (chip1 s).mask
  mask1 = omega (arith, pic1.mask_read s ready1, byte1)

  mask2 : u8 (u8 (io.inb pic2_data (io.inb pic1_data s).1).0) ≡ (chip2 s).mask
  mask2 =
      let seen : (io.inb pic2_data (io.inb pic1_data s).1).0 ≡ (chip2 s).mask =
        pic2.mask_read _ (ap (λ c. c.phase) (pic2.read_only s pic1_data) ∙ ready2)
        ∙ ap (λ c. c.mask) (pic2.read_only s pic1_data) in
      omega (arith, seen, byte2)

  pic_remap-SetUp :
      (o1 o2 : ℕ)
      → o1 < 256
      → o2 < 256
      → (chip1 (pic_remap io o1 o2 s) ≡ set_up (o1 / 8 * 8) 4 (chip1 s).mask)
        × (chip2 (pic_remap io o1 o2 s) ≡ set_up (o2 / 8 * 8) 2 (chip2 s).mask)
  unfolding pic_remap
  pic_remap-SetUp o1 o2 lt1 lt2 =
      let small1 : u8 o1 ≡ o1 = omega arith in
      let small2 : u8 o2 ≡ o2 = omega arith in
      (
        programmed1 io (u8 o1) (u8 o2) _ _ read_masks chip1 pic1 (ap (λ c. c.phase) kept1 ∙ ready1)
            ∙ rw (small1, mask1) refl,
        programmed2 io (u8 o1) (u8 o2) _ _ read_masks chip2 pic2 (ap (λ c. c.phase) kept2 ∙ ready2)
            ∙ rw (small2, mask2) refl,
      )

  -- Where both controllers are ready, with masks of a byte, `init_idt` with its `PIC_remap` leaves
  -- them ready, at the offsets 32 and 40, with the slave on line 2 of the master and with the masks
  -- that they had before, and each of the sixteen lines is served.
  pub init_interrupts-LineServed :
      (stub handlers : ℕ) (t : IdtState)
      → stub < 2 ^ 32
      → (chip1 (init_interrupts io stub handlers (t, s)).1 ≡ set_up 32 4 (chip1 s).mask)
        × (chip2 (init_interrupts io stub handlers (t, s)).1 ≡ set_up 40 2 (chip2 s).mask)
        × ((line : ℕ)
            → line < 8
            → LineServed
                (init_interrupts io stub handlers (t, s)).0
                stub
                handlers
                (chip1 (init_interrupts io stub handlers (t, s)).1)
                line
              × LineServed
                  (init_interrupts io stub handlers (t, s)).0
                  stub
                  handlers
                  (chip2 (init_interrupts io stub handlers (t, s)).1)
                  line)
  unfolding init_interrupts
  init_interrupts-LineServed stub handlers t small =
      let (up1, up2) = pic_remap-SetUp 0x20 0x28 (omega arith) (omega arith) in
      (
        up1,
        up2,
        λ line lt.
            let (gate1, handler1) =
              init_idt-Dispatches stub handlers t (32 + line) small (omega arith) in
            let (gate2, handler2) =
              init_idt-Dispatches stub handlers t (40 + line) small (omega arith) in
            (
              rw up1 (record { gate = gate1; handler = handler1 }),
              rw up2 (record { gate = gate2; handler = handler2 }),
            ),
      )
