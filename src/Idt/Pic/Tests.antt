-- ===== src/Idt/Pic/Tests.antt =====
-- The controllers as a machine of their own: two chips, at the ports of the master and of the
-- slave.
use test_kernel.Base.{ℕ, ◌+◌, ◌*◌, ◌/◌, ◌≡◌, refl, arith, ◌==◌, if◌then◌else◌, false}
use test_kernel.Idt.Pic.{Io, pic1_command, pic1_data, pic2_command, pic2_data}
use test_kernel.Idt.Pic.Remapped.{
  Phase, ready, wants_offset, wants_cascade, wants_mode, Chip, IsPic,
}

-- A byte at the data port.
data_byte : ℕ → Chip → Phase → Chip
data_byte v c ready = record c { mask = v }
data_byte v c wants_offset = record c { phase = wants_cascade; offset = v / 8 * 8 }
data_byte v c wants_cascade = record c { phase = wants_mode; cascade = v }
data_byte v c wants_mode = record c { phase = ready; mode = v }

-- A write to a port, for the chip at `command` and the port above it.
chip_write : (command port v : ℕ) → Chip → Chip
chip_write command port v c =
    if port == command
    then (if v == 0x11 then record c { phase = wants_offset; mask = 0 } else c)
    else if port == command + 1
    then data_byte v c c.phase
    else c

pub two_chips : Io (Chip × Chip)
two_chips = record {
  inb = λ port s.
      (if port == pic1_data then s.0.mask else if port == pic2_data then s.1.mask else 0, s);
  outb = λ port v s. (chip_write pic1_command port v s.0, chip_write pic2_command port v s.1);
}

-- As the firmware leaves them: at the vectors 8 and 112, with the cascade on line 2.
abbrev pub firmware : Chip × Chip
firmware = (
  record { phase = ready; offset = 8; cascade = 4; mode = 1; mask = 0xB8 },
  record { phase = ready; offset = 112; cascade = 2; mode = 1; mask = 0x8E },
)

chip_write-other :
    (command port v : ℕ) (c : Chip)
    → (port == command) ≡ false
    → (port == command + 1) ≡ false
    → chip_write command port v c ≡ c
unfolding chip_write
chip_write-other command port v c nc nd = rw (nc, nd) refl

pub master-IsPic : IsPic two_chips (λ s. s.0) pic1_command pic1_data
unfolding two_chips chip_write data_byte
master-IsPic = record {
  started = λ s. refl;
  offset_taken = λ s v p. rw p refl;
  cascade_taken = λ s v p. rw p refl;
  mode_taken = λ s v p. rw p refl;
  mask_taken = λ s v p. rw p refl;
  mask_read = λ s p. refl;
  read_only = λ s port. refl;
  others = λ s port v nc nd. chip_write-other pic1_command port v s.0 (ground arith) (ground arith);
}

pub slave-IsPic : IsPic two_chips (λ s. s.1) pic2_command pic2_data
unfolding two_chips chip_write data_byte
slave-IsPic = record {
  started = λ s. refl;
  offset_taken = λ s v p. rw p refl;
  cascade_taken = λ s v p. rw p refl;
  mode_taken = λ s v p. rw p refl;
  mask_taken = λ s v p. rw p refl;
  mask_read = λ s p. refl;
  read_only = λ s port. refl;
  others = λ s port v nc nd. chip_write-other pic2_command port v s.1 (ground arith) (ground arith);
}
