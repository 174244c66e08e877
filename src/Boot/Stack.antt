-- ===== src/Boot/Stack.antt =====
-- TestKernel1/src/main.c: `move_stack`, which copies the stack and moves the pointers in it.
pub mod Moved
use test_kernel.Base.{
  ℕ, zero, suc, ◌+◌, ◌-◌, ◌%◌, ◌^◌, Bool, true, false, ◌&&◌, Option, none, some, if◌then◌else◌, ltb,
  leb, u32, sub32,
}
use test_kernel.Mem.{Bytes, memcpy}
use test_kernel.Mem.Words.{load32, store32}

-- The first loop, which steps down by pages from `i` to below `bound` and does nothing else; `none`
-- where the fuel runs out.
unfoldable pub step_pages : (fuel i bound : ℕ) → Option ℕ
step_pages zero i bound = none
step_pages (suc fuel) i bound =
    let rest = step_pages fuel (sub32 i 0x1000) bound in if leb bound i then rest else some i

-- What the last loop makes of a word: one that lies strictly between the stack pointer and the
-- stack's start is moved.
abbrev pub relocated : (old_sp initial offset : ℕ) → ℕ → ℕ
relocated old_sp initial offset tmp =
    if ltb old_sp tmp && ltb tmp initial then u32 (tmp + offset) else tmp

unfoldable pub relocate_word : (old_sp initial offset i : ℕ) → Bytes → Bytes
relocate_word old_sp initial offset i m =
    let tmp = load32 m i in
    if ltb old_sp tmp && ltb tmp initial then store32 i (u32 (tmp + offset)) m else m

unfoldable pub relocate : (old_sp initial offset bound fuel i : ℕ) → Bytes → Option Bytes
relocate old_sp initial offset bound zero i m = none
relocate old_sp initial offset bound (suc fuel) i m =
    let rest =
      relocate old_sp initial offset bound fuel (sub32 i 4)
        (relocate_word old_sp initial offset i m) in
    if ltb bound i then rest else some m

-- The pointers to the stack and to its frame, and the memory.
pub record Stacked : Type 0 where
  pub stack_pointer : ℕ
  pub base_pointer : ℕ
  pub memory : Bytes

-- `move_stack`, with the pointers `old_sp` and `old_bp` that the processor holds, and with
-- `initial_esp`. Reloading cr3 is not modelled.
unfoldable pub move_stack :
    (fuel new_stack_start size old_sp old_bp initial_esp : ℕ) → Bytes → Option Stacked
move_stack fuel new_stack_start size old_sp old_bp initial_esp m =
    let bound = sub32 new_stack_start size in
    let offset = sub32 new_stack_start initial_esp in
    let new_sp = u32 (old_sp + offset) in
    elim (step_pages fuel new_stack_start bound) [
      | none ↦ none
      | some i ↦
          (elim (relocate old_sp initial_esp offset bound fuel new_stack_start
            (memcpy new_sp old_sp (sub32 initial_esp old_sp) m).1) [
              | none ↦ none
              | some n ↦ some (record {
                stack_pointer = new_sp;
                base_pointer = u32 (old_bp + offset);
                memory = n;
              })
            ])
    ]
