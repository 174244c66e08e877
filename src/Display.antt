-- ===== src/Display.antt =====
-- src/arch/ia32/display.c and include/arch/ia32/display.h: the terminals and the screen.
pub mod Shown
pub mod Scroll
mod Tests
use test_kernel.Base.{
  ℕ, ◌+◌, ◌-◌, ◌*◌, ◌%◌, ◌^◌, Bool, true, false, List, [], ◌∷◌, if◌then◌else◌, ltb, leb, ◌==◌,
  update, u8,
}
use test_kernel.Base.Loops.{count_up}

abbrev pub video_height : ℕ
video_height = 25

abbrev pub video_width : ℕ
video_width = 80

abbrev pub num_terminals : ℕ
num_terminals = 10

-- `terminal_t`; `buff` has 4160 bytes.
pub record Terminal : Type 0 where
  pub buff : ℕ → ℕ
  pub tty_cursor : ℕ
  pub tty_attribute : ℕ
  pub terminal_num : ℕ
  pub is_visible : Bool

-- The globals `terminals` and `display`, and the video memory from VIDEO_RAM on.
pub record Display : Type 0 where
  pub terminals : ℕ → Terminal
  pub tmp_terminal_num : ℕ
  pub video : ℕ → ℕ

abbrev pub set_terminal : ℕ → Terminal → Display → Display
set_terminal n t d = record d { terminals = update d.terminals n t }

unfoldable pub init_tty : ℕ → Display → Display
init_tty term_num d =
    set_terminal term_num (record (d.terminals term_num) { tty_cursor = 0; tty_attribute = 7 }) d

unfoldable pub buff_to_display : (ℕ → ℕ) → Display → Display
buff_to_display buff d = record d {
  video = count_up (λ i v. update v i (buff i)) (2 * video_height * video_width) 0 d.video;
}

-- `if (is_visible) buff_to_display(buff)`, at the end of `clear` and of `putchar`.
unfoldable pub show : ℕ → Display → Display
show term_num d =
    let t = d.terminals term_num in if t.is_visible then buff_to_display t.buff d else d

-- The loop of `clear`: a space into each cell; the attributes stay.
unfoldable pub blank : (ℕ → ℕ) → ℕ → ℕ
blank buff = count_up (λ i b. update b (i * 2) 0x20) (video_height * video_width) 0 buff

unfoldable pub clear : ℕ → Display → Display
clear term_num d =
    let t = d.terminals term_num in
    show term_num (set_terminal term_num (record t { buff = blank t.buff; tty_cursor = 0 }) d)

unfoldable pub init_terminal : ℕ → Display → Display
init_terminal term_num d =
    let c = clear term_num d in
    let t = c.terminals term_num in
    init_tty term_num
      (set_terminal term_num (record t { is_visible = term_num == 0; terminal_num = term_num }) c)

unfoldable pub init_display : Display → Display
init_display d =
    let e = count_up init_terminal num_terminals 0 d in
    buff_to_display (e.terminals 0).buff (record e { tmp_terminal_num = 0 })

unfoldable pub change_terminal : ℕ → Display → Display
change_terminal term_num d =
    let old = d.terminals d.tmp_terminal_num in
    let c = set_terminal d.tmp_terminal_num (record old { is_visible = false }) d in
    let e =
      set_terminal term_num (record (c.terminals term_num) { is_visible = true })
        (record c { tmp_terminal_num = term_num }) in
    buff_to_display (e.terminals term_num).buff e

unfoldable pub textcolor : ℕ → ℕ → Display → Display
textcolor term_num c d =
    set_terminal term_num (record (d.terminals term_num) { tty_attribute = c }) d

-- The byte at `video + i`. The loop of `putchar` reads one byte behind `buff`: the lowest one of
-- `tty_cursor`, which stands there.
unfoldable pub byte_at : Terminal → ℕ → ℕ
byte_at t i = if ltb i 4160 then t.buff i else u8 t.tty_cursor

unfoldable pub scroll_byte : ℕ → Terminal → Terminal
scroll_byte i t = record t { buff = update t.buff (i - video_width * 2) (byte_at t i) }

-- The loop from VIDEO_WIDTH * 2 to VIDEO_WIDTH * VIDEO_HEIGHT * 2 + VIDEO_WIDTH * 2, both included.
unfoldable pub scroll : Terminal → Terminal
scroll t = count_up scroll_byte 4001 160 t

-- The `switch` of `putchar`.
unfoldable pub put : ℕ → Terminal → Terminal
put c t =
    if c == 10
    then record t {
      tty_cursor = t.tty_cursor + video_width - (t.tty_cursor + video_width) % video_width;
    }
    else (if c == 9 then record t { tty_cursor = t.tty_cursor + 4 } else record t {
      buff =
          update (update t.buff (t.tty_cursor * 2) c) (t.tty_cursor * 2 + 1) (u8 t.tty_attribute);
      tty_cursor = t.tty_cursor + 1;
    })

-- `put`, and the scrolling where the cursor has left the screen.
unfoldable pub put_scroll : ℕ → Terminal → Terminal
put_scroll c t =
    let p = put c t in
    let s = scroll p in
    if leb (video_width * video_height) p.tty_cursor
    then record s { tty_cursor = s.tty_cursor - video_width }
    else p

unfoldable pub putchar : ℕ → ℕ → Display → Display
putchar term_num c d = show term_num (set_terminal term_num (put_scroll c (d.terminals term_num)) d)

-- `puts`, with the bytes in front of the terminating 0.
unfoldable pub puts : ℕ → List ℕ → Display → Display
puts term_num [] d = d
puts term_num (c ∷ cs) d = puts term_num cs (putchar term_num c d)
