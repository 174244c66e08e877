-- ===== src/Display/Scroll.antt =====
-- src/arch/ia32/display.c: what the loops over bytes do.
use test_kernel.Base.{
  ℕ, ◌+◌, ◌-◌, ◌*◌, ◌<◌, ◌≤◌, ◌≡◌, ◌≢◌, refl, sym, true, false, arith, if◌then◌else◌, ltb, leb,
  ◌==◌, update, update_cases, u8, ap, ◌∙◌,
}
use test_kernel.Base.Loops.{count_up_inv}
use test_kernel.Display.{
  Terminal, Display, byte_at, scroll_byte, scroll, buff_to_display, put, put_scroll,
}

-- After `buff_to_display` the screen shows the first 4000 bytes of the buffer.
pub buff_to_display-shows :
    (buff : ℕ → ℕ) (d : Display) (j : ℕ) → j < 4000 → (buff_to_display buff d).video j ≡ buff j
unfolding buff_to_display
buff_to_display-shows buff d j lt =
    count_up_inv (λ i v. (k : ℕ) → k < i → v k ≡ buff k) (λ i v. update v i (buff i)) 4000
      (λ i v li h k lk.
        update_cases (λ x. x ≡ buff k) v i (buff i) k (λ e. ap buff (sym e))
          (λ ne. h k (omega arith)))
      4000 0 d.video refl (λ k lk. absurd (ground arith)) j lt

-- While the loop of `putchar` stands at i, the bytes below i - 160 are those 160 further on.
pub record Scrolled (t : Terminal) (i : ℕ) (s : Terminal) : Type 0 where
  pub above : (j : ℕ) → i ≤ j + 160 → s.buff j ≡ t.buff j
  pub below : (j : ℕ) → j + 160 < i → s.buff j ≡ byte_at t (j + 160)
  pub cursor : s.tty_cursor ≡ t.tty_cursor
  pub visible : s.is_visible ≡ t.is_visible
  pub attribute : s.tty_attribute ≡ t.tty_attribute

byte_at-same :
    (s t : Terminal) (i : ℕ)
    → s.buff i ≡ t.buff i
    → s.tty_cursor ≡ t.tty_cursor
    → byte_at s i ≡ byte_at t i
unfolding byte_at
byte_at-same s t i b c = λ j. if ltb i 4160 then b j else u8 (c j)

scroll_byte-Scrolled :
    (t : Terminal) (i : ℕ) (s : Terminal)
    → i < 4161
    → 160 ≤ i
    → Scrolled t i s
    → Scrolled t (i + 1) (scroll_byte i s)
unfolding scroll_byte
scroll_byte-Scrolled t i s lt ge w = record {
  above = λ j le.
      update_cases (λ x. x ≡ t.buff j) s.buff (i - 160) _ j (λ e. absurd (ground arith))
        (λ ne. w.above j (omega arith));
  below = λ j le.
      update_cases (λ x. x ≡ byte_at t (j + 160)) s.buff (i - 160) _ j
        (λ e.
          let at : i ≡ j + 160 = omega arith in
          byte_at-same s t i (w.above i (omega arith)) w.cursor ∙ ap (byte_at t) at)
        (λ ne. w.below j (omega arith));
  cursor = w.cursor;
  visible = w.visible;
  attribute = w.attribute;
}

pub scroll-Scrolled : (t : Terminal) → Scrolled t 4161 (scroll t)
unfolding scroll
scroll-Scrolled t =
    (count_up_inv (λ i s. (160 ≤ i) × Scrolled t i s) scroll_byte 4161
      (λ i s lt h. (omega arith, scroll_byte-Scrolled t i s lt h.0 h.1)) 4001 160 t refl
      (
        omega arith,
        record {
          above = λ j le. refl;
          below = λ j le. absurd (ground arith);
          cursor = refl;
          visible = refl;
          attribute = refl;
        },
      )).1

pub put-visible : (c : ℕ) (t : Terminal) → (put c t).is_visible ≡ t.is_visible
unfolding put
put-visible c t = ground arith

pub put-cursor : (c : ℕ) (t : Terminal) → t.tty_cursor < 2000 → (put c t).tty_cursor < 2080
unfolding put
put-cursor c t lt = ground arith

-- The cursor stays on the screen.
pub put_scroll-cursor :
    (c : ℕ) (t : Terminal) → t.tty_cursor < 2000 → (put_scroll c t).tty_cursor < 2000
unfolding put_scroll
put_scroll-cursor c t lt = ground (arith, put-cursor c t lt, (scroll-Scrolled (put c t)).cursor)

pub put_scroll-visible : (c : ℕ) (t : Terminal) → (put_scroll c t).is_visible ≡ t.is_visible
unfolding put_scroll
put_scroll-visible c t = ground (arith, put-visible c t, (scroll-Scrolled (put c t)).visible)

put-plain :
    (c : ℕ) (t : Terminal)
    → c ≢ 10
    → c ≢ 9
    → put c t ≡ record t {
      buff =
          update (update t.buff (t.tty_cursor * 2) c) (t.tty_cursor * 2 + 1) (u8 t.tty_attribute);
      tty_cursor = t.tty_cursor + 1;
    }
unfolding put
put-plain c t nl tab =
    let not_newline : (c == 10) ≡ false = ground arith in
    let not_tab : (c == 9) ≡ false = ground arith in rw (put, not_newline, not_tab) refl

put_scroll-over :
    (c : ℕ) (t : Terminal)
    → 2000 ≤ (put c t).tty_cursor
    → put_scroll c t ≡ record (scroll (put c t)) { tty_cursor = (scroll (put c t)).tty_cursor - 80 }
unfolding put_scroll
put_scroll-over c t le =
    let full : leb 2000 (put c t).tty_cursor ≡ true = ground arith in rw (put_scroll, full) refl

byte_at-inside : (t : Terminal) (i : ℕ) → i < 4160 → byte_at t i ≡ t.buff i
unfolding byte_at
byte_at-inside t i lt = ground arith

byte_at-behind : (t : Terminal) → byte_at t 4160 ≡ u8 t.tty_cursor
unfolding byte_at
byte_at-behind t = refl

-- A character other than a newline and a tab that fills the last cell of the screen moves every
-- row up by one: byte j of the screen's 4000 is the byte 160 further on after the character and its
-- attribute have been written, the byte behind the screen becomes 208, the low byte of the cursor
-- 2000, and the cursor goes to the first cell of the last row.
pub put_scroll-rows :
    (c : ℕ) (t : Terminal)
    → c ≢ 10
    → c ≢ 9
    → t.tty_cursor ≡ 1999
    → ((j : ℕ)
        → j < 4000
        → (put_scroll c t).buff j
          ≡ update (update t.buff 3998 c) 3999 (u8 t.tty_attribute) (j + 160))
      × ((put_scroll c t).buff 4000 ≡ 208)
      × ((put_scroll c t).tty_cursor ≡ 1920)
put_scroll-rows c t nl tab last =
    let plain = put-plain c t nl tab in
    let full : (put c t).tty_cursor ≡ 2000 =
      ap (λ (p : Terminal). p.tty_cursor) plain ∙ ap (λ k. k + 1) last in
    let over = put_scroll-over c t (omega arith) in
    let moved = scroll-Scrolled (put c t) in
    (
      λ j lt.
          ap (λ (p : Terminal). p.buff j) over
          ∙ moved.below j (omega arith)
          ∙ byte_at-inside (put c t) (j + 160) (omega arith)
          ∙ ap (λ (p : Terminal). p.buff (j + 160)) plain
          ∙ ap (λ k. update (update t.buff (k * 2) c) (k * 2 + 1) (u8 t.tty_attribute) (j + 160))
              last,
      ap (λ (p : Terminal). p.buff 4000) over
          ∙ moved.below 4000 (omega arith)
          ∙ byte_at-behind (put c t)
          ∙ ap u8 full,
      ap (λ (p : Terminal). p.tty_cursor) over ∙ ap (λ k. k - 80) (moved.cursor ∙ full),
    )
