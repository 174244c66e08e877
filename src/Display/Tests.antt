-- ===== src/Display/Tests.antt =====
-- The display at concrete states.
use test_kernel.Base.{ℕ, ◌+◌, ◌<◌, ◌≡◌, refl, false, [], ◌∷◌, arith, update}
use test_kernel.Display.{Terminal, Display, init_display, put, put_scroll}
use test_kernel.Display.Shown.{IsShown, started, called, put_string, choose, perform, Reach-IsShown}
use test_kernel.Display.Scroll.{put_scroll-rows}

abbrev zero_terminal : Terminal
zero_terminal = record {
  buff = λ i. 0;
  tty_cursor = 0;
  tty_attribute = 0;
  terminal_num = 0;
  is_visible = false;
}

abbrev off : Display
off = record { terminals = λ n. zero_terminal; tmp_terminal_num = 0; video = λ i. 0 }

-- "Hi" and a newline on terminal 2, and a switch to it.
Reach-IsShown_example :
    IsShown (perform (choose 2) (perform (put_string 2 (72 ∷ 105 ∷ 10 ∷ [])) (init_display off)))
Reach-IsShown_example = Reach-IsShown (
    called (called (started off) (put_string 2 (72 ∷ 105 ∷ 10 ∷ [])) (omega arith)) (choose 2)
      (omega arith))

-- A newline goes to the start of the next row, a tab four cells on.
newline_tab :
    ((put 10 (record zero_terminal { tty_cursor = 85 })).tty_cursor ≡ 160)
    × ((put 9 (record zero_terminal { tty_cursor = 85 })).tty_cursor ≡ 89)
unfolding put
newline_tab = (refl, refl)

abbrev full : Terminal
full = record zero_terminal { tty_cursor = 1999; tty_attribute = 7 }

put_scroll-rows_example :
    ((j : ℕ)
      → j < 4000
      → (put_scroll 65 full).buff j ≡ update (update full.buff 3998 65) 3999 7 (j + 160))
    × ((put_scroll 65 full).buff 4000 ≡ 208)
    × ((put_scroll 65 full).tty_cursor ≡ 1920)
put_scroll-rows_example = put_scroll-rows 65 full (omega arith) (omega arith) refl
