-- ===== src/Display/Shown.antt =====
-- src/arch/ia32/display.c: the screen shows the terminal that is chosen.
use test_kernel.Base.{
  ℕ, ◌+◌, ◌<◌, ◌≡◌, ◌≢◌, refl, sym, ap, ◌∙◌, subst, true, false, List, [], ◌∷◌, arith, ◌==◌, ==_iff,
  update, update_cases, update-same, update-ne, Bool-cases, inl, inr,
}
use test_kernel.Base.Loops.{count_up, count_up_inv}
use test_kernel.Display.{
  Terminal, Display, num_terminals, set_terminal, init_tty, buff_to_display, show, blank, clear,
  init_terminal, init_display, change_terminal, textcolor, put_scroll, putchar, puts,
}
use test_kernel.Display.Scroll.{buff_to_display-shows, put_scroll-cursor, put_scroll-visible}

-- Of the ten terminals the chosen one is visible and no other, the video memory holds its first
-- 4000 bytes, and every cursor is on the screen.
pub record IsShown (d : Display) : Type 0 where
  pub chosen : d.tmp_terminal_num < num_terminals
  pub visible : (k : ℕ) → k < num_terminals → (d.terminals k).is_visible ≡ (k == d.tmp_terminal_num)
  pub cursors : (k : ℕ) → k < num_terminals → (d.terminals k).tty_cursor < 2000
  pub video : (j : ℕ) → j < 4000 → d.video j ≡ (d.terminals d.tmp_terminal_num).buff j

set-visible :
    (n : ℕ) (t : Terminal) (d : Display)
    → IsShown d
    → t.is_visible ≡ (d.terminals n).is_visible
    → (k : ℕ) → k < num_terminals
    → (update d.terminals n t k).is_visible ≡ (k == d.tmp_terminal_num)
set-visible n t d w vis k lt =
    update_cases (λ (x : Terminal). x.is_visible ≡ (k == d.tmp_terminal_num)) d.terminals n t k
      (λ e. vis ∙ ap (λ i. (d.terminals i).is_visible) (sym e) ∙ w.visible k lt)
      (λ ne. w.visible k lt)

set-cursors :
    (n : ℕ) (t : Terminal) (f : ℕ → Terminal)
    → ((k : ℕ) → k < num_terminals → (f k).tty_cursor < 2000)
    → t.tty_cursor < 2000
    → (k : ℕ) → k < num_terminals
    → (update f n t k).tty_cursor < 2000
set-cursors n t f w cur k lt =
    update_cases (λ (x : Terminal). x.tty_cursor < 2000) f n t k (λ e. cur) (λ ne. w k lt)

-- A new value t for terminal n, with the screen left alone: n is not chosen, or the buffer is the
-- old one.
set-IsShown :
    (n : ℕ) (t : Terminal) (d : Display)
    → IsShown d
    → t.is_visible ≡ (d.terminals n).is_visible
    → t.tty_cursor < 2000
    → (n ≡ d.tmp_terminal_num → (j : ℕ) → j < 4000 → t.buff j ≡ (d.terminals n).buff j)
    → IsShown (set_terminal n t d)
set-IsShown n t d w vis cur same = record {
  chosen = w.chosen;
  visible = set-visible n t d w vis;
  cursors = set-cursors n t d.terminals w.cursors cur;
  video = λ j lj.
      w.video j lj
      ∙ update_cases (λ (x : Terminal). (d.terminals d.tmp_terminal_num).buff j ≡ x.buff j)
          d.terminals n t d.tmp_terminal_num
          (λ e. ap (λ i. (d.terminals i).buff j) e ∙ sym (same (sym e) j lj)) (λ ne. refl);
}

-- A new value for the chosen terminal, which is then copied to the screen.
copied-IsShown :
    (n : ℕ) (t : Terminal) (d : Display)
    → IsShown d
    → n ≡ d.tmp_terminal_num
    → t.is_visible ≡ (d.terminals n).is_visible
    → t.tty_cursor < 2000
    → IsShown (buff_to_display t.buff (set_terminal n t d))
unfolding buff_to_display
copied-IsShown n t d w e vis cur = record {
  chosen = w.chosen;
  visible = set-visible n t d w vis;
  cursors = set-cursors n t d.terminals w.cursors cur;
  video = λ j lj.
      buff_to_display-shows t.buff (set_terminal n t d) j lj
      ∙ update_cases (λ (x : Terminal). t.buff j ≡ x.buff j) d.terminals n t d.tmp_terminal_num
          (λ q. refl) (λ ne. absurd (ne (sym e)));
}

show-visible :
    (n : ℕ) (t : Terminal) (d : Display)
    → t.is_visible ≡ true
    → show n (set_terminal n t d) ≡ buff_to_display t.buff (set_terminal n t d)
unfolding show
show-visible n t d v = rw (update-same d.terminals n t, v) refl

show-hidden :
    (n : ℕ) (t : Terminal) (d : Display)
    → t.is_visible ≡ false
    → show n (set_terminal n t d) ≡ set_terminal n t d
unfolding show
show-hidden n t d v = rw (update-same d.terminals n t, v) refl

-- A new value t for terminal n, which is as visible as the old one, followed by `show`.
show-IsShown :
    (n : ℕ) (t : Terminal) (d : Display)
    → IsShown d
    → n < num_terminals
    → t.is_visible ≡ (d.terminals n).is_visible
    → t.tty_cursor < 2000
    → IsShown (show n (set_terminal n t d))
show-IsShown n t d w lt vis cur = elim (Bool-cases (n == d.tmp_terminal_num)) [
  | inl e ↦
      subst IsShown (sym (show-visible n t d (vis ∙ w.visible n lt ∙ e)))
        (copied-IsShown n t d w ((==_iff n d.tmp_terminal_num).0 e) vis cur)
  | inr e ↦
      subst IsShown (sym (show-hidden n t d (vis ∙ w.visible n lt ∙ e)))
        (set-IsShown n t d w vis cur (λ q. absurd (ground (arith, e, q))))
]

putchar-IsShown : (n c : ℕ) (d : Display) → n < num_terminals → IsShown d → IsShown (putchar n c d)
unfolding putchar
putchar-IsShown n c d lt w =
    show-IsShown n (put_scroll c (d.terminals n)) d w lt (put_scroll-visible c (d.terminals n))
      (put_scroll-cursor c (d.terminals n) (w.cursors n lt))

pub puts-IsShown :
    (n : ℕ) (cs : List ℕ) (d : Display) → n < num_terminals → IsShown d → IsShown (puts n cs d)
unfolding puts
puts-IsShown n [] d lt w = w
puts-IsShown n (c ∷ cs) d lt w = puts-IsShown n cs (putchar n c d) lt (putchar-IsShown n c d lt w)

pub clear-IsShown : (n : ℕ) (d : Display) → n < num_terminals → IsShown d → IsShown (clear n d)
unfolding clear
clear-IsShown n d lt w = show-IsShown n _ d w lt refl (omega arith)

textcolor-IsShown :
    (n c : ℕ) (d : Display) → n < num_terminals → IsShown d → IsShown (textcolor n c d)
unfolding textcolor
textcolor-IsShown n c d lt w = set-IsShown n _ d w refl (w.cursors n lt) (λ e j lj. refl)

-- The chosen terminal, hidden.
abbrev hidden : Display → ℕ → Terminal
hidden d =
    update d.terminals d.tmp_terminal_num
      (record (d.terminals d.tmp_terminal_num) { is_visible = false })

hidden-visible :
    (d : Display) (n k : ℕ)
    → IsShown d
    → k < num_terminals
    → k ≢ n
    → (hidden d k).is_visible ≡ (k == n)
hidden-visible d n k w lt ne =
    update_cases (λ (x : Terminal). x.is_visible ≡ (k == n)) d.terminals d.tmp_terminal_num _ k
      (λ e. ground arith) (λ old. w.visible k lt ∙ ground arith)

pub change_terminal-IsShown :
    (n : ℕ) (d : Display) → n < num_terminals → IsShown d → IsShown (change_terminal n d)
unfolding change_terminal buff_to_display
change_terminal-IsShown n d lt w =
    let cursors =
      set-cursors d.tmp_terminal_num
        (record (d.terminals d.tmp_terminal_num) { is_visible = false }) d.terminals w.cursors
        (w.cursors d.tmp_terminal_num w.chosen) in
    record {
      chosen = lt;
      visible = λ k lk.
          update_cases (λ (x : Terminal). x.is_visible ≡ (k == n)) (hidden d) n
            (record (hidden d n) { is_visible = true }) k (λ e. sym ((==_iff k n).1 e))
            (λ ne. hidden-visible d n k w lk ne);
      cursors =
          set-cursors n (record (hidden d n) { is_visible = true }) (hidden d) cursors
            (cursors n lt);
      video = λ j lj.
          buff_to_display-shows
            (update (hidden d) n (record (hidden d n) { is_visible = true }) n).buff
            (record d {
              terminals = update (hidden d) n (record (hidden d n) { is_visible = true });
              tmp_terminal_num = n;
            })
            j lj;
    }

show-terminals : (n : ℕ) (d : Display) → (show n d).terminals ≡ d.terminals
unfolding show buff_to_display
show-terminals n d = elim (Bool-cases (d.terminals n).is_visible) [
  | inl e ↦ rw e refl
  | inr e ↦ rw e refl
]

-- What the terminals below i are after i rounds of `init_display`.
abbrev Started : ℕ → Display → Type 0
Started i d =
    (k : ℕ) → k < i → ((d.terminals k).is_visible ≡ (k == 0)) × ((d.terminals k).tty_cursor ≡ 0)

clear-other : (n k : ℕ) (d : Display) → k ≢ n → (clear n d).terminals k ≡ d.terminals k
unfolding clear
clear-other n k d ne =
    ap (λ (f : ℕ → Terminal). f k) (show-terminals n (set_terminal n cleared d))
    ∙ update-ne d.terminals n k cleared ne
  where
    cleared : Terminal
    cleared = record (d.terminals n) { buff = blank (d.terminals n).buff; tty_cursor = 0 }

-- The terminals after `init_terminal`, from those after its `clear`.
abbrev named : ℕ → (ℕ → Terminal) → ℕ → Terminal
named n f = update f n (record (f n) { is_visible = n == 0; terminal_num = n })

init_terminal-Started : (n : ℕ) (d : Display) → Started n d → Started (n + 1) (init_terminal n d)
unfolding init_terminal init_tty
init_terminal-Started n d h k lt =
    update_cases (λ (x : Terminal). (x.is_visible ≡ (k == 0)) × (x.tty_cursor ≡ 0)) (named n f) n
      (record (named n f n) { tty_cursor = 0; tty_attribute = 7 }) k
      (λ e.
        (ap (λ (x : Terminal). x.is_visible) (update-same f n _) ∙ ap (λ i. i == 0) (sym e), refl))
      (λ ne.
        subst (λ (x : Terminal). (x.is_visible ≡ (k == 0)) × (x.tty_cursor ≡ 0))
          (sym (update-ne f n k _ ne ∙ clear-other n k d ne)) (h k (omega arith)))
  where
    f : ℕ → Terminal
    f = (clear n d).terminals

pub init_display-IsShown : (d : Display) → IsShown (init_display d)
unfolding init_display buff_to_display
init_display-IsShown d = record {
  chosen = omega arith;
  visible = λ k lt. (started k lt).0;
  cursors = λ k lt. rw ((started k lt).1) (omega arith);
  video =
      λ j lj. buff_to_display-shows (e.terminals 0).buff (record e { tmp_terminal_num = 0 }) j lj;
}
  where
    e : Display
    e = count_up init_terminal 10 0 d

    started : Started 10 e
    started =
        count_up_inv Started init_terminal 10 (λ i s lt h. init_terminal-Started i s h) 10 0 d refl
          (λ k lt. absurd (ground arith))

-- A call of one of the operations on the terminals.
pub data Call : Type 0 where
  put_char : (term_num c : ℕ) → Call
  put_string : (term_num : ℕ) → List ℕ → Call
  clear_terminal : (term_num : ℕ) → Call
  choose : (term_num : ℕ) → Call
  color : (term_num c : ℕ) → Call

abbrev pub terminal_of : Call → ℕ
terminal_of (put_char n c) = n
terminal_of (put_string n cs) = n
terminal_of (clear_terminal n) = n
terminal_of (choose n) = n
terminal_of (color n c) = n

unfoldable pub perform : Call → Display → Display
perform (put_char n c) d = putchar n c d
perform (put_string n cs) d = puts n cs d
perform (clear_terminal n) d = clear n d
perform (choose n) d = change_terminal n d
perform (color n c) d = textcolor n c d

-- From any state, `init_display` and then calls on the ten terminals.
pub data Reach : Display → Type 0 where
  started : (d : Display) → Reach (init_display d)
  called :
      {d : Display} → Reach d → (c : Call) → terminal_of c < num_terminals → Reach (perform c d)

perform-IsShown :
    (c : Call) (d : Display) → terminal_of c < num_terminals → IsShown d → IsShown (perform c d)
unfolding perform
perform-IsShown (put_char n c) d lt w = putchar-IsShown n c d lt w
perform-IsShown (put_string n cs) d lt w = puts-IsShown n cs d lt w
perform-IsShown (clear_terminal n) d lt w = clear-IsShown n d lt w
perform-IsShown (choose n) d lt w = change_terminal-IsShown n d lt w
perform-IsShown (color n c) d lt w = textcolor-IsShown n c d lt w

-- After `init_display`, whatever was there before, and any calls of `putchar`, `puts`, `clear`,
-- `change_terminal` and `textcolor` on terminals below 10, the chosen terminal is the only visible
-- one, the video memory holds the first 4000 bytes of its buffer, and every terminal's cursor is
-- below 2000.
pub Reach-IsShown : {d : Display} → Reach d → IsShown d
Reach-IsShown (started d) = init_display-IsShown d
Reach-IsShown (called {d} r c lt) = perform-IsShown c d lt (Reach-IsShown r)
