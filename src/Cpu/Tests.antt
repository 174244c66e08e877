-- ===== src/Cpu/Tests.antt =====
-- An interrupt at a concrete state.
use test_kernel.Base.{◌≡◌, true, false, some, [], arith}
use test_kernel.Threads.{zero_registers}
use test_kernel.Threads.Lifecycle.{zero_thread}
use test_kernel.Display.{Display, init_display}
use test_kernel.Display.Shown.{started, Reach-IsShown}
use test_kernel.Cpu.{Machine, irq_handler}
use test_kernel.Cpu.Vectors.{Answered, ended, irq_handler-Answered}

abbrev off : Display
off = record {
  terminals = λ n. record {
    buff = λ i. 0;
    tty_cursor = 0;
    tty_attribute = 0;
    terminal_num = 0;
    is_visible = false;
  };
  tmp_terminal_num = 0;
  video = λ i. 0;
}

-- The mouse, at the slave controller, has interrupted thread 0.
abbrev mouse : Machine
mouse = record {
  kernel = record {
    threads = λ i. zero_thread;
    threading_enabled = true;
    curr_threads_count = 1;
    curr_thread_index = 0;
    frames = λ a. record zero_registers { int_no = 44 };
  };
  display = init_display off;
  outputs = [];
}

irq_handler-Answered_example :
    (t : Machine) × (irq_handler 1 0 100 (λ x. 0) 5000 mouse ≡ some (5000, t))
    × Answered mouse (ended 44 []) t
irq_handler-Answered_example =
    irq_handler-Answered 1 0 100 5000 (λ x. 0) mouse (omega arith) (Reach-IsShown (started off))
