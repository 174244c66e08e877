-- ===== src/Sync/Events/ManualExample/Tests.antt =====
-- The run of `manualResetEventExample`: six threads that wait, of which the fourth and the fifth
-- do so while the event is set.
use test_kernel.Base.{◌+◌, ◌*◌, ◌≡◌, refl, List, [], ◌∷◌}
use test_kernel.Sync.{Memory}
use test_kernel.Sync.Tests.{zeros}
use test_kernel.Sync.Events.ManualExample.{
  Act, creates, waits, sets, resets, Setting, manual_reset_event_example,
}
use test_kernel.Sync.Events.ManualExample.Refined.{no_waiters, after_all}
use test_kernel.Threads.Lifecycle.{boot}

abbrev setting : Setting
setting = record {
  th_main_func = 1;
  code_selector = 24;
  data_selector = 32;
  thread_proc = 7;
  stack = 0x2000;
  main = 0;
  buff = 0x90000;
  bytes = zeros;
  fuel = 4;
}

abbrev no_entries : Memory
no_entries = record { entries = λ a. record { thread_id = 0; next = 0 }; kernel = boot }

abbrev acts : List Act
acts = manual_reset_event_example 1 (λ t. 0x2000 + t * 1024)

-- In front of the second `set` the fourth and the fifth thread wait still.
three_wait :
    (after_all setting
      (creates 0
        ∷ waits 1 0x2400
        ∷ sets
        ∷ creates 1
        ∷ waits 2 0x2800
        ∷ resets
        ∷ creates 2
        ∷ waits 3 0x2c00
        ∷ [])
      (no_waiters boot)).es
    ≡ (0x2800, 2) ∷ (0x2c00, 3) ∷ []
three_wait = refl
