-- ===== src/Sync/Mutex/Example/Tests.antt =====
-- Thread 0 in the protected area of `mutexExample`.
use test_kernel.Base.{ℕ, ◌≡◌, refl, subst, arith}
use test_kernel.Sync.{Memory}
use test_kernel.Sync.Tests.{black, zeros}
use test_kernel.Sync.Mutex.{outside, wait_body, new_mutex, advance, capture, wait_test, loop_test}
use test_kernel.Sync.Mutex.Exclusion.{moved}
use test_kernel.Sync.Mutex.Example.{
  ready, Run, request_mutex, enter_area, requests, enters, moves, create_threads, mutex_example,
  Reach, made, later,
}
use test_kernel.Sync.Mutex.Example.Protected.{protected_area}
use test_kernel.Threads.{Kernel, add_thread, create_thread, slock_capture, get_current_thread_id}
use test_kernel.Threads.Lifecycle.{boot}

abbrev no_entries : Memory
no_entries = record { entries = λ a. record { thread_id = 0; next = 0 }; kernel = boot }

-- The stacks are at 0x2000, `ThreadProc` at 7.
abbrev three : Kernel
three =
    add_thread 1 24 32 7 0x4000 4096
      (add_thread 1 24 32 7 0x3000 4096 (add_thread 1 24 32 7 0x2000 4096 boot))

abbrev begun : Run
begun = record {
  system = record {
    pcs = λ t. outside;
    depths = λ t. 0;
    mutex = new_mutex;
    memory = record no_entries { kernel = three };
  };
  stages = λ t. ready;
  rounds = λ t. 0;
  display = black;
}

begun_there : mutex_example 1 24 32 7 0x2000 no_entries black ≡ begun
unfolding mutex_example create_threads create_thread
begun_there = refl

made_there : Reach 1 24 32 7 0x2000 begun
made_there = subst (Reach 1 24 32 7 0x2000) begun_there (made no_entries black (omega arith))

abbrev asked : Run
asked = request_mutex 0x90000 zeros begun

abbrev captured : Run
captured = record asked {
  system = moved 0 asked.system wait_body (record new_mutex { lock = 1 }) asked.system.memory;
}

abbrev taken : Run
taken = record captured {
  system =
      moved 0 captured.system outside (record new_mutex { owner_thread_id = 0; enter_counter = 1 })
        captured.system.memory;
}

inside-Reach : Reach 1 24 32 7 0x2000 (enter_area 0x90000 zeros taken)
unfolding request_mutex enter_area new_mutex advance capture slock_capture wait_test loop_test
    add_thread
inside-Reach =
    later
      (later
        (later (later made_there (requests 0x90000 zeros refl (omega arith))) (
          moves 0 wait_body (record new_mutex { lock = 1 }) (record no_entries { kernel = three })
            refl (omega arith) (omega arith)))
        (moves 0 outside (record new_mutex { owner_thread_id = 0; enter_counter = 1 })
          (record no_entries { kernel = three }) refl (omega arith) (omega arith)))
      (enters 0x90000 zeros refl refl)

protected_area_example :
    (◌≡◌ {A = ℕ} 0 0) × ((enter_area 0x90000 zeros taken).system.mutex.owner_thread_id ≡ 0)
unfolding request_mutex enter_area add_thread get_current_thread_id
protected_area_example = protected_area inside-Reach 0 0 refl refl
