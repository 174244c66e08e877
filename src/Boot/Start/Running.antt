-- ===== src/Boot/Start/Running.antt =====
-- TestKernel1/src/main.c: the kernel at the end of its start.
use test_kernel.Base.{
  ℕ, ◌+◌, ◌*◌, ◌%◌, ◌^◌, ◌<◌, ◌≤◌, ◌≡◌, ◌≢◌, ◌⊎◌, update-ne, refl, ap, ◌∙◌, arith, true, some, List,
  length,
}
use test_kernel.Boot.{MultibootInfo, MmapEntry, Entries, get_free_page_address}
use test_kernel.Boot.Region.{IsMap}
use test_kernel.Boot.Console.{System, codes, string_at, put_text}
use test_kernel.Boot.Report.Text.{report_text, print_multiboot_info-Prints}
use test_kernel.Boot.PagingTest.{Mmu}
use test_kernel.Boot.PagingTest.Unseen.{IsApart, test_paging-Unseen}
use test_kernel.Boot.Start.{Machine, Layout, hello, init_cpu, put_terms, print_start, kernel_main}
use test_kernel.Display.{Display, init_display, clear, puts}
use test_kernel.Display.Shown.{IsShown, init_display-IsShown, clear-IsShown, puts-IsShown}
use test_kernel.Idt.Pic.{Io, init_interrupts, pic1_command, pic1_data, pic2_command, pic2_data}
use test_kernel.Idt.Pic.Remapped.{
  ready, Chip, IsPic, set_up, set_up, LineServed, init_interrupts-LineServed,
}
use test_kernel.Mem.Words.{load32, load32-same}
use test_kernel.Paging.Directory.{PageDirectory, init_directory}
use test_kernel.Paging.Directory.Identity.{Maps, init_directory_identity}
use test_kernel.Threads.{Kernel, running, init_main_thread, threading_start}
use test_kernel.Threads.Table.{IsSound}
use test_kernel.Threads.Lifecycle.{
  main_runs, zero_thread, booted, later, start, Reach-IsSound, boot,
}

-- What the boot loader and the linker are relied on for: the map is a list of entries, the
-- command line is a string, the search for a free page finds `new`, `x` is 10, and the buffers,
-- the command line, `x` and the new page lie apart.
pub record IsBootable (l : Layout) (fuel new : ℕ) (info : MultibootInfo) (m : Entries)
    (es : List MmapEntry) (command : List ℕ) (s : System) : Type 0 where
  pub map : IsMap info m info.mmap_addr es
  pub enough : length es < fuel
  pub command_there : string_at fuel info.cmdline s.memory ≡ some command
  pub command_apart : (info.cmdline + fuel ≤ l.report_buff) ⊎ (l.report_buff + 20 ≤ info.cmdline)
  pub page_found : get_free_page_address l.header l.end fuel info m ≡ some new
  pub ten : load32 s.memory l.x ≡ 10
  pub x_apart : (l.report_buff + 20 ≤ l.x) ⊎ (l.x + 4 ≤ l.report_buff)
  pub apart : IsApart l.x new l.test_buff
  pub stub_small : l.stub < 2 ^ 32
  pub directory_aligned : l.directory % 4096 ≡ 0
  pub directory_low : l.directory + 1025 * 4096 ≤ 2 ^ 32

-- The terminals after the greeting, the report, the nine terminals' own lines, the two tests and
-- the last line.
abbrev pub greeted : Display → Display
greeted d =
    let e = init_display d in let e = clear e.tmp_terminal_num e in puts e.tmp_terminal_num hello e

abbrev pub termed : Display → Display
termed d = puts 9 (codes "term 9\n") (
    puts 8 (codes "term 8\n") (
      puts 7 (codes "term 7\n") (
        puts 6 (codes "term 6\n") (
          puts 5 (codes "term 5\n") (
            puts 4 (codes "term 4\n") (
              puts 3 (codes "term 3\n")
                (puts 2 (codes "term 2\n") (puts 1 (codes "term 1\n") d))))))))

greeted-IsShown : (d : Display) → IsShown (greeted d)
greeted-IsShown d =
    let a = init_display-IsShown d in
    let b = clear-IsShown (init_display d).tmp_terminal_num (init_display d) a.chosen a in
    puts-IsShown _ hello _ b.chosen b

termed-IsShown : (d : Display) → IsShown d → IsShown (termed d)
termed-IsShown d w = puts-IsShown 9 _ _ (omega arith) (
    puts-IsShown 8 _ _ (omega arith) (
      puts-IsShown 7 _ _ (omega arith) (
        puts-IsShown 6 _ _ (omega arith) (
          puts-IsShown 5 _ _ (omega arith) (
            puts-IsShown 4 _ _ (omega arith) (
              puts-IsShown 3 _ _ (omega arith)
                (puts-IsShown 2 _ _ (omega arith) (puts-IsShown 1 _ _ (omega arith) w))))))))

put_terms-termed : (s : System) → put_terms s ≡ record s { display = termed s.display }
unfolding put_terms
put_terms-termed s = refl

module _ (l : Layout) (mmu : Mmu) (fuel new : ℕ) (info : MultibootInfo) (m : Entries)
    (es : List MmapEntry) (command : List ℕ) (d : PageDirectory)
    (walks : (k : PageDirectory) (v p : ℕ) → Maps l.directory k v p → mmu k v ≡ p) where
  -- What the whole start prints, on the terminals e.
  abbrev printed : Display → Display
  printed e = puts 0 (codes "main\n") (
      puts 1 (codes "test 1: 1.\ntest 2: 1.\n")
        (termed (puts 2 (report_text l.header l.end info es command) e)))

  printed-IsShown : (e : Display) → IsShown e → IsShown (printed e)
  printed-IsShown e w =
      puts-IsShown 0 _ _ (omega arith)
        (puts-IsShown 1 _ _ (omega arith) (termed-IsShown _ (puts-IsShown 2 _ e (omega arith) w)))

  print_start-printed :
      (s : System)
      → IsBootable l fuel new info m es command s
      → s.kernel_directory ≡ init_directory l.directory d
      → (t : System) × (print_start l mmu fuel info m s ≡ some t)
        × (t.display ≡ printed s.display)
        × (t.kernel_directory ≡ s.kernel_directory)
  unfolding print_start put_terms
  print_start-printed s b kernel =
      let (t, reported, says) =
        print_multiboot_info-Prints l.header l.end l.report_buff fuel info m es command s b.map
          b.enough b.command_there b.command_apart in
      let (u, tested, seen) =
        test_paging-Unseen l.header l.end l.x l.test_buff fuel l.directory new mmu info m d
          (put_terms t) b.directory_aligned b.directory_low (says.kernel_same ∙ kernel) walks
          (load32-same l.x t.memory s.memory (λ a le lt. says.kept a (ground (arith, b.x_apart)))
            ∙ b.ten)
          b.page_found b.apart in
      (
        put_text 0 (codes "main\n") u,
        rw (print_start, reported, tested) refl,
        ap (puts 0 (codes "main\n"))
            (seen.shown ∙ ap (λ e. puts 1 (codes "test 1: 1.\ntest 2: 1.\n") (termed e)) says.said),
        seen.kernel_same ∙ says.kernel_same,
      )

-- The kernel in its last loop, from the machine k on, with the controllers' views `chip1` and
-- `chip2`.
pub record IsRunning {S : Type 0} (l : Layout) (chip1 chip2 : S → Chip) (initial_stack : ℕ)
    (info : MultibootInfo) (es : List MmapEntry) (command : List ℕ) (k t : Machine S) : Type 0 where
  pub stack : t.initial_esp ≡ initial_stack
  pub interrupts : t.interrupts_on ≡ true
  pub main_thread :
      ((t.threads.threads 0).is_under_sheduling ≡ true) × ((t.threads.threads 0).state ≡ running)
  pub no_other : (i : ℕ) → i ≢ 0 → t.threads.threads i ≡ zero_thread
  pub one_thread : (t.threads.curr_threads_count ≡ 1) × (t.threads.curr_thread_index ≡ 0)
  pub threads_sound : IsSound (main_runs t.threads)
  pub scheduling : t.threads.threading_enabled ≡ true
  pub lines :
      (line : ℕ)
      → line < 8
      → LineServed t.idt l.stub l.handlers (chip1 t.ports) line
        × LineServed t.idt l.stub l.handlers (chip2 t.ports) line
  pub controllers :
      (chip1 t.ports ≡ set_up 32 4 (chip1 k.ports).mask)
      × (chip2 t.ports ≡ set_up 40 2 (chip2 k.ports).mask)
  pub identity : (v : ℕ) → v < 2 ^ 32 → Maps l.directory t.system.kernel_directory v v
  pub shown : IsShown t.system.display
  pub screen :
      t.system.display
      ≡ puts 0 (codes "main\n") (
          puts 1 (codes "test 1: 1.\ntest 2: 1.\n") (
            termed
              (puts 2 (report_text l.header l.end info es command) (greeted k.system.display))))

boot-IsSound : IsSound (main_runs (threading_start (init_main_thread boot)))
boot-IsSound = Reach-IsSound {mf = 0} {code = 0} {ds = 0} (later booted start)

module _ {S : Type 0} (io : Io S) (chip1 chip2 : S → Chip)
    (pic1 : IsPic io chip1 pic1_command pic1_data) (pic2 : IsPic io chip2 pic2_command pic2_data)
    (l : Layout) (mmu : Mmu) (fuel new initial_stack : ℕ) (info : MultibootInfo) (m : Entries)
    (es : List MmapEntry) (command : List ℕ)
    (walks : (k : PageDirectory) (v p : ℕ) → Maps l.directory k v p → mmu k v ≡ p)
    (k : Machine S) where
  kernel_main-runs :
      (s : System)
      → print_start l mmu fuel info m
          (init_cpu io l
            (record k { initial_esp = initial_stack; threads = init_main_thread k.threads })).system
        ≡ some s
      → kernel_main io l mmu fuel initial_stack info m k
        ≡ some
            (record (init_cpu io l
              (record k { initial_esp = initial_stack; threads = init_main_thread k.threads })) {
                threads =
                    threading_start
                      (init_cpu io l (record k {
                        initial_esp = initial_stack;
                        threads = init_main_thread k.threads;
                      })).threads;
                system = s;
              })
  unfolding kernel_main
  kernel_main-runs s printed = rw (kernel_main, printed) refl

  -- From the table of threads that the image holds, with both interrupt controllers ready, with
  -- masks of a byte, and the rest as `IsBootable` says, in a start during which no interrupt is
  -- raised, though `idt_flush` turns interrupts on, `kernel_main` reaches its last loop. Interrupts
  -- are on, threading is enabled, and the main thread, which is thread 0 and the only one, is in
  -- the schedule and runs, the controllers are at the vectors 32 and 40
  -- with the masks as before, each of their sixteen lines is served, every 32-bit address is
  -- mapped to itself, the screen is in order, and the terminals show the greeting, the report,
  -- the nine terminals' lines, twice 1 for the tests of the paging, and the last line.
  pub kernel_main-IsRunning :
      k.threads ≡ boot
      → (chip1 k.ports).phase ≡ ready
      → (chip2 k.ports).phase ≡ ready
      → (chip1 k.ports).mask < 256
      → (chip2 k.ports).mask < 256
      → IsBootable l fuel new info m es command k.system
      → (t : Machine S) × (kernel_main io l mmu fuel initial_stack info m k ≡ some t)
        × IsRunning l chip1 chip2 initial_stack info es command k t
  unfolding init_cpu threading_start init_main_thread
  kernel_main-IsRunning threads ready1 ready2 byte1 byte2 b =
      let n : Machine S =
        init_cpu io l
          (record k { initial_esp = initial_stack; threads = init_main_thread k.threads }) in
      let (up1, up2, served) =
        init_interrupts-LineServed io chip1 chip2 pic1 pic2 k.ports ready1 ready2 byte1 byte2 l.stub
          l.handlers k.idt b.stub_small in
      let (s, ran, screen, same) =
        print_start-printed l mmu fuel new info m es command k.system.kernel_directory walks
          n.system
          (record {
            map = b.map;
            enough = b.enough;
            command_there = b.command_there;
            command_apart = b.command_apart;
            page_found = b.page_found;
            ten = b.ten;
            x_apart = b.x_apart;
            apart = b.apart;
            stub_small = b.stub_small;
            directory_aligned = b.directory_aligned;
            directory_low = b.directory_low;
          })
          refl in
      (
        record n { threads = threading_start n.threads; system = s },
        kernel_main-runs s ran,
        record {
          stack = refl;
          interrupts = unfold init_interrupts in refl;
          main_thread = (refl, refl);
          no_other = λ i ne.
              update-ne k.threads.threads 0 i _ ne ∙ ap (λ (q : Kernel). q.threads i) threads;
          one_thread = (
            ap (λ (q : Kernel). q.curr_threads_count) threads,
            ap (λ (q : Kernel). q.curr_thread_index) threads,
          );
          threads_sound = rw threads boot-IsSound;
          scheduling = refl;
          lines = served;
          controllers = (up1, up2);
          identity = λ v small. rw same (
              init_directory_identity l.directory k.system.kernel_directory v b.directory_aligned
                b.directory_low small);
          shown = rw screen (
              printed-IsShown l mmu fuel new info m es command k.system.kernel_directory walks _
                (greeted-IsShown k.system.display));
          screen = screen;
        },
      )
