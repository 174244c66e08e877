-- ===== src/Boot/Start.antt =====
-- TestKernel1/src/main.c, `kernel_main`, and `init_cpu` of arch/ia32/cpu/cpu.c: the kernel's
-- start, up to the loop in which the main thread waits. `idt_flush` turns interrupts on early in
-- `init_cpu`; this is a start in which none is raised before the loop, so no handler runs.
pub mod Running
mod Tests
use test_kernel.Base.{Bool, ℕ, Option, none, some, List}
use test_kernel.Boot.{MultibootInfo, Entries}
use test_kernel.Boot.Console.{System, codes, ◌>>=◌, put_text}
use test_kernel.Boot.Report.{print_multiboot_info}
use test_kernel.Boot.PagingTest.{Mmu, test_paging}
use test_kernel.Display.{init_display, clear}
use test_kernel.Gdt.{GdtState, init_gdt}
use test_kernel.Idt.{IdtState}
use test_kernel.Idt.Pic.{Io, init_interrupts}
use test_kernel.Paging.Directory.{init_directory}
use test_kernel.Threads.{Kernel, init_main_thread, threading_start}

-- The globals of all parts, and the state S behind the machine's ports.
pub record Machine (S : Type 0) : Type 0 where
  pub initial_esp : ℕ
  pub interrupts_on : Bool
  pub threads : Kernel
  pub gdt : GdtState
  pub idt : IdtState
  pub ports : S
  pub system : System

-- The addresses that the linker and the stack give: the first and the last byte of the image, the
-- common stub, the handlers, the segments, the kernel's directory, `x`, and the two buffers.
pub record Layout : Type 0 where
  pub header : ℕ
  pub end : ℕ
  pub stub : ℕ
  pub handlers : ℕ
  pub segments : ℕ
  pub directory : ℕ
  pub x : ℕ
  pub report_buff : ℕ
  pub test_buff : ℕ

abbrev pub hello : List ℕ
hello = codes "Hello world from my custom kernel! ;)\n"

-- `init_cpu`
unfoldable pub init_cpu : {S : Type 0} → Io S → Layout → Machine S → Machine S
init_cpu io l k =
    let d = init_display k.system.display in
    let (table, ports, flag) = init_interrupts io l.stub l.handlers (k.idt, k.ports) in
    let system = record k.system {
      display = clear d.tmp_terminal_num d;
      kernel_directory = init_directory l.directory k.system.kernel_directory;
    } in
    record k {
      gdt = init_gdt l.segments;
      idt = table;
      ports = ports;
      interrupts_on = flag;
      system = put_text system.display.tmp_terminal_num hello system;
    }

-- The nine calls of `puts` behind the report.
unfoldable pub put_terms : System → System
put_terms s =
    let s = put_text 1 (codes "term 1\n") s in
    let s = put_text 2 (codes "term 2\n") s in
    let s = put_text 3 (codes "term 3\n") s in
    let s = put_text 4 (codes "term 4\n") s in
    let s = put_text 5 (codes "term 5\n") s in
    let s = put_text 6 (codes "term 6\n") s in
    let s = put_text 7 (codes "term 7\n") s in
    let s = put_text 8 (codes "term 8\n") s in put_text 9 (codes "term 9\n") s

-- From the report on.
unfoldable pub print_start :
    Layout → Mmu → (fuel : ℕ) → MultibootInfo → Entries → System → Option System
print_start l mmu fuel info m s = do
  s ← print_multiboot_info l.header l.end l.report_buff fuel info m s
  s ← test_paging l.header l.end l.x l.test_buff fuel mmu info m (put_terms s)
  some (put_text 0 (codes "main\n") s)

-- `kernel_main`
unfoldable pub kernel_main :
    {S : Type 0}
    → Io S
    → Layout
    → Mmu
    → (fuel initial_stack : ℕ) → MultibootInfo
    → Entries
    → Machine S
    → Option (Machine S)
kernel_main io l mmu fuel initial_stack info m k =
    let k =
      init_cpu io l
        (record k { initial_esp = initial_stack; threads = init_main_thread k.threads }) in
    print_start l mmu fuel info m k.system >>= λ s.
    some (record k { threads = threading_start k.threads; system = s })
