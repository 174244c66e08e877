-- ===== src/Boot/Report/Text.antt =====
-- TestKernel1/src/main.c: the text that `printMultibootInfo` prints.
use test_kernel.Base.{
  ℕ, zero, suc, ◌+◌, ◌*◌, ◌<◌, ◌≤◌, ◌≡◌, ◌⊎◌, inl, inr, refl, sym, ap, ◌∙◌, arith, true, false,
  Bool-cases, Option, some, List, [], ◌∷◌, ◌++◌, length, if◌then◌else◌, ◌==◌, bit_and, ◌>>◌, u32,
}
use test_kernel.Boot.{MultibootInfo, MmapEntry, Entries, in_map, next_entry}
use test_kernel.Boot.Region.{IsMap}
use test_kernel.Boot.Console.{
  System, codes, ◌>>=◌, string_at, string_at-same, put_line, put_line-puts, puts-++,
}
use test_kernel.Boot.Report.{
  print_uint, print_ulong, print_entry, print_entries, print_memory, print_map,
  print_multiboot_info,
}
use test_kernel.Boot.Report.Hex.{hex_string, utox-string_at, ultox-string_at}
use test_kernel.Display.{puts}
use test_kernel.Mem.{Bytes, utox, ultox}
use test_kernel.Mem.Decimal.{KeptOutside}

-- The reference: a line with a number, the lines of an entry, of the entries, and the report.
abbrev pub uint_line : List ℕ → ℕ → List ℕ
uint_line label n = label ++ (hex_string 8 n ++ codes "\n")

abbrev pub ulong_line : List ℕ → ℕ → List ℕ
ulong_line label n = label ++ (hex_string 16 n ++ codes "\n")

abbrev pub entry_text : MmapEntry → List ℕ
entry_text e =
    ulong_line (codes "addr: ") e.addr
    ++ (ulong_line (codes "  length: ") e.len ++ uint_line (codes "  type: ") e.type)

abbrev pub entries_text : List MmapEntry → List ℕ
entries_text [] = []
entries_text (e ∷ es) = entry_text e ++ entries_text es

abbrev pub memory_text : MultibootInfo → List ℕ
memory_text info =
    if bit_and (info.flags >> 0) 1 == 0
    then []
    else uint_line (codes "mem lower: ") (u32 (info.mem_lower * 1024))
      ++ uint_line (codes "mem upper: ") (u32 (info.mem_upper * 1024))

abbrev pub map_text : MultibootInfo → List MmapEntry → List ℕ
map_text info es = if bit_and (info.flags >> 6) 1 == 0 then [] else entries_text es

abbrev pub report_text : (header end : ℕ) → MultibootInfo → List MmapEntry → List ℕ → List ℕ
report_text header end info es command =
    uint_line (codes "flags: ") info.flags
    ++ (memory_text info
        ++ (map_text info es
            ++ ((codes "cmdline: " ++ (command ++ codes "\n"))
                ++ (ulong_line (codes "start: ") header ++ ulong_line (codes "end: ") end))))

-- From s to t the text `cs` has gone to terminal 2, and only the buffer's bytes may have changed.
pub record Says (buff : ℕ) (cs : List ℕ) (s t : System) : Type 0 where
  pub said : t.display ≡ puts 2 cs s.display
  pub kept : KeptOutside buff 20 s.memory t.memory
  pub kernel_same : t.kernel_directory ≡ s.kernel_directory
  pub current_same : t.current_directory ≡ s.current_directory

abbrev pub Prints : (buff : ℕ) → List ℕ → System → Option System → Type 0
Prints buff cs s o = (t : System) × (o ≡ some t) × Says buff cs s t

module _ (buff : ℕ) where
  Says-then :
      (a b : List ℕ) (s t u : System) → Says buff a s t → Says buff b t u → Says buff (a ++ b) s u
  Says-then a b s t u x y = record {
    said = y.said ∙ ap (puts 2 b) x.said ∙ sym (puts-++ 2 a b s.display);
    kept = λ p out. y.kept p out ∙ x.kept p out;
    kernel_same = y.kernel_same ∙ x.kernel_same;
    current_same = y.current_same ∙ x.current_same;
  }

  Prints-then :
      (a b : List ℕ) (s : System) (o : Option System) (f : System → Option System)
      → Prints buff a s o
      → ((t : System) → Says buff a s t → Prints buff b t (f t))
      → Prints buff (a ++ b) s (o >>= f)
  Prints-then a b s o f (t, ran, says) next =
      let (u, ran2, says2) = next t says in
      (u, ap (λ r. r >>= f) ran ∙ ran2, Says-then a b s t u says says2)

  nothing-Prints : (s : System) → Prints buff [] s (some s)
  nothing-Prints s = (
    s,
    refl,
    record {
      said = unfold puts in refl;
      kept = λ x out. refl;
      kernel_same = refl;
      current_same = refl;
    },
  )

  put_line-Prints :
      (fuel : ℕ) (before after cs : List ℕ) (convert : Bytes → ℕ × Bytes) (s : System)
      → string_at fuel (convert s.memory).0 (convert s.memory).1 ≡ some cs
      → KeptOutside buff 20 s.memory (convert s.memory).1
      → Prints buff (before ++ (cs ++ after)) s (put_line fuel 2 before after convert s)
  put_line-Prints fuel before after cs convert s found kept = (
    _,
    put_line-puts fuel 2 before after cs convert s found,
    record {
      said =
          sym (
            puts-++ 2 before (cs ++ after) s.display
            ∙ puts-++ 2 cs after (puts 2 before s.display));
      kept = kept;
      kernel_same = refl;
      current_same = refl;
    },
  )

  print_uint-Prints :
      (label : List ℕ) (n : ℕ) (s : System)
      → Prints buff (uint_line label n) s (print_uint label n buff s)
  print_uint-Prints label n s =
      let (found, kept) = utox-string_at n buff s.memory in
      put_line-Prints 20 label (codes "\n") (hex_string 8 n) (utox n buff 20) s found kept

  print_ulong-Prints :
      (label : List ℕ) (n : ℕ) (s : System)
      → Prints buff (ulong_line label n) s (print_ulong label n buff s)
  print_ulong-Prints label n s =
      let (found, kept) = ultox-string_at n buff s.memory in
      put_line-Prints 20 label (codes "\n") (hex_string 16 n) (ultox n buff 20) s found kept

  print_entry-Prints :
      (e : MmapEntry) (s : System) → Prints buff (entry_text e) s (print_entry buff e s)
  unfolding print_entry
  print_entry-Prints e s =
      Prints-then _ _ s _ _ (print_ulong-Prints (codes "addr: ") e.addr s) (λ t _.
        Prints-then _ _ t _ _ (print_ulong-Prints (codes "  length: ") e.len t)
          (λ u _. print_uint-Prints (codes "  type: ") e.type u))

  print_entries-stops :
      (info : MultibootInfo) (m : Entries) (fuel p : ℕ) (s : System)
      → in_map info p ≡ false
      → print_entries buff info m (suc fuel) p s ≡ some s
  unfolding print_entries
  print_entries-stops info m fuel p s over = rw (print_entries, over) refl

  print_entries-goes_on :
      (info : MultibootInfo) (m : Entries) (fuel p : ℕ) (s : System)
      → in_map info p ≡ true
      → print_entries buff info m (suc fuel) p s
        ≡ (print_entry buff (m p) s >>= print_entries buff info m fuel (next_entry m p))
  unfolding print_entries
  print_entries-goes_on info m fuel p s more = rw (print_entries, more) refl

  print_entries-Prints :
      (info : MultibootInfo) (m : Entries) (fuel p : ℕ) (es : List MmapEntry) (s : System)
      → IsMap info m p es
      → length es < fuel
      → Prints buff (entries_text es) s (print_entries buff info m fuel p s)
  print_entries-Prints info m zero p es s is enough = absurd (omega arith)
  print_entries-Prints info m (suc fuel) p [] s is enough =
      let (t, ran, says) = nothing-Prints s in
      (t, print_entries-stops info m fuel p s is ∙ ran, says)
  print_entries-Prints info m (suc fuel) p (e ∷ es) s (more, here, rest) enough =
      let (t, ran, says) =
        Prints-then (entry_text e) (entries_text es) s (print_entry buff (m p) s)
          (print_entries buff info m fuel (next_entry m p)) (rw here (print_entry-Prints e s))
          (λ u _. print_entries-Prints info m fuel (next_entry m p) es u rest (omega arith)) in
      (t, print_entries-goes_on info m fuel p s more ∙ ran, says)

  print_map-Prints :
      (info : MultibootInfo) (m : Entries) (fuel : ℕ) (es : List MmapEntry) (s : System)
      → IsMap info m info.mmap_addr es
      → length es < fuel
      → Prints buff (map_text info es) s (print_map buff info m fuel s)
  unfolding print_map
  print_map-Prints info m fuel es s is enough =
      elim (Bool-cases (bit_and (info.flags >> 6) 1 == 0)) [
        | inl none_given ↦ rw none_given (nothing-Prints s)
        | inr given ↦ rw given (print_entries-Prints info m fuel info.mmap_addr es s is enough)
      ]

  print_memory-Prints :
      (info : MultibootInfo) (s : System)
      → Prints buff (memory_text info) s (print_memory buff info s)
  unfolding print_memory
  print_memory-Prints info s = elim (Bool-cases (bit_and (info.flags >> 0) 1 == 0)) [
    | inl none_given ↦ rw none_given (nothing-Prints s)
    | inr given ↦ rw given (
        Prints-then _ _ s _ _
          (print_uint-Prints (codes "mem lower: ") (u32 (info.mem_lower * 1024)) s)
          (λ t _. print_uint-Prints (codes "mem upper: ") (u32 (info.mem_upper * 1024)) t))
  ]

  print_command-Prints :
      (fuel : ℕ) (info : MultibootInfo) (command : List ℕ) (s t : System)
      → string_at fuel info.cmdline s.memory ≡ some command
      → (info.cmdline + fuel ≤ buff) ⊎ (buff + 20 ≤ info.cmdline)
      → KeptOutside buff 20 s.memory t.memory
      → Prints buff
          (codes "cmdline: " ++ (command ++ codes "\n"))
          t
          (put_line fuel 2 (codes "cmdline: ") (codes "\n") (λ b. (info.cmdline, b)) t)
  print_command-Prints fuel info command s t found apart kept =
      put_line-Prints fuel (codes "cmdline: ") (codes "\n") command (λ b. (info.cmdline, b)) t
        (string_at-same fuel info.cmdline s.memory t.memory
            (λ x le lt. kept x (ground (arith, apart)))
          ∙ found)
        (λ x out. refl)

-- Where the loop's map is a list of entries, the command line is a string, apart from the buffer,
-- and there is more fuel than either is long, `printMultibootInfo` returns: it has printed the
-- report on terminal 2, changed no byte outside of its buffer, and neither directory.
pub print_multiboot_info-Prints :
    (header end buff fuel : ℕ) (info : MultibootInfo) (m : Entries) (es : List MmapEntry)
    (command : List ℕ) (s : System)
    → IsMap info m info.mmap_addr es
    → length es < fuel
    → string_at fuel info.cmdline s.memory ≡ some command
    → (info.cmdline + fuel ≤ buff) ⊎ (buff + 20 ≤ info.cmdline)
    → (t : System) × (print_multiboot_info header end buff fuel info m s ≡ some t)
      × Says buff (report_text header end info es command) s t
unfolding print_multiboot_info
print_multiboot_info-Prints header end buff fuel info m es command s is enough found apart =
    Prints-then buff _ _ s _ _ (print_uint-Prints buff (codes "flags: ") info.flags s) (λ s1 k1.
      Prints-then buff _ _ s1 _ _ (print_memory-Prints buff info s1) (λ s2 k2.
        Prints-then buff _ _ s2 _ _ (print_map-Prints buff info m fuel es s2 is enough) (λ s3 k3.
          Prints-then buff _ _ s3 _ _
            (print_command-Prints buff fuel info command s s3 found apart
              (λ x out. k3.kept x out ∙ k2.kept x out ∙ k1.kept x out))
            (λ s4 _.
              Prints-then buff _ _ s4 _ _ (print_ulong-Prints buff (codes "start: ") header s4)
                (λ s5 _. print_ulong-Prints buff (codes "end: ") end s5)))))
