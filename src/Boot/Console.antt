-- ===== src/Boot/Console.antt =====
-- TestKernel1/src/main.c: what the start-up code prints on, and the state that it works on.
use Prim.Native.Char.{code}
use Prim.Native.String.{String}
use test_kernel.Base.{
  ℕ, zero, suc, ◌+◌, ◌≤◌, ◌<◌, ◌≡◌, ◌≢◌, refl, ap₂, false, Option, none, some, List, [], ◌∷◌, ◌++◌,
  if◌then◌else◌, ◌==◌, arith,
}
use test_kernel.Display.{Display, putchar, puts}
use test_kernel.Mem.{Bytes}
use test_kernel.Paging.Directory.{PageDirectory}

-- The codes of a text of ASCII characters.
abbrev pub codes : String → List ℕ
codes String.[] = []
codes (String.◌∷◌ c s) = code c ∷ codes s

-- The memory, with each address mapped to itself, the terminals, and the two directories of
-- cpu/tables.c.
pub record System : Type 0 where
  pub memory : Bytes
  pub display : Display
  pub kernel_directory : PageDirectory
  pub current_directory : PageDirectory

infixl 5 ◌>>=◌
abbrev pub ◌>>=◌ {ℓ κ} : {A : Type ℓ} {B : Type κ} → Option A → (A → Option B) → Option B
some a >>= f = f a
none >>= f = none

-- The characters in front of the first null from p on; `none` where there is none in `fuel` bytes.
unfoldable pub string_at : (fuel p : ℕ) → Bytes → Option (List ℕ)
string_at zero p m = none
string_at (suc fuel) p m =
    let rest = string_at fuel (p + 1) m in
    if m p == 0 then some [] else elim rest [ none ↦ none | some cs ↦ some (m p ∷ cs) ]

abbrev pub put_text : (term_num : ℕ) → List ℕ → System → System
put_text term_num cs s = record s { display = puts term_num cs s.display }

-- Three calls of `puts`: a text, the string that `convert` makes in memory, and a text.
unfoldable pub put_line :
    (fuel term_num : ℕ)
    → (before after : List ℕ) → (convert : Bytes → ℕ × Bytes) → System
    → Option System
put_line fuel term_num before after convert s =
    let (p, m) = convert s.memory in
    elim (string_at fuel p m) [
      | none ↦ none
      | some cs ↦ some (
          put_text term_num after
            (put_text term_num cs (record (put_text term_num before s) { memory = m })))
    ]

pub string_at-end : (fuel p : ℕ) (m : Bytes) → m p ≡ 0 → string_at (suc fuel) p m ≡ some []
unfolding string_at
string_at-end fuel p m e = rw (string_at, e) refl

pub string_at-more :
    (fuel p : ℕ) (cs : List ℕ) (m : Bytes)
    → m p ≢ 0
    → string_at fuel (p + 1) m ≡ some cs
    → string_at (suc fuel) p m ≡ some (m p ∷ cs)
unfolding string_at
string_at-more fuel p cs m ne e =
    let test : (m p == 0) ≡ false = ground arith in rw (string_at, test, e) refl

pub put_line-puts :
    (fuel term_num : ℕ) (before after cs : List ℕ) (convert : Bytes → ℕ × Bytes) (s : System)
    → string_at fuel (convert s.memory).0 (convert s.memory).1 ≡ some cs
    → put_line fuel term_num before after convert s
      ≡ some (record s {
        memory = (convert s.memory).1;
        display = puts term_num after (puts term_num cs (puts term_num before s.display));
      })
unfolding put_line
put_line-puts fuel term_num before after cs convert s e = rw (put_line, e) refl

pub puts-++ : (n : ℕ) (cs ds : List ℕ) (d : Display) → puts n (cs ++ ds) d ≡ puts n ds (puts n cs d)
unfolding puts
puts-++ n [] ds d = refl
puts-++ n (c ∷ cs) ds d = puts-++ n cs ds (putchar n c d)

-- A string is the same in a memory with the same bytes.
pub string_at-same :
    (fuel p : ℕ) (m n : Bytes)
    → ((x : ℕ) → p ≤ x → x < p + fuel → n x ≡ m x)
    → string_at fuel p n ≡ string_at fuel p m
unfolding string_at
string_at-same zero p m n same = refl
string_at-same (suc fuel) p m n same =
    let here : n p ≡ m p = same p (omega arith) (omega arith) in
    let rest : string_at fuel (p + 1) n ≡ string_at fuel (p + 1) m =
      string_at-same fuel (p + 1) m n (λ x le lt. same x (omega arith) (omega arith)) in
    ap₂ (λ c o. if c == 0 then some [] else elim o [ none ↦ none | some cs ↦ some (c ∷ cs) ]) here
      rest
