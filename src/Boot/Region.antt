-- ===== src/Boot/Region.antt =====
-- TestKernel1/src/main.c: which page `get_free_page_address` finds.
use test_kernel.Base.{
  ℕ, ◌+◌, ◌*◌, ◌/◌, ◌<◌, ◌≤◌, ◌≡◌, ◌≢◌, ◌⊎◌, inl, inr, refl, ◌==◌, ==_iff, ◌∙◌, ap, true, false,
  none, some, List, [], ◌∷◌, arith, Bool-cases, u32, ltb,
}
use test_kernel.Boot.{
  MultibootInfo, MmapEntry, Entries, align_to, in_map, next_entry, page_of_entry,
}

-- The least multiple of 4096 that is not below n.
abbrev pub page_up : ℕ → ℕ
page_up n = (n + 4095) / 4096 * 4096

-- For sizes from 1 on that stay below 2 GB, `align_to` rounds up to a page.
align_to_lem : (n : ℕ) → 0 < n → n ≤ 0x7ffff000 → align_to n 4096 ≡ page_up n
unfolding align_to
align_to_lem n pos small = ground arith

-- The loader's map from p on: the entries `es`, one behind the other.
abbrev pub IsMap : MultibootInfo → Entries → ℕ → List MmapEntry → Type 0
IsMap info m p [] = in_map info p ≡ false
IsMap info m p (e ∷ es) = (in_map info p ≡ true) × (m p ≡ e) × IsMap info m (next_entry m p) es

align_to-zero : align_to 0 4096 ≡ 4096
unfolding align_to
align_to-zero = refl

-- A usable entry ends below 2 GB, so that its addresses fit an `int`.
abbrev pub IsLow : MmapEntry → Type 0
IsLow e = (e.type ≢ 1) ⊎ (e.addr + e.len ≤ 0x7ffff000)

abbrev pub AreLow : List MmapEntry → Type 0
AreLow [] = Unit
AreLow (e ∷ es) = IsLow e × AreLow es

-- The image of the kernel, below 2 GB.
pub record IsImage (header end : ℕ) : Type 0 where
  pub ordered : header ≤ end
  pub not_null : 0 < end
  pub low : end ≤ 0x7ffff000

-- An entry offers the page r: its memory is usable, its first page lies at 1 MB or above, and r is
-- that page, where it and one byte more fit below the header, or else the first page behind the
-- image, where it and one byte more fit below the entry's end.
abbrev pub Offers : (header end : ℕ) → MmapEntry → ℕ → Type 0
Offers header end e r =
    (e.type ≡ 1)
    × (0x100000 ≤ page_up e.addr)
    × (((page_up e.addr + 4096 < header) × (r ≡ page_up e.addr))
        ⊎ ((header ≤ page_up e.addr + 4096)
            × (page_up end + 4096 < e.addr + e.len)
            × (r ≡ page_up end)))

-- r is what the first entry that offers a page offers, or 0 where none does.
abbrev pub FirstOffer : (header end : ℕ) → List MmapEntry → ℕ → Type 0
FirstOffer header end [] r = r ≡ 0
FirstOffer header end (e ∷ es) r =
    Offers header end e r ⊎ (((q : ℕ) → ¬ Offers header end e q) × FirstOffer header end es r)

module _ (header end : ℕ) (image : IsImage header end) where
  -- What the loop's body decides about an entry.
  abbrev pub Decided : MmapEntry → Type 0
  Decided e =
      ((r : ℕ) × (page_of_entry header end e ≡ some r) × Offers header end e r)
      ⊎ ((page_of_entry header end e ≡ none) × ((q : ℕ) → ¬ Offers header end e q))

  other-Decided : (e : MmapEntry) → e.type ≢ 1 → Decided e
  unfolding page_of_entry
  other-Decided e ne = inr (ground arith, λ q o. ne o.0)

  first_page-Decided : (e : MmapEntry) → e.type ≡ 1 → e.addr ≡ 0 → Decided e
  unfolding page_of_entry
  first_page-Decided e usable z =
      let word : u32 e.addr ≡ 0 = omega arith in
      let first : align_to (u32 e.addr) 4096 ≡ 4096 =
        ap (λ a. align_to a 4096) word ∙ align_to-zero in
      inr (ground (arith, first), λ q o. omega (arith, o, z))

  usable-Decided :
      (e : MmapEntry) → e.type ≡ 1 → 0 < e.addr → e.addr + e.len ≤ 0x7ffff000 → Decided e
  unfolding page_of_entry
  usable-Decided e usable pos low = elim (Bool-cases (ltb (page_up e.addr) 0x100000)) [
    | inl below ↦ inr (ground (arith, first, behind), λ q o. ground (arith, below, o))
    | inr above ↦ elim (Bool-cases (ltb (page_up e.addr + 4096) header)) [
      | inl front ↦ inl (
        page_up e.addr,
        ground (arith, first, behind),
        (usable, ground arith, inl (ground arith, refl)),
      )
      | inr over ↦ elim (Bool-cases (ltb (page_up end + 4096) (e.addr + e.len))) [
        | inl room ↦ inl (
          page_up end,
          ground (arith, first, behind),
          (usable, ground arith, inr (ground arith, ground arith, refl)),
        )
        | inr full ↦ inr (ground (arith, first, behind), λ q o. ground (arith, over, full, o))
      ]
    ]
  ]
    where
      word : u32 e.addr ≡ e.addr
      word = omega arith

      first : align_to (u32 e.addr) 4096 ≡ page_up e.addr
      first = ap (λ a. align_to a 4096) word ∙ align_to_lem e.addr pos (omega arith)

      behind : align_to end 4096 ≡ page_up end
      behind = align_to_lem end image.not_null image.low

  pub entry-Decided : (e : MmapEntry) → IsLow e → Decided e
  entry-Decided e (inl ne) = other-Decided e ne
  entry-Decided e (inr low) = elim (Bool-cases (e.type == 1)) [
    | inr other ↦ other-Decided e (ground (arith, other))
    | inl usable ↦ elim (Bool-cases (e.addr == 0)) [
      | inl z ↦ first_page-Decided e ((==_iff e.type 1).0 usable) ((==_iff e.addr 0).0 z)
      | inr nz ↦ usable-Decided e ((==_iff e.type 1).0 usable) (ground (arith, nz)) low
    ]
  ]
