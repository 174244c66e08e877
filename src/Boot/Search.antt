-- ===== src/Boot/Search.antt =====
-- TestKernel1/src/main.c: the search of the memory map, to its end.
use test_kernel.Base.{
  ℕ, zero, suc, ◌+◌, ◌%◌, ◌<◌, ◌≤◌, ◌≡◌, ◌≢◌, ◌⊎◌, inl, inr, refl, ◌∙◌, ap, true, false, none, some,
  List, [], ◌∷◌, length, arith,
}
use test_kernel.Boot.{
  MultibootInfo, MmapEntry, Entries, in_map, next_entry, page_of_entry, search_map,
  get_free_page_address, get_page_address,
}
use test_kernel.Boot.Region.{IsMap, AreLow, IsImage, Offers, FirstOffer, entry-Decided}

module _ (header end : ℕ) (image : IsImage header end) (info : MultibootInfo) (m : Entries) where
  search_map-end :
      (fuel p : ℕ) → in_map info p ≡ false → search_map header end info m (suc fuel) p ≡ some 0
  unfolding search_map
  search_map-end fuel p out = rw (search_map, out) refl

  search_map-hit :
      (fuel p r : ℕ) (e : MmapEntry)
      → in_map info p ≡ true
      → m p ≡ e
      → page_of_entry header end e ≡ some r
      → search_map header end info m (suc fuel) p ≡ some r
  unfolding search_map
  search_map-hit fuel p r e here at hit = rw (search_map, here, at, hit) refl

  search_map-next :
      (fuel p : ℕ) (e : MmapEntry)
      → in_map info p ≡ true
      → m p ≡ e
      → page_of_entry header end e ≡ none
      → search_map header end info m (suc fuel) p
        ≡ search_map header end info m fuel (next_entry m p)
  unfolding search_map
  search_map-next fuel p e here at miss =
      let gone : page_of_entry header end (m p) ≡ none = ap (page_of_entry header end) at ∙ miss in
      rw (search_map, here, gone) refl

  pub search_map-FirstOffer :
      (es : List MmapEntry) (fuel p : ℕ)
      → AreLow es
      → IsMap info m p es
      → length es < fuel
      → (r : ℕ) × (search_map header end info m fuel p ≡ some r) × FirstOffer header end es r
  search_map-FirstOffer es zero p low is enough = absurd (omega arith)
  search_map-FirstOffer [] (suc fuel) p low is enough = (0, search_map-end fuel p is, refl)
  search_map-FirstOffer (e ∷ es) (suc fuel) p low (here, at, is) enough =
      elim (entry-Decided header end image e low.0) [
        | inl (r, hit, offers) ↦ (r, search_map-hit fuel p r e here at hit, inl offers)
        | inr (miss, no_offer) ↦
            (let (r, found, first) =
                search_map-FirstOffer es fuel (next_entry m p) low.1 is (omega arith) in
              (r, search_map-next fuel p e here at miss ∙ found, inr (no_offer, first)))
      ]

-- On a memory map of entries behind one another, of which the usable ones end below 2 GB, with more
-- fuel than entries and with an image of the kernel below 2 GB, `get_free_page_address` ends; it
-- returns what the first entry offers that offers a page, or 0 where none does; and
-- `get_page_address` returns the same for every `source`.
get_free_page_address-FirstOffer :
    (header end fuel source : ℕ) (info : MultibootInfo) (m : Entries) (es : List MmapEntry)
    → IsImage header end
    → AreLow es
    → IsMap info m info.mmap_addr es
    → length es < fuel
    → (r : ℕ) × (get_free_page_address header end fuel info m ≡ some r)
      × (get_page_address header end fuel source info m ≡ some r)
      × FirstOffer header end es r
unfolding get_free_page_address get_page_address
get_free_page_address-FirstOffer header end fuel source info m es image low is enough =
    let (r, found, first) =
      search_map-FirstOffer header end image info m es fuel info.mmap_addr low is enough in
    (r, found, found, first)

-- Every usable entry that reaches above the first megabyte has the image of the kernel inside.
abbrev pub AreAround : (header end : ℕ) → List MmapEntry → Type 0
AreAround header end [] = Unit
AreAround header end (e ∷ es) =
    ((e.type ≢ 1)
      ⊎ (e.addr + e.len ≤ 0xff000)
      ⊎ ((0 < e.len) × (e.addr ≤ header) × (end ≤ e.addr + e.len)))
    × AreAround header end es

-- The page at r lies inside the usable entry e, is aligned, and shares no byte with the image.
pub record IsFreePage (header end : ℕ) (e : MmapEntry) (r : ℕ) : Type 0 where
  pub usable : e.type ≡ 1
  pub above : e.addr ≤ r
  pub inside : r + 4096 ≤ e.addr + e.len
  pub aligned : r % 4096 ≡ 0
  pub apart : (r + 4096 ≤ header) ⊎ (end ≤ r)

abbrev pub SomeEntry : (MmapEntry → Type 0) → List MmapEntry → Type 0
SomeEntry P [] = ⊥
SomeEntry P (e ∷ es) = P e ⊎ SomeEntry P es

Offers-IsFreePage :
    (header end r : ℕ) (e : MmapEntry)
    → header ≤ end
    → (e.type ≢ 1)
      ⊎ (e.addr + e.len ≤ 0xff000)
      ⊎ ((0 < e.len) × (e.addr ≤ header) × (end ≤ e.addr + e.len))
    → Offers header end e r
    → IsFreePage header end e r
Offers-IsFreePage header end r e le around o = ground (arith, around, o)

FirstOffer-IsFreePage :
    (header end r : ℕ) (es : List MmapEntry)
    → header ≤ end
    → AreAround header end es
    → FirstOffer header end es r
    → (r ≡ 0) ⊎ SomeEntry (λ e. IsFreePage header end e r) es
FirstOffer-IsFreePage header end r [] le around z = inl z
FirstOffer-IsFreePage header end r (e ∷ es) le around (inl o) =
    inr (inl (Offers-IsFreePage header end r e le around.0 o))
FirstOffer-IsFreePage header end r (e ∷ es) le around (inr (no_offer, rest)) =
    elim (FirstOffer-IsFreePage header end r es le around.1 rest) [
      | inl z ↦ inl z
      | inr some_entry ↦ inr (inr some_entry)
    ]

-- On a memory map of entries behind one another, of which the usable ones end below 2 GB and,
-- where they reach above the first megabyte, have the image of the kernel inside, with more fuel
-- than entries and with that image below 2 GB, `get_free_page_address` ends: it returns what the
-- first entry offers that offers a page, or 0 where none does, and `get_page_address` returns the
-- same for every `source`. It is 0 or the address of a page that is aligned, lies inside a usable
-- entry of the map, and shares no byte with the image.
pub get_free_page_address-IsFreePage :
    (header end fuel source : ℕ) (info : MultibootInfo) (m : Entries) (es : List MmapEntry)
    → IsImage header end
    → AreLow es
    → AreAround header end es
    → IsMap info m info.mmap_addr es
    → length es < fuel
    → (r : ℕ) × (get_free_page_address header end fuel info m ≡ some r)
      × (get_page_address header end fuel source info m ≡ some r)
      × FirstOffer header end es r
      × ((r ≡ 0) ⊎ SomeEntry (λ e. IsFreePage header end e r) es)
get_free_page_address-IsFreePage header end fuel source info m es image low around is enough =
    let (r, found, same, first) =
      get_free_page_address-FirstOffer header end fuel source info m es image low is enough in
    (r, found, same, first, FirstOffer-IsFreePage header end r es image.ordered around first)
