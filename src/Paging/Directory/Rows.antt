-- ===== src/Paging/Directory/Rows.antt =====
-- src/arch/ia32/cpu/tables.c: a table of a directory that is filled from its first entry on.
use test_kernel.Base.{ℕ, ◌+◌, ◌<◌, ◌≡◌, ◌≢◌, update, arith}
use test_kernel.Paging.Directory.{PageDirectory}

-- Of the directory d the first `j` entries of row `i` are filled, and all else is as in d₀.
pub record Row (bits : ℕ → ℕ) (i j : ℕ) (d₀ d : PageDirectory) : Type 0 where
  pub catalog_same : (k : ℕ) → d.catalog k ≡ d₀.catalog k
  pub others_same : (k m : ℕ) → k ≢ i → d.tables k m ≡ d₀.tables k m
  pub filled : (m : ℕ) → m < j → d.tables i m ≡ bits m

pub Row-more :
    (bits : ℕ → ℕ) (i j : ℕ) (d₀ d : PageDirectory)
    → Row bits i j d₀ d
    → Row bits i
        (j + 1)
        d₀
        (record d { tables = update d.tables i (update (d.tables i) j (bits j)) })
Row-more bits i j d₀ d r = record {
  catalog_same = r.catalog_same;
  others_same = λ k m ne. ground (arith, r.others_same k m ne);
  filled = λ m lt. ground (arith, r.filled m);
}
