-- ===== src/Walreader/Scan/Geometry.antt =====
-- The geometry that `new` of src/walreader.rs accepts: powers of two, so that a segment is whole pages,
-- and segments that end within the LSNs.
use pg_walview.Prelude.{
  ℕ, zero, suc, ◌+◌, ◌-◌, ◌*◌, ◌/◌, ◌^◌, ◌≤◌, ◌<◌, ◌≡◌, ◌∙◌, refl, sym, ap, bit_and, true, false,
  List, length, ◌==◌, arith, Bool-cases, inl, inr, u32_mod, u64_mod, ==→eq,
}
use mathlib.Core.Path.{subst}
use native.Mathlib.Nat.{mod-eq_of_lt, div-mul-le_self, div-le_self, div-lt_iff_lt-mul}
use pg_walview.Prelude.Powers.{power_of_two, power_divides}
use pg_walview.Walreader.Pages.{WalReader}
use pg_walview.Walreader.Pages.Lsn.{IsSegment}
use pg_walview.Walreader.Scan.{is_power_of_two, reader_of}

-- What `new` has checked of the geometry.
pub record IsGeometry (b s len : ℕ) : Type 0 where
  pub page_power : is_power_of_two b ≡ true
  pub page_least : 40 ≤ b
  pub segment_power : is_power_of_two s ≡ true
  pub page_most : b ≤ s
  pub segment_most : s ≤ 1024 * 1024 * 1024
  pub file_most : len ≤ s

is_power_of_two-pow : (n : ℕ) → is_power_of_two n ≡ true → (0 < n) × (k : ℕ) × (n ≡ 2 ^ k)
unfolding is_power_of_two
is_power_of_two-pow n h = elim (Bool-cases (n == 0)) [
  | inl e ↦ absurd (cc (rw e at h))
  | inr e ↦
      let positive : 0 < n = ground arith in
      let test : (bit_and n (n - 1) == 0) ≡ true = rw e at h in
      let (k, e') = power_of_two n positive (==→eq (bit_and n (n - 1)) 0 test) in (positive, k, e')
]

-- A page size of 40 is no power of two.
forty : is_power_of_two 40 ≡ false
unfolding is_power_of_two
forty = refl

module _ (b s len : ℕ) (geometry : IsGeometry b s len) where
  more_than_forty : 40 < b
  more_than_forty = elim (Bool-cases (b == 40)) [
    | inl e ↦ absurd (cc (ap is_power_of_two (==→eq b 40 e) ∙ forty, geometry.page_power))
    | inr e ↦ ground (arith, geometry.page_least)
  ]

  whole_pages : (pages : ℕ) × (s ≡ pages * b)
  whole_pages =
      let (_, i, p) = is_power_of_two-pow b geometry.page_power in
      let (_, j, q) = is_power_of_two-pow s geometry.segment_power in
      let (m, e) = power_divides i j (omega (arith, p, q, geometry.page_most)) in
      (m, q ∙ e ∙ ap (λ (x : ℕ). m * x) (sym p))

rows_le : (p q b : ℕ) → p ≤ q → p * b ≤ q * b
rows_le p q b h = grind arith

factor_positive : (p b n : ℕ) → n ≡ p * b → 0 < n → 0 < p
factor_positive zero b n e h = absurd (omega (arith, e, h))
factor_positive (suc p) b n e h = omega arith

factor_le : (p b : ℕ) → 0 < b → p ≤ p * b
factor_le p b h = grind arith

pub next_row : (p q : ℕ) → (p + 1) * q ≡ p * q + q
next_row p q = grind arith

segment_end : (log seg q s : ℕ) → seg < q → (log * q + seg) * s + s ≤ (log + 1) * (q * s)
segment_end log seg q s h =
    let left : (log * q + seg) * s + s ≡ log * (q * s) + (seg + 1) * s = grind arith in
    let right : (log + 1) * (q * s) ≡ log * (q * s) + q * s = grind arith in
    let below : (seg + 1) * s ≤ q * s = rows_le (seg + 1) q s (omega (arith, h)) in
    omega (arith, left, right, below)

times_le : (p q b : ℕ) → p ≤ q → b * p ≤ b * q
times_le p q b h = grind arith

segment_fits :
    (log seg s : ℕ)
    → log + 1 < u32_mod
    → seg < u32_mod / s
    → (log * (u32_mod / s) + seg) * s + s < u64_mod
segment_fits log seg s low high =
    let whole = segment_end log seg (u32_mod / s) s high in
    let fit = times_le (u32_mod / s * s) u32_mod (log + 1) (div-mul-le_self u32_mod s) in
    omega (arith, whole, fit, low)

module _ (source : List ℕ) (tli log seg b s sysid : ℕ) (page : List ℕ)
    (geometry : IsGeometry b s (length source)) (low : log + 1 < u32_mod)
    (high : seg < u32_mod / s) where
  abbrev base : WalReader
  base = reader_of source tli log seg b s sysid page

  -- The number of the segment does not wrap, nor do the pages.
  seg_no_base : base.seg_no ≡ log * (u32_mod / s) + seg
  unfolding reader_of
  seg_no_base =
      let q = u32_mod / s in
      let most = times_le q u32_mod (log + 1) (div-le_self u32_mod s) in
      mod-eq_of_lt {n = log * q + seg} {m = u64_mod}
        (omega (arith, next_row log q, most, low, high))

  pub readable_base : base.readable_pages ≡ length source / b
  unfolding reader_of
  readable_base =
      mod-eq_of_lt {n = length source / b} {m = u32_mod}
        (omega (arith, div-le_self (length source) b, geometry.file_most, geometry.segment_most))

  readable_most : (pages : ℕ) → s ≡ pages * b → length source / b ≤ pages
  readable_most pages whole =
      let positive : 0 < b = omega (arith, more_than_forty b s (length source) geometry) in
      let (_, below) = div-lt_iff_lt-mul {k = b} {x = length source} {y = pages + 1} positive in
      omega (arith, below (omega (arith, next_row pages b, whole, geometry.file_most, positive)))

  pub base-IsSegment : IsSegment base
  unfolding reader_of
  base-IsSegment =
      let (pages, whole) = whole_pages b s (length source) geometry in
      record {
        pages = pages;
        whole = whole;
        some_page =
            factor_positive pages b s whole
              (omega (arith, geometry.page_least, geometry.page_most));
        few_pages = omega (
          arith,
          factor_le pages b (omega (arith, geometry.page_least)),
          whole,
          geometry.segment_most,
        );
        big = more_than_forty b s (length source) geometry;
        fits =
            subst (λ (n : ℕ). n * s + s < u64_mod) (sym seg_no_base)
              (segment_fits log seg s low high);
        readable = omega (arith, readable_base, readable_most pages whole);
      }
