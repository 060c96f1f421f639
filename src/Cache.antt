-- ===== src/Cache.antt =====
-- uboot/cache_v7.c and check_cache_range of uboot/cache.c: the lines that a range operation works on.
-- The operation on a line is an instruction; it is in the list by the address that it is given. `ccsidr`
-- is the cache size register, and the outer cache's operations do nothing here.
pub mod Range
use bsp_v3s.Common.{
  ℕ, zero, suc, ◌+◌, ◌-◌, ◌^◌, ◌==◌, ltb, bit_and, if◌then◌else◌, Bool, true, false, ◌&&◌, Option,
  none, some, List, [], ◌∷◌,
}
use bsp_v3s.Word.{u32, not32}

-- The length of a line is 2 to the power of this.
abbrev pub line_log : ℕ → ℕ
line_log ccsidr = bit_and ccsidr 0x7 + 2 + 2

abbrev pub add_line : ℕ → Option (List ℕ) → Option (List ℕ)
add_line mva none = none
add_line mva (some rest) = some (mva ∷ rest)

-- The loop of both range operations; none is a loop that goes on.
unfoldable pub lines_from : ℕ → ℕ → ℕ → ℕ → Option (List ℕ)
lines_from zero mva stop line_len = none
lines_from (suc fuel) mva stop line_len = elim (ltb mva stop) [
  | false ↦ some []
  | true ↦ add_line mva (lines_from fuel (u32 (mva + line_len)) stop line_len)
]

unfoldable pub clean_inval_range : ℕ → ℕ → ℕ → ℕ → Option (List ℕ)
unfolding lines_from
clean_inval_range fuel start stop line_len =
    lines_from fuel (bit_and start (not32 (line_len - 1))) stop line_len

-- CONFIG_SYS_CACHELINE_SIZE is 64.
abbrev pub check_cache_range : ℕ → ℕ → Bool
check_cache_range start stop = (bit_and start 63 == 0) && (bit_and stop 63 == 0)

unfoldable pub inval_range : ℕ → ℕ → ℕ → ℕ → Option (List ℕ)
unfolding lines_from
inval_range fuel start stop line_len =
    if check_cache_range start stop then lines_from fuel start stop line_len else some []

unfoldable pub flush_dcache_range : ℕ → ℕ → ℕ → ℕ → Option (List ℕ)
unfolding clean_inval_range
flush_dcache_range fuel ccsidr start stop = clean_inval_range fuel start stop (2 ^ line_log ccsidr)

unfoldable pub invalidate_dcache_range : ℕ → ℕ → ℕ → ℕ → Option (List ℕ)
unfolding inval_range
invalidate_dcache_range fuel ccsidr start stop = inval_range fuel start stop (2 ^ line_log ccsidr)
