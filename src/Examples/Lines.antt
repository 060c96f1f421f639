-- ===== src/Examples/Lines.antt =====
-- The lines of 64 bytes that meet the addresses from 100 up to 300.
use bsp_v3s.Common.{ℕ, List, ◌≡◌, some, arith}
use bsp_v3s.Cache.{flush_dcache_range}
use bsp_v3s.Cache.Range.{Covers, flush_dcache_range_lem}

flush_dcache_range_lem_example :
    (ls : List ℕ) × (flush_dcache_range 301 2 100 300 ≡ some ls) × Covers 100 300 64 ls
flush_dcache_range_lem_example =
    flush_dcache_range_lem 300 2 100 300 (omega arith) (omega arith) (omega arith)
