-- ===== src/Mmu/Table.antt =====
-- The entries that rt_hw_mmu_setmtt and rt_hw_mmu_init leave in the table.
use bsp_v3s.Common.{
  ℕ, zero, suc, ◌+◌, ◌-◌, ◌≤◌, ◌<◌, ◌==◌, ltb, leb, bit_or, List, length, get_elem?, length-set,
  get_elem?-set_self, get_elem?-set_ne, Option, some, if◌then◌else◌, ◌&&◌, ◌≡◌, ◌∙◌, ◌⊎◌, refl,
  arith, dec_le, ℕ_discrete,
}
use bsp_v3s.Word.{u32, shr}
use bsp_v3s.Mmu.{
  rw_cb, rw_ncnb, tex_mem, heap_end, entry, mtt_loop, rt_hw_mmu_setmtt, rt_hw_mmu_init,
}

length-mtt_loop :
    (n i first p attr : ℕ) (t : List ℕ) → length (mtt_loop n i first p attr t) ≡ length t
unfolding mtt_loop
length-mtt_loop zero i first p attr t = refl
length-mtt_loop (suc n) i first p attr t =
    length-mtt_loop n (i + 1) first p attr _ ∙ length-set t _ _

mtt_loop_out :
    (n i first p attr k : ℕ) (t : List ℕ)
    → (k < first + i) ⊎ (first + i + n ≤ k)
    → get_elem? (mtt_loop n i first p attr t) k ≡ get_elem? t k
unfolding mtt_loop
mtt_loop_out zero i first p attr k t h = refl
mtt_loop_out (suc n) i first p attr k t h =
    mtt_loop_out n (i + 1) first p attr k _ (omega arith)
    ∙ get_elem?-set_ne t (first + i) k _ (omega arith)

mtt_loop_in :
    (n i first p attr k : ℕ) (t : List ℕ)
    → first + i ≤ k
    → k < first + i + n
    → k < length t
    → get_elem? (mtt_loop n i first p attr t) k ≡ some (entry attr (u32 (shr p 20 + (k - first))))
unfolding mtt_loop
mtt_loop_in zero i first p attr k t a b c = absurd (omega arith)
mtt_loop_in (suc n) i first p attr k t a b c = elim (ℕ_discrete k (first + i)) [
  | yes e ↦
      let same : k - first ≡ i = omega arith in
      rw (same, e)
        (mtt_loop_out n (i + 1) first p attr (first + i) _ (omega arith)
          ∙ get_elem?-set_self t (first + i) _ (omega arith))
  | no ne ↦ mtt_loop_in n (i + 1) first p attr k _ (omega arith) (omega arith) (rw length-set c)
]

-- rt_hw_mmu_setmtt maps the megabytes from the one of `va` to the one of `vb`, and no other, in
-- order from the one of `pa` and with the attributes given; the table keeps its length.
pub rt_hw_mmu_setmtt_lem :
    (va vb pa attr : ℕ) (t : List ℕ)
    → let t' = rt_hw_mmu_setmtt va vb pa attr t in
      (length t' ≡ length t)
      × ((k : ℕ)
          → k < length t
          → get_elem? t' k ≡ (
              if leb (shr va 20) k && leb k (shr vb 20)
              then some (entry attr (u32 (shr pa 20 + (k - shr va 20))))
              else get_elem? t k))
unfolding rt_hw_mmu_setmtt
rt_hw_mmu_setmtt_lem va vb pa attr t =
    (length-mtt_loop (shr vb 20 + 1 - shr va 20) 0 (shr va 20) pa attr t, λ k h. at_k k h)
  where
    at_k :
        (k : ℕ)
        → k < length t
        → get_elem? (mtt_loop (shr vb 20 + 1 - shr va 20) 0 (shr va 20) pa attr t) k ≡ (
            if leb (shr va 20) k && leb k (shr vb 20)
            then some (entry attr (u32 (shr pa 20 + (k - shr va 20))))
            else get_elem? t k)
    at_k k h = ground (
      arith,
      mtt_loop_in (shr vb 20 + 1 - shr va 20) 0 (shr va 20) pa attr k t,
      mtt_loop_out (shr vb 20 + 1 - shr va 20) 0 (shr va 20) pa attr k t,
    )

-- The attributes of a megabyte after rt_hw_mmu_init.
abbrev pub section_attr : ℕ → ℕ
section_attr k =
    if k == 0
    then bit_or rw_ncnb tex_mem
    else if leb 0x400 k && ltb k 0x438
    then rw_cb
    else if leb 0x438 k && ltb k 0x440
    then bit_or rw_ncnb tex_mem
    else rw_ncnb

-- A range that is mapped to itself.
identity_at :
    (va vb attr k : ℕ) (t : List ℕ)
    → k < 4096
    → length t ≡ 4096
    → get_elem? (rt_hw_mmu_setmtt va vb va attr t) k
      ≡ (if leb (shr va 20) k && leb k (shr vb 20) then some (entry attr k) else get_elem? t k)
identity_at va vb attr k t h len = elim (dec_le (shr va 20) k) [
  | yes le ↦
      let same : u32 (shr va 20 + (k - shr va 20)) ≡ k = omega arith in
      rw ((rt_hw_mmu_setmtt_lem va vb va attr t).1 k (omega arith), same) refl
  | no gt ↦ rw ((rt_hw_mmu_setmtt_lem va vb va attr t).1 k (omega arith)) (ground arith)
]

four_ranges :
    (k : ℕ) (o : Option ℕ)
    → k < 4096
    → (if leb 0x438 k && leb k 0x43f
        then some (entry (bit_or rw_ncnb tex_mem) k)
        else if leb 0 k && leb k 0
        then some (entry (bit_or rw_ncnb tex_mem) k)
        else if leb 0x400 k && leb k 0x437
        then some (entry rw_cb k)
        else if leb 0 k && leb k 0xfff
        then some (entry rw_ncnb k)
        else o)
      ≡ some (entry (section_attr k) k)
four_ranges k o h = ground arith

-- After rt_hw_mmu_init every megabyte of the address space is mapped to itself: the memory below
-- the end of the heap is cached, the rest of the memory and the first megabyte have the memory type
-- without a cache, and everything else is neither cached nor buffered.
pub rt_hw_mmu_init_lem :
    (t : List ℕ)
    → length t ≡ 4096
    → (k : ℕ) → k < 4096
    → get_elem? (rt_hw_mmu_init t) k ≡ some (entry (section_attr k) k)
unfolding rt_hw_mmu_init
rt_hw_mmu_init_lem t len k h =
    let a = rt_hw_mmu_setmtt 0x00000000 0xFFFFFFFF 0x00000000 rw_ncnb t in
    let b = rt_hw_mmu_setmtt 0x40000000 (heap_end - 1) 0x40000000 rw_cb a in
    let c = rt_hw_mmu_setmtt 0x00000000 0x000FFFFF 0x00000000 (bit_or rw_ncnb tex_mem) b in
    let la = (rt_hw_mmu_setmtt_lem 0 0xFFFFFFFF 0 rw_ncnb t).0 ∙ len in
    let lb = (rt_hw_mmu_setmtt_lem 0x40000000 (heap_end - 1) 0x40000000 rw_cb a).0 ∙ la in
    let lc = (rt_hw_mmu_setmtt_lem 0 0x000FFFFF 0 (bit_or rw_ncnb tex_mem) b).0 ∙ lb in
    rw
      (
        identity_at heap_end 0x43FFFFFF (bit_or rw_ncnb tex_mem) k c h lc,
        identity_at 0 0x000FFFFF (bit_or rw_ncnb tex_mem) k b h lb,
        identity_at 0x40000000 (heap_end - 1) rw_cb k a h la,
        identity_at 0 0xFFFFFFFF rw_ncnb k t h len,
      )
      (four_ranges k (get_elem? t k) h)
