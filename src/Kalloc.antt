-- ===== src/Kalloc.antt =====
-- kalloc.c: the allocator of physical pages. The free list is the list of its pages by address; the
-- link of a page to the next lies in the page itself, which nobody uses while it is free.
pub mod Pages
use lab7sp25_shelnutt.Base.{
  ℕ, zero, suc, ◌+◌, ◌-◌, ◌*◌, ◌/◌, ◌%◌, ◌||◌, not, Option, none, some, List, [], ◌∷◌, ◌==◌, ltb,
  leb, if◌then◌else◌, sub32,
}

abbrev pub pgsize : ℕ
pgsize = 4096

abbrev pub kernbase : ℕ
kernbase = 0x80000000

abbrev pub phystop : ℕ
phystop = 0xE000000

-- PGROUNDUP
abbrev pub page_round_up : ℕ → ℕ
page_round_up a = (a + pgsize - 1) / pgsize * pgsize

-- `bottom` is the end of the kernel that the linker gives.
module _ (bottom : ℕ) where
  -- kfree on the free list; `none` is its panic.
  unfoldable pub kfree : ℕ → List ℕ → Option (List ℕ)
  kfree v free =
      if not (v % pgsize == 0) || (ltb v bottom || leb phystop (sub32 v kernbase))
      then none
      else some (v ∷ free)

  -- The loop of freerange from the page `p` on, with `fuel` rounds; `none` is the panic of kfree, or
  -- the end of the fuel.
  unfoldable pub free_from : ℕ → ℕ → ℕ → List ℕ → Option (List ℕ)
  unfolding kfree
  free_from zero p vend free = none
  free_from (suc fuel) p vend free =
      if leb (p + pgsize) vend
      then elim (kfree p free) [ none ↦ none | some free' ↦ free_from fuel (p + pgsize) vend free' ]
      else some free

  -- More rounds than there are pages.
  unfoldable pub freerange : ℕ → ℕ → List ℕ → Option (List ℕ)
  unfolding free_from
  freerange vstart vend free = free_from (suc vend) (page_round_up vstart) vend free

unfoldable pub kalloc : List ℕ → Option ℕ × List ℕ
kalloc [] = (none, [])
kalloc (r ∷ free) = (some r, free)
