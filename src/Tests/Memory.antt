-- ===== src/Tests/Memory.antt =====
-- The page allocator and the strings.
use lab7sp25_shelnutt.Base.{ℕ, ◌+◌, ◌≤◌, ◌%◌, ◌≡◌, refl, arith, some, List, [], ◌∷◌}
use lab7sp25_shelnutt.Kalloc.{pgsize, kernbase, kfree, free_from, freerange, kalloc}
use lab7sp25_shelnutt.Kalloc.Pages.{times, ranged, kalloc_lem}

-- Two pages above the kernel, whose end is not at a page boundary.
abbrev bottom : ℕ
bottom = kernbase + 5000

abbrev pages : List ℕ
pages = (kernbase + 12288) ∷ (kernbase + 8192) ∷ []

two_pages : (free_from bottom 3 (kernbase + 8192) (kernbase + 16384) []) ≡ some pages
unfolding free_from
two_pages = refl

ranges : freerange bottom bottom (kernbase + 16384) [] ≡ some pages
unfolding freerange
ranges = refl

kalloc_gives : kalloc pages ≡ (some (kernbase + 12288), (kernbase + 8192) ∷ [])
unfolding kalloc
kalloc_gives = refl

kalloc_lem_example :
    let v = kernbase + 12288 in
    (v % pgsize ≡ 0)
    × (bottom ≤ v)
    × (v + pgsize ≤ kernbase + 16384)
    × (times [] v ≡ 0)
    × (times ((kernbase + 8192) ∷ []) v ≡ 0)
    × (kfree bottom v ((kernbase + 8192) ∷ []) ≡ some (v ∷ (kernbase + 8192) ∷ []))
kalloc_lem_example =
    kalloc_lem bottom (kernbase + 12288) (omega arith) (omega arith) (omega arith) (ranged ranges)
      kalloc_gives

abbrev init : List ℕ
init = b'i' ∷ b'n' ∷ b'i' ∷ b't' ∷ 0 ∷ []
