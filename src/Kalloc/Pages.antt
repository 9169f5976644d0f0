-- ===== src/Kalloc/Pages.antt =====
-- The pages that the allocator has, and who holds them.
use lab7sp25_shelnutt.Base.{
  ℕ, zero, suc, ◌+◌, ◌%◌, ◌≤◌, ◌<◌, ◌≡◌, refl, ap, sym, ◌∙◌, ◌&&◌, ◌||◌, not, some, List, [], ◌∷◌,
  ◌==◌, ltb, leb, if◌then◌else◌, sub32, arith, Bool-cases, inl, inr, dec_le, some-injective,
}
use lab7sp25_shelnutt.Kalloc.{
  pgsize, kernbase, phystop, page_round_up, kfree, free_from, freerange, kalloc,
}

-- How often `v` is in the list.
abbrev pub times : List ℕ → ℕ → ℕ
times [] v = 0
times (x ∷ xs) v = (if x == v then 1 else 0) + times xs v

abbrev pub without : List ℕ → ℕ → List ℕ
without [] v = []
without (x ∷ xs) v = let rest = without xs v in if x == v then xs else x ∷ rest

times-without :
    (xs : List ℕ) (v w : ℕ)
    → 0 < times xs v
    → times (without xs v) w + (if v == w then 1 else 0) ≡ times xs w
times-without [] v w h = absurd (omega arith)
times-without (x ∷ xs) v w h = elim (Bool-cases (x == v)) [
  | inl y ↦ ground arith
  | inr n ↦ ground (arith, times-without xs v w (ground arith))
]

-- 1 for the address of a page that lies between `p` and `vend`, and else 0.
abbrev pub page_in : ℕ → ℕ → ℕ → ℕ
page_in p vend v = if (v % pgsize == 0) && (leb p v && leb (v + pgsize) vend) then 1 else 0

page_step :
    (p vend v : ℕ)
    → p % pgsize ≡ 0
    → p + pgsize ≤ vend
    → page_in p vend v ≡ page_in (p + pgsize) vend v + (if p == v then 1 else 0)
page_step p vend v a y = ground arith

module _ (bottom : ℕ) where
  pub kfree-some :
      (v : ℕ) (free : List ℕ)
      → v % pgsize ≡ 0
      → bottom ≤ v
      → kernbase ≤ v
      → v < kernbase + phystop
      → kfree bottom v free ≡ some (v ∷ free)
  unfolding kfree
  kfree-some v free a b k h = ground arith

  free_from_lem :
      (fuel p vend : ℕ) (free : List ℕ)
      → p % pgsize ≡ 0
      → bottom ≤ p
      → kernbase ≤ p
      → vend ≤ kernbase + phystop
      → 0 < fuel
      → vend < fuel + p
      → (free' : List ℕ) × (free_from bottom fuel p vend free ≡ some free')
        × ((v : ℕ) → times free' v ≡ page_in p vend v + times free v)
  unfolding free_from
  free_from_lem zero p vend free a b k h g f = absurd (omega arith)
  free_from_lem (suc fuel) p vend free a b k h g f = elim (dec_le (p + pgsize) vend) [
    | no n ↦ (free, ground arith, λ v. ground arith)
    | yes y ↦
        let e = kfree-some p free a b k (omega arith) in
        let (free', q, t) =
          free_from_lem fuel (p + pgsize) vend (p ∷ free) (omega arith) (omega arith) (omega arith)
            h (omega arith) (omega arith) in
        (
          free',
          rw (e, free_from) (ground (arith, q)),
          λ v. ground (arith, t v, page_step p vend v a y),
        )
  ]

  -- The free list, and the pages that kalloc has given out and that were not freed.
  pub data Step (free held : List ℕ) : List ℕ → List ℕ → Type 0 where
    allocs :
        {v : ℕ} {free' : List ℕ} → kalloc free ≡ (some v, free') → Step free held free' (v ∷ held)
    frees :
        (v : ℕ) {free' : List ℕ}
        → 0 < times held v
        → kfree bottom v free ≡ some free'
        → Step free held free' (without held v)

  pub data Reach (vstart vend : ℕ) : List ℕ → List ℕ → Type 0 where
    ranged :
        {free : List ℕ} → freerange bottom vstart vend [] ≡ some free → Reach vstart vend free []
    later :
        {free free' held held' : List ℕ}
        → Reach vstart vend free held
        → Step free held free' held'
        → Reach vstart vend free' held'

  -- Each page of the range is free or held, once, and nothing else is.
  abbrev pub Shared : ℕ → ℕ → List ℕ → List ℕ → Type 0
  Shared vstart vend free held =
      (v : ℕ) → times free v + times held v ≡ page_in (page_round_up vstart) vend v

  ranged-Shared :
      (vstart vend : ℕ) (free : List ℕ)
      → bottom ≤ vstart
      → kernbase ≤ vstart
      → vend ≤ kernbase + phystop
      → freerange bottom vstart vend [] ≡ some free
      → Shared vstart vend free []
  unfolding freerange
  ranged-Shared vstart vend free b k h e v =
      let (free', q, t) =
        free_from_lem (suc vend) (page_round_up vstart) vend [] (omega arith) (omega arith)
          (omega arith) h (omega arith) (omega arith) in
      let s = some-injective free' free (sym q ∙ e) in omega (arith, ap (λ x. times x v) s, t v)

  Step-Shared :
      (vstart vend : ℕ) {free free' held held' : List ℕ}
      → Step free held free' held'
      → Shared vstart vend free held
      → Shared vstart vend free' held'
  unfolding kalloc kfree
  Step-Shared vstart vend {free = []} (allocs e) s v = cc
  Step-Shared vstart vend {free = r ∷ free} {held = held} (allocs {v = w} {free' = free'} e) s v =
      let a : r ≡ w = some-injective r w (ap (λ x. x.0) e) in
      let b : free ≡ free' = ap (λ x. x.1) e in ground (arith, s v, a, ap (λ x. times x v) b)
  Step-Shared vstart vend {free = free} {held = held} (frees w {free' = free'} h e) s v =
      elim (Bool-cases
        (not (w % pgsize == 0) || (ltb w bottom || leb phystop (sub32 w kernbase)))) [
          | inl p ↦ absurd (ground arith)
          | inr n ↦
              let q = some-injective (w ∷ free) free' (sym (rw (n, kfree) refl) ∙ e) in
              ground (arith, s v, ap (λ x. times x v) q, times-without held w v h)
        ]

  Reach-Shared :
      {vstart vend : ℕ} {free held : List ℕ}
      → bottom ≤ vstart
      → kernbase ≤ vstart
      → vend ≤ kernbase + phystop
      → Reach vstart vend free held
      → Shared vstart vend free held
  Reach-Shared {vstart} {vend} b k h (ranged {free = free} e) =
      ranged-Shared vstart vend free b k h e
  Reach-Shared {vstart} {vend} b k h (later r s) = Step-Shared vstart vend s (Reach-Shared b k h r)

  -- Let the allocator start with the pages of a range of kernel addresses above the end of the kernel
  -- and within physical memory, and let pages be taken and given back in any order, where only pages
  -- that are held are given back. Then a page that kalloc returns is a whole page of that range, at a
  -- page boundary; nobody holds it already, and it is not free any more; and kfree takes it back.
  pub kalloc_lem :
      {vstart vend : ℕ} {free free' held : List ℕ} (v : ℕ)
      → bottom ≤ vstart
      → kernbase ≤ vstart
      → vend ≤ kernbase + phystop
      → Reach vstart vend free held
      → kalloc free ≡ (some v, free')
      → (v % pgsize ≡ 0)
        × (vstart ≤ v)
        × (v + pgsize ≤ vend)
        × (times held v ≡ 0)
        × (times free' v ≡ 0)
        × (kfree bottom v free' ≡ some (v ∷ free'))
  kalloc_lem {vstart} {vend} {free' = free'} {held} v b k h r e =
      let s = Reach-Shared b k h (later r (allocs {v = v} {free' = free'} e)) v in
      let one : page_in (page_round_up vstart) vend v ≡ 1 = ground arith in
      let (a, l, u) : (v % pgsize ≡ 0) × (page_round_up vstart ≤ v) × (v + pgsize ≤ vend) =
        (ground arith, ground arith, ground arith) in
      (
        a,
        omega arith,
        u,
        ground arith,
        ground arith,
        kfree-some v free' a (omega arith) (omega arith) (omega arith),
      )
