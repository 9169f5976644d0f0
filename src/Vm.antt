-- ===== src/Vm.antt =====
-- vm.c: page tables. Memory is a function of a page, by its kernel address, and a place in it: a word
-- of a page table or a byte of user memory, so that a page is read as what it is used for. The bits of
-- an entry below 4096 are its flags.
pub mod Space
pub mod Walk
pub mod Made
pub mod Entries
pub mod Frames
pub mod Shrink
pub mod Drop
pub mod Dealloc
pub mod MapPage
pub mod Grow
pub mod Restore
pub mod AllocRounds
pub mod Alloc
pub mod User
pub mod Bytes
pub mod Copyout
use lab7sp25_shelnutt.Base.{
  ℕ, zero, suc, ◌+◌, ◌-◌, ◌*◌, ◌/◌, ◌%◌, ◌^◌, Bool, true, false, ◌&&◌, ◌||◌, not, Option, none,
  some, List, [], ◌∷◌, ◌==◌, ltb, leb, if◌then◌else◌, add32, sub32, length, take, drop, get_or, min,
}
use lab7sp25_shelnutt.Kalloc.{pgsize, kernbase, phystop, page_round_up, kalloc, kfree}

abbrev pub Mem : Type 0
Mem = ℕ → ℕ → ℕ

pub record Vm : Type 0 where
  pub free : List ℕ
  pub mem : Mem

abbrev pub write : ℕ → ℕ → ℕ → Mem → Mem
write p i v m q j = if (q == p) && (j == i) then v else m q j

-- memset(p, 0, PGSIZE)
abbrev pub clear_page : ℕ → Mem → Mem
clear_page p m q j = if q == p then 0 else m q j

-- The memset of kfree, by bytes.
abbrev pub junk_page : ℕ → Mem → Mem
junk_page p m q j = if q == p then 1 else m q j

-- V2P and P2V
abbrev pub v2p : ℕ → ℕ
v2p a = sub32 a kernbase

abbrev pub p2v : ℕ → ℕ
p2v a = add32 a kernbase

-- PDX, PTX, PGROUNDDOWN, PGADDR(d, 0, 0)
abbrev pub pdx : ℕ → ℕ
pdx va = va / 2 ^ 22 % 1024

abbrev pub ptx : ℕ → ℕ
ptx va = va / 2 ^ 12 % 1024

abbrev pub page_round_down : ℕ → ℕ
page_round_down a = a / pgsize * pgsize

abbrev pub pgaddr : ℕ → ℕ
pgaddr d = d * 2 ^ 22 % 2 ^ 32

-- PTE_P and PTE_U of an entry, PTE_ADDR and PTE_FLAGS.
abbrev pub is_present : ℕ → Bool
is_present pte = pte % 2 == 1

abbrev pub is_user : ℕ → Bool
is_user pte = pte / 4 % 2 == 1

abbrev pub pte_addr : ℕ → ℕ
pte_addr pte = pte / pgsize * pgsize

abbrev pub pte_flags : ℕ → ℕ
pte_flags pte = pte % pgsize

-- PTE_W|PTE_U and PTE_P|PTE_W|PTE_U
abbrev pub pte_wu : ℕ
pte_wu = 6

abbrev pub pte_pwu : ℕ
pte_pwu = 7

-- perm | PTE_P
abbrev pub with_present : ℕ → ℕ
with_present perm = if is_present perm then perm else perm + 1

-- walkpgdir: the page table and the index in it, where the source returns the address of the entry.
unfoldable pub walkpgdir : ℕ → ℕ → Bool → Vm → Option (ℕ × ℕ) × Vm
unfolding kalloc
walkpgdir pgdir va alloc vm =
    let pde = vm.mem pgdir (pdx va) in
    let (page, free) = kalloc vm.free in
    let made = elim page as (λ _. Option (ℕ × ℕ) × Vm) [
      | none ↦ (none, record vm { free = free })
      | some pgtab ↦ (
        some (pgtab, ptx va),
        record {
          free = free;
          mem = write pgdir (pdx va) (v2p pgtab + pte_pwu) (clear_page pgtab vm.mem);
        },
      )
    ] in
    if is_present pde
    then (some (p2v (pte_addr pde), ptx va), vm)
    else if alloc
    then made
    else (none, vm)

-- How mappages ends: with 0, with -1, or in its panic.
pub data Mapped : Type 0 where
  mapped : Vm → Mapped
  no_memory : Vm → Mapped
  remap : Mapped

-- The body of the loop of mappages.
unfoldable pub map_page : ℕ → ℕ → ℕ → ℕ → Vm → Mapped
map_page pgdir a pa perm vm =
    let (pte, vm') = walkpgdir pgdir a true vm in
    elim pte as (λ _. Mapped) [
      | none ↦ no_memory vm'
      | some (t, i) ↦
          if is_present (vm'.mem t i)
          then remap
          else mapped (record vm' { mem = write t i (pa + with_present perm) vm'.mem })
    ]

abbrev pub then_map : Mapped → (Vm → Mapped) → Mapped
then_map (mapped vm) f = f vm
then_map (no_memory vm) f = no_memory vm
then_map remap f = remap

-- The loop of mappages from the page `a` on, with `left` rounds after this one: a is last where left
-- is 0.
unfoldable pub map_from : ℕ → ℕ → ℕ → ℕ → ℕ → Vm → Mapped
map_from zero pgdir a pa perm vm = map_page pgdir a pa perm vm
map_from (suc left) pgdir a pa perm vm =
    then_map (map_page pgdir a pa perm vm)
      (λ vm'. map_from left pgdir (add32 a pgsize) (add32 pa pgsize) perm vm')

unfoldable pub mappages : ℕ → ℕ → ℕ → ℕ → ℕ → Vm → Mapped
unfolding map_from
mappages pgdir va size pa perm vm =
    let a = page_round_down va in
    let last = page_round_down (sub32 (add32 va size) 1) in
    map_from (sub32 last a / pgsize) pgdir a pa perm vm

-- `bottom` is the end of the kernel that the linker gives, `data_start` where its data begins.
module _ (bottom : ℕ) where
  -- The loop of deallocuvm from `a` on; `none` is a panic, or the end of the fuel.
  unfoldable pub dealloc_from : ℕ → ℕ → ℕ → ℕ → Vm → Option Vm
  dealloc_from zero pgdir a oldsz vm = none
  dealloc_from (suc fuel) pgdir a oldsz vm = elim (ltb a oldsz) [
    | false ↦ some vm
    | true ↦ elim ((walkpgdir pgdir a false vm).0) [
      | none ↦ dealloc_from fuel pgdir (add32 (sub32 (pgaddr (pdx a + 1)) pgsize) pgsize) oldsz vm
      | some (t, i) ↦
          let pa = pte_addr (vm.mem t i) in
          elim (is_present (vm.mem t i)) [
            | false ↦ dealloc_from fuel pgdir (add32 a pgsize) oldsz vm
            | true ↦ elim (if pa == 0 then none else kfree bottom (p2v pa) vm.free) [
              | none ↦ none
              | some free ↦
                  dealloc_from fuel pgdir (add32 a pgsize) oldsz
                    (record { free = free; mem = write t i 0 (junk_page (p2v pa) vm.mem) })
            ]
          ]
    ]
  ]

  -- deallocuvm, with a round for each address.
  unfoldable pub deallocuvm : ℕ → ℕ → ℕ → Vm → Option (ℕ × Vm)
  unfolding dealloc_from
  deallocuvm pgdir oldsz newsz vm =
      if leb oldsz newsz
      then some (oldsz, vm)
      else elim (dealloc_from (suc oldsz) pgdir (page_round_up newsz) oldsz vm) [
        | none ↦ none
        | some vm' ↦ some (newsz, vm')
      ]

  -- The loop of allocuvm from `a` on; `none` is a panic, or the end of the fuel.
  unfoldable pub alloc_from : ℕ → ℕ → ℕ → ℕ → ℕ → Vm → Option (ℕ × Vm)
  unfolding deallocuvm
  alloc_from zero pgdir a oldsz newsz vm = none
  alloc_from (suc fuel) pgdir a oldsz newsz vm = elim (ltb a newsz) [
    | false ↦ some (newsz, vm)
    | true ↦
        let (page, free) = kalloc vm.free in
        elim page [
          | none ↦ elim (deallocuvm pgdir newsz oldsz (record vm { free = free })) [
            | none ↦ none
            | some (size, vm') ↦ some (0, vm')
          ]
          | some m ↦
              elim (mappages pgdir a pgsize (v2p m) pte_wu
                (record { free = free; mem = clear_page m vm.mem })) [
                  | remap ↦ none
                  | no_memory vm1 ↦ elim (deallocuvm pgdir newsz oldsz vm1) [
                    | none ↦ none
                    | some (size, vm2) ↦ elim (kfree bottom m vm2.free) [
                      | none ↦ none
                      | some free' ↦ some (0, record { free = free'; mem = junk_page m vm2.mem })
                    ]
                  ]
                  | mapped vm1 ↦ alloc_from fuel pgdir (add32 a pgsize) oldsz newsz vm1
                ]
        ]
  ]

  unfoldable pub allocuvm : ℕ → ℕ → ℕ → Vm → Option (ℕ × Vm)
  unfolding alloc_from
  allocuvm pgdir oldsz newsz vm =
      if leb kernbase newsz
      then some (0, vm)
      else if ltb newsz oldsz
      then some (oldsz, vm)
      else alloc_from (suc newsz) pgdir (page_round_up oldsz) oldsz newsz vm
