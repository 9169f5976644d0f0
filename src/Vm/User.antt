-- ===== src/Vm/User.antt =====
-- vm.c: the memory of the user, by the kernel.
use lab7sp25_shelnutt.Base.{
  ℕ, zero, suc, ◌+◌, ◌-◌, Bool, true, false, ◌&&◌, not, Option, none, some, List, [], ◌∷◌, ◌==◌,
  ltb, leb, if◌then◌else◌, add32, sub32, length, drop, get_or, min,
}
use lab7sp25_shelnutt.Kalloc.{pgsize}
use lab7sp25_shelnutt.Vm.{Mem, Vm, is_present, is_user, pte_addr, p2v, page_round_down, walkpgdir}

-- memmove of n bytes of the list `xs` to the place `from` of the page p.
abbrev pub copy_in : ℕ → ℕ → ℕ → List ℕ → Mem → Mem
copy_in p from n xs m q j =
    if (q == p) && (leb from j && ltb j (from + n)) then get_or xs (j - from) 0 else m q j

-- uva2ka; `none` is the use of the null pointer that walkpgdir returns.
unfoldable pub uva2ka : ℕ → ℕ → Vm → Option ℕ
uva2ka pgdir uva vm = elim ((walkpgdir pgdir uva false vm).0) [
  | none ↦ none
  | some (t, i) ↦
      let pte = vm.mem t i in
      some (if not (is_present pte) then 0 else if not (is_user pte) then 0 else p2v (pte_addr pte))
]

-- The loop of copyout with `fuel` rounds: true where it returns 0, false where it returns -1.
unfoldable pub copyout_from : ℕ → ℕ → ℕ → List ℕ → Vm → Option (Bool × Vm)
copyout_from zero pgdir va buf vm = none
copyout_from (suc fuel) pgdir va [] vm = some (true, vm)
copyout_from (suc fuel) pgdir va (x ∷ xs) vm =
    let va0 = page_round_down va in
    elim (uva2ka pgdir va0 vm) [
      | none ↦ none
      | some pa0 ↦ elim (pa0 == 0) [
        | true ↦ some (false, vm)
        | false ↦
            let n = min (sub32 pgsize (sub32 va va0)) (length (x ∷ xs)) in
            copyout_from fuel pgdir (add32 va0 pgsize) (drop n (x ∷ xs))
              (record vm { mem = copy_in pa0 (sub32 va va0) n (x ∷ xs) vm.mem })
      ]
    ]

-- copyout of the bytes `buf`, with a round for each.
unfoldable pub copyout : ℕ → ℕ → List ℕ → Vm → Option (Bool × Vm)
unfolding copyout_from
copyout pgdir va buf vm = copyout_from (suc (length buf)) pgdir va buf vm
