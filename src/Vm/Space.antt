-- ===== src/Vm/Space.antt =====
-- What each page of memory is for, while a page table is well-formed.
use lab7sp25_shelnutt.Base.{
  ℕ, ◌+◌, ◌/◌, ◌%◌, ◌^◌, ◌≤◌, ◌<◌, ◌≡◌, ◌≢◌, refl, ap, ◌∙◌, sym, true, false, ◌==◌, if◌then◌else◌,
  arith,
}
use lab7sp25_shelnutt.Kalloc.{pgsize, kernbase, phystop}
use lab7sp25_shelnutt.Kalloc.Pages.{times}
use lab7sp25_shelnutt.Vm.{Mem, Vm, write, clear_page, v2p, p2v, is_present, pte_addr, pte_pwu}

-- A page: the directory, the table of an entry of it, the frame of a user page, free, or another's.
pub data Role : Type 0 where
  root : Role
  table : ℕ → Role
  frame : ℕ → Role
  spare : Role
  other : Role

-- The kernel address of the page that an entry names.
abbrev pub page_of : ℕ → ℕ
page_of pte = p2v (pte_addr pte)

-- The entry of the n-th page of the address space, and 0 where it has no table.
abbrev pub entry : Vm → ℕ → ℕ → ℕ
entry vm d n =
    let pde = vm.mem d (n / 1024) in if is_present pde then vm.mem (page_of pde) (n % 1024) else 0

abbrev pub user_pages : ℕ
user_pages = 2 ^ 19

abbrev pub all_pages : ℕ
all_pages = 2 ^ 20

module _ (bottom : ℕ) where
  -- A page that kfree takes.
  pub record Usable (v : ℕ) : Type 0 where
    pub whole : v % pgsize ≡ 0
    pub above : bottom ≤ v
    pub in_kernel : kernbase ≤ v
    pub in_memory : v < kernbase + phystop

  -- The directory, its tables, the frames of its user pages and the free pages are all different, by
  -- what each is for.
  pub record IsSpace (d : ℕ) (vm : Vm) (role : ℕ → Role) : Type 0 where
    pub roots : role d ≡ root
    pub tables :
        (i : ℕ) → i < 1024 → is_present (vm.mem d i) ≡ true → role (page_of (vm.mem d i)) ≡ table i
    pub frames :
        (n : ℕ)
        → n < user_pages
        → is_present (entry vm d n) ≡ true
        → role (page_of (entry vm d n)) ≡ frame n
    pub frames_usable :
        (n : ℕ)
        → n < user_pages
        → is_present (entry vm d n) ≡ true
        → Usable (page_of (entry vm d n))
    pub spares : (v : ℕ) → 0 < times vm.free v → role v ≡ spare
    pub spares_usable : (v : ℕ) → 0 < times vm.free v → Usable v
    pub once : (v : ℕ) → times vm.free v ≤ 1

-- Reads after a write.
pub write-same : (p i v : ℕ) (m : Mem) → write p i v m p i ≡ v
write-same p i v m = ground arith

pub write-other : (p i v : ℕ) (m : Mem) (q j : ℕ) → q ≢ p → write p i v m q j ≡ m q j
write-other p i v m q j h = ground arith

pub write-index : (p i v : ℕ) (m : Mem) (q j : ℕ) → j ≢ i → write p i v m q j ≡ m q j
write-index p i v m q j h = ground arith

pub clear-same : (p : ℕ) (m : Mem) (j : ℕ) → clear_page p m p j ≡ 0
clear-same p m j = ground arith

pub clear-other : (p : ℕ) (m : Mem) (q j : ℕ) → q ≢ p → clear_page p m q j ≡ m q j
clear-other p m q j h = ground arith

-- A page has one role.
pub apart : (role : ℕ → Role) (p q : ℕ) {x y : Role} → role p ≡ x → role q ≡ y → x ≢ y → p ≢ q
apart role p q a b h e = h (sym a ∙ ap role e ∙ b)

-- The role of a page that changes.
abbrev pub assign : ℕ → Role → (ℕ → Role) → ℕ → Role
assign p x role q = if q == p then x else role q

pub assign-same : (p : ℕ) (x : Role) (role : ℕ → Role) → assign p x role p ≡ x
assign-same p x role = let e : (p == p) ≡ true = ground arith in rw e refl

pub assign-other : (p : ℕ) (x : Role) (role : ℕ → Role) (q : ℕ) → q ≢ p → assign p x role q ≡ role q
assign-other p x role q h = let e : (q == p) ≡ false = ground arith in rw e refl

-- An entry for a page, with flags below 4096.
pub page_of-v2p :
    (v flags : ℕ)
    → v % pgsize ≡ 0
    → kernbase ≤ v
    → v < kernbase + phystop
    → flags < pgsize
    → page_of (v2p v + flags) ≡ v
page_of-v2p v flags a k m f = omega arith

pub present-v2p :
    (v : ℕ)
    → v % pgsize ≡ 0
    → kernbase ≤ v
    → v < kernbase + phystop
    → is_present (v2p v + pte_pwu) ≡ true
present-v2p v a k m = ground arith
