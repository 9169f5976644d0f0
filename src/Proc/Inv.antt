-- ===== src/Proc/Inv.antt =====
-- The invariant of the process table, and the frame rule by which the functions of proc.c keep it.
pub mod Keeps
use lab7sp25_shelnutt.Base.{
  ℕ, zero, suc, ◌+◌, ◌^◌, ◌<◌, ◌≡◌, ◌≢◌, refl, Bool, true, false, ◌&&◌, List, ◌==◌, ltb,
  if◌then◌else◌, arith, get_or, set, map, length, length-set, get_or-set, Bool-cases, inl, inr,
  get_or_beyond, dec_lt,
}
use lab7sp25_shelnutt.Proc.Table.{nproc, Proc, blank, live, proc_at, Kernel, the_proc, update}

-- The table has its size, each process in use has a pid that was handed out, and no two have the
-- same.
pub record IsValid {W : Type 0} (k : Kernel W) : Type 0 where
  pub sized : length k.procs ≡ nproc
  pub started : 0 < k.nextpid
  pub named :
      (i : ℕ)
      → live (the_proc k i) ≡ true
      → (0 < (the_proc k i).pid) × ((the_proc k i).pid < k.nextpid)
  pub unique :
      (i j : ℕ)
      → live (the_proc k i) ≡ true
      → live (the_proc k j) ≡ true
      → (the_proc k i).pid ≡ (the_proc k j).pid
      → i ≡ j

-- A step hands out no pid, and what is in use after it was in use before, under the same pid.
pub record Retains {W : Type 0} (k k' : Kernel W) : Type 0 where
  pub same_size : length k'.procs ≡ length k.procs
  pub same_next : k'.nextpid ≡ k.nextpid
  pub same_pid :
      (i : ℕ)
      → live (the_proc k' i) ≡ true
      → (live (the_proc k i) ≡ true) × ((the_proc k' i).pid ≡ (the_proc k i).pid)

pub Retains-refl : {W : Type 0} (k : Kernel W) → Retains k k
Retains-refl k = record { same_size = refl; same_next = refl; same_pid = λ i h. (h, refl) }

pub Retains-world : {W : Type 0} (k : Kernel W) (w : W) → Retains k (record k { world = w })
Retains-world k w = record { same_size = refl; same_next = refl; same_pid = λ i h. (h, refl) }

pub Retains-trans : {W : Type 0} {k l m : Kernel W} → Retains k l → Retains l m → Retains k m
Retains-trans r s = record {
  same_size = omega arith;
  same_next = omega arith;
  same_pid =
      λ i h. let (hl, e) = s.same_pid i h in let (hk, e') = r.same_pid i hl in (hk, omega arith);
}

-- The frame rule.
pub Retains-IsValid : {W : Type 0} {k k' : Kernel W} → Retains k k' → IsValid k → IsValid k'
Retains-IsValid r v = record {
  sized = omega arith;
  started = omega arith;
  named = λ i h.
      let (hk, e) = r.same_pid i h in let (a, b) = v.named i hk in (omega arith, omega arith);
  unique = λ i j hi hj e.
      let (ki, ei) = r.same_pid i hi in
      let (kj, ej) = r.same_pid j hj in v.unique i j ki kj (omega arith);
}

pub live_bound :
    {W : Type 0} {k : Kernel W} → IsValid k → (i : ℕ) → live (the_proc k i) ≡ true → i < nproc
unfolding blank
live_bound {k = k} v i h = elim (dec_lt i nproc) [
  | yes l ↦ l
  | no n ↦ let e = get_or_beyond k.procs i blank (omega (arith, v.sized)) in ground arith
]

-- What an update of one entry makes of the table.
pub the_proc-update :
    {W : Type 0} (i j : ℕ) (f : Proc → Proc) (k : Kernel W)
    → the_proc (update i f k) j
      ≡ (if (i == j) && ltb i (length k.procs) then f (the_proc k j) else the_proc k j)
the_proc-update i j f k = ground (arith, get_or-set k.procs i j (f (the_proc k i)) blank)

pub the_proc-update_self :
    {W : Type 0} (i : ℕ) (f : Proc → Proc) (k : Kernel W)
    → i < length k.procs
    → the_proc (update i f k) i ≡ f (the_proc k i)
the_proc-update_self i f k l = ground (arith, the_proc-update i i f k)

pub the_proc-update_ne :
    {W : Type 0} (i j : ℕ) (f : Proc → Proc) (k : Kernel W)
    → i ≢ j
    → the_proc (update i f k) j ≡ the_proc k j
the_proc-update_ne i j f k n = ground (arith, the_proc-update i j f k)

-- An update that keeps the pid and does not bring an entry into use.
pub update-Retains :
    {W : Type 0} (i : ℕ) (f : Proc → Proc) (k : Kernel W)
    → (live (f (the_proc k i)) ≡ true
        → (live (the_proc k i) ≡ true) × ((f (the_proc k i)).pid ≡ (the_proc k i).pid))
    → Retains k (update i f k)
update-Retains i f k h = record {
  same_size = length-set k.procs i (f (the_proc k i));
  same_next = refl;
  same_pid = λ j l. grind (arith, the_proc-update i j f k, h);
}
