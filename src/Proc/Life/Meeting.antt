-- ===== src/Proc/Life/Meeting.antt =====
-- wait and exit together: a child that exits after its parent went to sleep in wait.
use lab7sp25_shelnutt.Base.{
  ℕ, ◌<◌, ◌≡◌, ◌≢◌, true, false, none, some, arith, length, inl, inr, pos, ap, ◌∙◌, sym, subst,
  length-set, some-injective,
}
use lab7sp25_shelnutt.Proc.Table.{Kernel, the_proc, is_state, zombie, sleeping, nproc}
use lab7sp25_shelnutt.Proc.Services.{Services}
use lab7sp25_shelnutt.Proc.Sleep.{sleep_return, forget_chan}
use lab7sp25_shelnutt.Proc.Inv.{the_proc-update}
use lab7sp25_shelnutt.Proc.Life.{exit, wait_pass}
use lab7sp25_shelnutt.Proc.Life.Exits.{Exited, exit_lem}
use lab7sp25_shelnutt.Proc.Life.Waiting.{Waits, wait_pass-finds}

module _ (sys : Services) where
  open sys use {World}

  forget_keeps :
      (cur m : ℕ) (k : Kernel World)
      → let p = the_proc (sleep_return cur k) m in
        (p.pid ≡ (the_proc k m).pid)
        × (p.parent ≡ (the_proc k m).parent)
        × (p.state ≡ (the_proc k m).state)
  unfolding sleep_return
  forget_keeps cur m k = ground (arith, the_proc-update cur m forget_chan k)

  -- The child that has just exited is one that the next pass can find.
  Exited-finds :
      (cur c : ℕ) (k1 k2 : Kernel World)
      → length k1.procs ≡ nproc
      → c < nproc
      → c ≢ cur
      → (the_proc k1 c).parent ≡ some cur
      → Exited c k1 k2
      → (m : ℕ) × ((wait_pass sys cur (sleep_return cur k2)).0 ≡ some (pos (the_proc k2 m).pid))
        × ((the_proc k2 m).parent ≡ some cur)
        × (is_state (the_proc k2 m).state zombie ≡ true)
  Exited-finds cur c k1 k2 size inside ne p x =
      let k3 = sleep_return cur k2 in
      let f = forget_keeps cur c k2 in
      let long : length k3.procs ≡ length k2.procs =
        unfold sleep_return in length-set k2.procs cur (forget_chan (the_proc k2 cur)) in
      let (m, r, d, z) =
        wait_pass-finds sys cur c k3 (omega (arith, long, x.size), ground (arith, f, x.orphans c))
          (ground (arith, f, x.buried)) in
      let g = forget_keeps cur m k2 in
      (m, r ∙ ap (λ n. some (pos n)) g.0, ground (arith, g, d.1), ground (arith, g))

  -- Let a pass of wait by `cur` go to sleep, and then a child `c` of it exit. Then `cur` does not sleep
  -- any more, and when it runs on, its next pass returns the pid of a ZOMBIE child.
  pub wait-exit :
      (cur c : ℕ) (k k1 k2 : Kernel World)
      → length k1.procs ≡ nproc
      → c < nproc
      → c ≢ cur
      → Waits cur k (none, k1)
      → (the_proc k1 c).parent ≡ some cur
      → exit sys c k1 ≡ some k2
      → (is_state (the_proc k2 cur).state sleeping ≡ false)
        × ((m : ℕ) × ((wait_pass sys cur (sleep_return cur k2)).0 ≡ some (pos (the_proc k2 m).pid))
            × ((the_proc k2 m).parent ≡ some cur)
            × (is_state (the_proc k2 m).state zombie ≡ true))
  wait-exit cur c k k1 k2 size inside ne w p e = elim (exit_lem sys c k1 size inside) [
    | inl (_, n) ↦ absurd (ground arith)
    | inr (k3, s, x) ↦
        let q : k3 ≡ k2 = some-injective k3 k2 (sym s ∙ e) in
        let y : Exited c k1 k2 = subst (Exited c k1) q x in
        (y.parent_told cur p ne w.on_self, Exited-finds cur c k1 k2 size inside ne p y)
  ]
