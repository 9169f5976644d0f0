-- ===== src/Log/Recovery.antt =====
-- Recovery after a crash, which may itself be cut short by further crashes.
use lab7sp25_shelnutt.Base.{
  ℕ, ◌≤◌, ◌<◌, ◌≡◌, ap, ◌∙◌, sym, false, List, [], arith, length, ◌==◌, subst,
}
use lab7sp25_shelnutt.Log.{
  Block, Log, write_head, read_head, install_trans, install_from, clear, reboot, recover_from_log,
  header_blocks,
}
use lab7sp25_shelnutt.Log.Install.{Outside}
use lab7sp25_shelnutt.Log.Crash.{
  Before, During, After, disk-write_head, cut_short, goes_through, home_ne, header-nil,
}

-- The log as read_head finds it after a start.
abbrev found : ℕ → Log → Log
found power s = read_head (reboot power s)

-- A log with no block logged, whose header is erased once more.
rest_empty :
    (f : Log)
    → f.logged ≡ []
    → let d = (write_head (clear (install_trans f))).disk in
      (header_blocks (f.disk f.start) ≡ [] → header_blocks (d f.start) ≡ [])
      × ((x : ℕ) → (f.start == x) ≡ false → d x ≡ f.disk x)
rest_empty f e =
    let i : install_trans f ≡ f =
      unfold install_trans in unfold install_from in ap (λ b. install_from 0 b f) e in
    rw i (
      (λ h. ground (arith, disk-write_head (clear f) f.start, header-nil (f.cache f.start))),
      (λ x n. ground (arith, disk-write_head (clear f) x)),
    )

module _ (n : ℕ) (bs : List ℕ) (new old : ℕ → Block) (power : ℕ) (s : Log) where
  -- The transaction that read_head finds.
  found-During :
      During s.start n bs new old s.disk
      → During s.start n (header_blocks (s.disk s.start)) new old s.disk
  found-During d = subst (λ b. During s.start n b new old s.disk) (sym d.head) d

  found-Outside :
      During s.start n bs new old s.disk
      → Outside s.start n bs
      → Outside s.start n (header_blocks (s.disk s.start))
  found-Outside d o = subst (λ b. Outside s.start n b) (sym d.head) o

  pub recover-During :
      Outside s.start n bs
      → length bs ≤ n
      → During s.start n bs new old s.disk
      → power ≤ length bs
      → During s.start n bs new old (recover_from_log (reboot power s)).disk
  unfolding recover_from_log read_head reboot
  recover-During o l d h =
      let e = ap length d.head in
      let f = found power s in
      let r =
        cut_short new old n f (found-Outside d o) (omega (arith, e)) (found-During d).slots
          (found-During d) (omega (arith, e)) in
      subst (λ b. During s.start n b new old (write_head (clear (install_trans f))).disk) d.head r

  pub recover-After :
      Outside s.start n bs
      → length bs ≤ n
      → During s.start n bs new old s.disk
      → length bs < power
      → After s.start n bs new old (recover_from_log (reboot power s)).disk
  unfolding recover_from_log read_head reboot
  recover-After o l d h =
      let e = ap length d.head in
      let f = found power s in
      let r =
        goes_through new old n f (found-Outside d o) (omega (arith, e)) (found-During d).slots
          (found-During d) (omega (arith, e)) in
      subst (λ b. After s.start n b new old (write_head (clear (install_trans f))).disk) d.head r

  -- Recovery leaves a disk without a transaction as it is.
  pub recover-still :
      After s.start n bs new old s.disk
      → After s.start n bs new old (recover_from_log (reboot power s)).disk
  unfolding recover_from_log read_head reboot
  recover-still a =
      let (e, q) = rest_empty (found power s) a.head in
      record { head = e a.head; home = λ x h. q x (home_ne s.start n x h) ∙ a.home x h }

  pub recover-old :
      Before s.start n old s.disk → Before s.start n old (recover_from_log (reboot power s)).disk
  unfolding recover_from_log read_head reboot
  recover-old a =
      let (e, q) = rest_empty (found power s) a.head in
      record { head = e a.head; home = λ x h. q x (home_ne s.start n x h) ∙ a.home x h }
