-- ===== src/Log/Atomic.antt =====
-- commit on a disk that may stop: what it holds before, between and after the writes of the header.
use lab7sp25_shelnutt.Base.{
  ℕ, ◌+◌, ◌-◌, ◌≤◌, ◌<◌, ◌≡◌, refl, ap, ◌∙◌, sym, false, [], arith, length, ◌==◌, ◌⊎◌, inl, inr,
  subst, subst₂, fun_ext, lt→ltb, ==_refl,
}
use lab7sp25_shelnutt.Log.{Log, write_log, install_trans, header_blocks, write_head, clear, commit}
use lab7sp25_shelnutt.Log.Header.{header_blocks-header}
use lab7sp25_shelnutt.Log.Install.{Outside, Slots, install_from-stop}
use lab7sp25_shelnutt.Log.Copy.{Copied, write_log_from-Copied}
use lab7sp25_shelnutt.Log.Crash.{
  IsHome, Before, During, After, Slots-agree, disk-write_head, disk-stop, cut_short, goes_through,
  home_ne,
}

-- A transaction that commit can take: it fits the slots, its blocks lie outside of the log, the header
-- block has room for their numbers, and the header on the disk is empty.
pub record IsReady (n : ℕ) (s : Log) : Type 0 where
  pub fits : length s.logged ≤ n
  pub outside : Outside s.start n s.logged
  pub room : length s.logged < length (s.cache s.start)
  pub quiet : header_blocks (s.disk s.start) ≡ []

module _ (n : ℕ) (s : Log) (r : IsReady n s) where
  abbrev copied : Log
  copied = write_log s

  copies : Copied s.cache n 0 s.logged s (write_log s)
  unfolding write_log
  copies =
      write_log_from-Copied s.cache n 0 s.logged s r.outside (omega (arith, r.fits)) (λ x h. refl)

  -- Before the header is written the disk shows nothing of the transaction.
  copied-Before : Before s.start n s.disk (write_log s).disk
  copied-Before = record {
    head = ap header_blocks (copies.others s.start (inl (omega arith))).0 ∙ r.quiet;
    home = λ x h. (copies.others x (widen x h)).0;
  }
    where
      widen : (x : ℕ) → IsHome s.start n x → (x ≤ s.start + 0) ⊎ (s.start + n < x)
      widen x (inl h) = inl (omega arith)
      widen x (inr h) = inr h

  -- With the header written, recovery can finish it.
  headed-During :
      length s.logged < s.power
      → During s.start n s.logged s.cache s.disk (write_head (write_log s)).disk
  headed-During h =
      let t = write_log s in
      let on : (t.power == 0) ≡ false = ground (arith, copies.power) in
      let c = copies.others s.start (inl (omega arith)) in
      let at_home : (x : ℕ) → IsHome s.start n x → (write_head t).disk x ≡ s.disk x = λ x y.
        ground (
          arith,
          disk-write_head t x,
          on,
          copies.start,
          home_ne s.start n x y,
          copied-Before.home x y,
        ) in
      record {
        head =
            rw (disk-write_head t s.start, on, copies.start, ==_refl s.start, copies.logged, c.1)
              (header_blocks-header (s.cache s.start) s.logged r.room);
        slots =
            Slots-agree s.cache t.disk (write_head t).disk s.start n 0 s.logged
              (omega (arith, r.fits))
              (λ x lo hi. ground (arith, disk-write_head t x, on, copies.start))
              (copies.whole (omega arith));
        home = λ x y e. at_home x y;
        some_home = λ x y e. inl (at_home x y);
      }

  -- The log after its header is written, for the rest of commit.
  headed : Log
  headed = write_head (write_log s)

  headed-start : headed.start ≡ s.start
  unfolding headed write_head
  headed-start = copies.start

  headed-logged : headed.logged ≡ s.logged
  unfolding headed write_head
  headed-logged = copies.logged

  headed-power : headed.power ≡ s.power - length s.logged - 1
  unfolding headed write_head
  headed-power = ap (λ p. p - 1) copies.power

  headed-Slots : Slots s.cache headed.cache s.start 0 s.logged
  unfolding headed write_head
  headed-Slots =
      let t = write_log s in
      Slots-agree s.cache t.cache headed.cache s.start n 0 s.logged (omega (arith, r.fits))
        (λ x lo hi. ground (arith, copies.start)) copies.cached

  commit-eq : 0 < length s.logged → commit s ≡ write_head (clear (install_trans headed))
  unfolding commit headed
  commit-eq h = rw (lt→ltb 0 (length s.logged) h)

  -- The power ends before the header is on the disk.
  pub commit-Before :
      s.power ≤ length s.logged → 0 < length s.logged → Before s.start n s.disk (commit s).disk
  commit-Before h some_logged =
      let t = write_log s in
      let off : t.power ≡ 0 = omega (arith, copies.power) in
      let (p, d) : ((install_trans headed).power ≡ 0)
          × ((x : ℕ) → (install_trans headed).disk x ≡ headed.disk x) =
        unfold install_trans in
        install_from-stop 0 headed.logged headed (omega (arith, headed-power)) in
      let u : headed.disk ≡ t.disk = unfold headed in disk-stop t off in
      let w : (commit s).disk ≡ t.disk =
        ap (λ (x : Log). x.disk) (commit-eq some_logged)
        ∙ disk-stop (clear (install_trans headed)) p
        ∙ fun_ext d
        ∙ u in
      subst (Before s.start n s.disk) (sym w) copied-Before

  headed-During' :
      length s.logged < s.power → During headed.start n headed.logged s.cache s.disk headed.disk
  headed-During' h =
      subst₂ (λ a b. During a n b s.cache s.disk headed.disk) (sym headed-start) (sym headed-logged)
        (unfold headed in headed-During h)

  abbrev finished : Log
  finished = write_head (clear (install_trans headed))

  headed-Outside : Outside headed.start n headed.logged
  headed-Outside = subst₂ (λ a b. Outside a n b) (sym headed-start) (sym headed-logged) r.outside

  headed-cached : Slots s.cache headed.cache headed.start 0 headed.logged
  headed-cached =
      subst₂ (λ a b. Slots s.cache headed.cache a 0 b) (sym headed-start) (sym headed-logged)
        headed-Slots

  headed-fits : length headed.logged ≤ n
  headed-fits = omega (arith, ap length headed-logged, r.fits)

  -- The power ends between the two writes of the header.
  pub commit-During :
      length s.logged < s.power
      → s.power ≤ length s.logged + 1 + length s.logged
      → 0 < length s.logged
      → During s.start n s.logged s.cache s.disk (commit s).disk
  commit-During h end some_logged =
      let d =
        cut_short s.cache s.disk n headed headed-Outside headed-fits headed-cached
          (headed-During' h) (omega (arith, ap length headed-logged, headed-power)) in
      rw (commit-eq some_logged)
        (subst₂ (λ a b. During a n b s.cache s.disk finished.disk) headed-start headed-logged d)

  -- The power lasts.
  pub commit-After :
      length s.logged + 1 + length s.logged < s.power
      → 0 < length s.logged
      → After s.start n s.logged s.cache s.disk (commit s).disk
  commit-After h some_logged =
      let d =
        goes_through s.cache s.disk n headed headed-Outside headed-fits headed-cached
          (headed-During' (omega arith)) (omega (arith, ap length headed-logged, headed-power)) in
      rw (commit-eq some_logged)
        (subst₂ (λ a b. After a n b s.cache s.disk finished.disk) headed-start headed-logged d)
