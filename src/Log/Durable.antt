-- ===== src/Log/Durable.antt =====
-- A transaction under crashes during its commit and during recovery.
use lab7sp25_shelnutt.Base.{
  ℕ, suc, ◌+◌, ◌≤◌, ◌<◌, ◌≡◌, refl, ◌∙◌, sym, List, [], ◌∷◌, arith, length, ◌⊎◌, inl, inr, dec_lt,
  subst, Bool-cases, ltb,
}
use lab7sp25_shelnutt.Log.{
  Block, Log, bwrite, write_log, write_log_from, write_head, read_head, install_from, commit,
  reboot, recover_from_log, restarts,
}
use lab7sp25_shelnutt.Log.Install.{Outside}
use lab7sp25_shelnutt.Log.Crash.{Before, During, After}
use lab7sp25_shelnutt.Log.Atomic.{IsReady, commit-Before, commit-During, commit-After}
use lab7sp25_shelnutt.Log.Recovery.{recover-During, recover-After, recover-still, recover-old}

start-install_from : (tail : ℕ) (bs : List ℕ) (s : Log) → (install_from tail bs s).start ≡ s.start
unfolding install_from
start-install_from tail [] s = refl
start-install_from tail (b ∷ bs) s =
    start-install_from (suc tail) bs (bwrite b (s.cache (s.start + tail + 1)) s)

start-write_log_from :
    (tail : ℕ) (bs : List ℕ) (s : Log) → (write_log_from tail bs s).start ≡ s.start
unfolding write_log_from
start-write_log_from tail [] s = refl
start-write_log_from tail (b ∷ bs) s =
    start-write_log_from (suc tail) bs (bwrite (s.start + tail + 1) (s.cache b) s)

start-recover : (power : ℕ) (s : Log) → (recover_from_log (reboot power s)).start ≡ s.start
unfolding recover_from_log reboot
start-recover power s =
    start-install_from 0 (read_head (reboot power s)).logged (read_head (reboot power s))

start-commit : (s : Log) → (commit s).start ≡ s.start
unfolding commit
start-commit s = elim (Bool-cases (ltb 0 (length s.logged))) [
  | inr h ↦ rw (h, commit)
  | inl h ↦
      let t = write_head (write_log s) in
      rw (h, commit) (start-install_from 0 t.logged t ∙ start-write_log_from 0 s.logged s)
]

module _ (n : ℕ) (bs : List ℕ) (new old : ℕ → Block) where
  abbrev Survives : Log → Type 0
  Survives s = During s.start n bs new old s.disk ⊎ After s.start n bs new old s.disk

  recover-Survives :
      (power : ℕ) (s : Log)
      → Outside s.start n bs
      → length bs ≤ n
      → Survives s
      → Survives (recover_from_log (reboot power s))
  recover-Survives power s o l v = rw (start-recover power s) (go v)
    where
      go :
          Survives s
          → During s.start n bs new old (recover_from_log (reboot power s)).disk
            ⊎ After s.start n bs new old (recover_from_log (reboot power s)).disk
      go (inr a) = inr (recover-still n bs new old power s a)
      go (inl d) = elim (dec_lt (length bs) power) [
        | yes h ↦ inr (recover-After n bs new old power s o l d h)
        | no h ↦ inl (recover-During n bs new old power s o l d (omega arith))
      ]

  restarts-Survives :
      (powers : List ℕ) (s : Log)
      → Outside s.start n bs
      → length bs ≤ n
      → Survives s
      → ((restarts powers s).start ≡ s.start) × Survives (restarts powers s)
  unfolding restarts
  restarts-Survives [] s o l v = (refl, v)
  restarts-Survives (p ∷ ps) s o l v =
      let s1 = recover_from_log (reboot p s) in
      let e = start-recover p s in
      let (q, w) = restarts-Survives ps s1 (rw e o) l (recover-Survives p s o l v) in (q ∙ e, w)

  recover-Before :
      (power : ℕ) (s : Log)
      → Before s.start n old s.disk
      → let t = recover_from_log (reboot power s) in Before t.start n old t.disk
  recover-Before power s v =
      subst (λ a. Before a n old (recover_from_log (reboot power s)).disk)
        (sym (start-recover power s)) (recover-old n bs new old power s v)

  restarts-Before :
      (powers : List ℕ) (s : Log)
      → Before s.start n old s.disk
      → ((restarts powers s).start ≡ s.start)
        × Before (restarts powers s).start n old (restarts powers s).disk
  unfolding restarts
  restarts-Before [] s v = (refl, v)
  restarts-Before (p ∷ ps) s v =
      let s1 = recover_from_log (reboot p s) in
      let e = start-recover p s in
      let v1 : Before s1.start n old s1.disk = recover-Before p s v in
      let (q, w) = restarts-Before ps s1 v1 in (q ∙ e, w)

-- Let a ready transaction be committed by a machine that may stop after any number of disk writes, and
-- let the machine then be started any number of times, each time stopping during recovery at any
-- point, and at last with recovery getting through. If the first stop came before the write of the
-- header, no block outside of the log has changed; if not, each block of the transaction has its new
-- contents, and every other block outside of the log its old ones. In both cases the log is empty.
pub restarts-commit :
    (n : ℕ) (s : Log) (powers : List ℕ) (power : ℕ)
    → IsReady n s
    → 0 < length s.logged
    → length s.logged < power
    → let t = recover_from_log (reboot power (restarts powers (commit s))) in
      ((s.power ≤ length s.logged) × Before s.start n s.disk t.disk)
      ⊎ ((length s.logged < s.power) × After s.start n s.logged s.cache s.disk t.disk)
restarts-commit n s powers power r some_logged enough = elim (dec_lt (length s.logged) s.power) [
  | no h ↦
      let b : Before (commit s).start n s.disk (commit s).disk =
        rw (start-commit s) (commit-Before n s r (omega arith) some_logged) in
      let (q, v) = restarts-Before n s.logged s.cache s.disk powers (commit s) b in
      let w = recover-old n s.logged s.cache s.disk power (restarts powers (commit s)) v in
      inl (
        omega arith,
        subst
            (λ a.
              Before a n s.disk (recover_from_log (reboot power (restarts powers (commit s)))).disk)
            (q ∙ start-commit s) w,
      )
  | yes h ↦
      let c : Survives n s.logged s.cache s.disk (commit s) =
        subst
          (λ a.
            During a n s.logged s.cache s.disk (commit s).disk
            ⊎ After a n s.logged s.cache s.disk (commit s).disk)
          (sym (start-commit s))
          (elim (dec_lt (length s.logged + 1 + length s.logged) s.power) [
            | yes g ↦ inr (commit-After n s r g some_logged)
            | no g ↦ inl (commit-During n s r h (omega arith) some_logged)
          ]) in
      let o : Outside (commit s).start n s.logged = rw (start-commit s) r.outside in
      let (q, v) = restarts-Survives n s.logged s.cache s.disk powers (commit s) o r.fits c in
      let t = restarts powers (commit s) in
      let e = q ∙ start-commit s in
      let o' : Outside t.start n s.logged = rw e r.outside in
      let w : After t.start n s.logged s.cache s.disk (recover_from_log (reboot power t)).disk =
        elim v [
          | inl d ↦ recover-After n s.logged s.cache s.disk power t o' r.fits d enough
          | inr a ↦ recover-still n s.logged s.cache s.disk power t a
        ] in
      inr (
        h,
        subst (λ a. After a n s.logged s.cache s.disk (recover_from_log (reboot power t)).disk) e w,
      )
]
