-- ===== src/Proc/Inv/Keeps.antt =====
-- The functions of proc.c that hand out no pid, under the frame rule.
use lab7sp25_shelnutt.Base.{
  ℕ, ◌≡◌, refl, true, false, ◌||◌, not, List, [], ◌∷◌, ◌==◌, arith, length-map, some, inl, inr,
  Bool-cases, Option-cases, ℤ, pos, ltb_ℤ, ℕ_discrete, some-injective, ◌<◌, ◌^◌,
}
use lab7sp25_shelnutt.Proc.Table.{Proc, live, Kernel, the_proc, update, Chan, entry}
use lab7sp25_shelnutt.Proc.Services.{Services}
use lab7sp25_shelnutt.Proc.Sleep.{
  rouse, fall_asleep, forget_chan, make_runnable, wakeup1, wakeups, sleep, sleep_return, yield,
  mark_killed, kill,
}
use lab7sp25_shelnutt.Proc.Sleep.Kills.{kill_cases}
use lab7sp25_shelnutt.Proc.Sleep.Wakeups.{the_proc-wakeup1}
use lab7sp25_shelnutt.Proc.Info.{with_tickets, settickets}
use lab7sp25_shelnutt.Proc.Life.{wipe, bury, scan, reap, wait_pass}
use lab7sp25_shelnutt.Proc.Life.Exits.{Exited, bury-Exited}
use lab7sp25_shelnutt.Proc.Alloc.{
  first_process, userinit, new_size, resize, child_fields, allocproc, dup_files, fill_fields,
  growproc,
}
use lab7sp25_shelnutt.Proc.Alloc.Slot.{allocproc-IsValid, allocproc-some}
use lab7sp25_shelnutt.Proc.Inv.{
  IsValid, live_bound, Retains, Retains-world, Retains-refl, Retains-trans, Retains-IsValid,
  update-Retains,
}

rouse_keeps : (c : Chan) (p : Proc) → (live (rouse c p) ≡ live p) × ((rouse c p).pid ≡ p.pid)
rouse_keeps c p = ground arith

pub wakeup1-Retains : {W : Type 0} (c : Chan) (k : Kernel W) → Retains k (wakeup1 c k)
unfolding wakeup1
wakeup1-Retains c k = record {
  same_size = length-map k.procs (rouse c);
  same_next = refl;
  same_pid = λ i h. ground (arith, the_proc-wakeup1 c k i, rouse_keeps c (the_proc k i));
}

pub wakeups-Retains : {W : Type 0} (cs : List Chan) (k : Kernel W) → Retains k (wakeups cs k)
unfolding wakeups
wakeups-Retains [] k = Retains-refl k
wakeups-Retains (c ∷ cs) k = Retains-trans (wakeup1-Retains c k) (wakeups-Retains cs (wakeup1 c k))

-- kill keeps the pids, and brings nothing into use.
pub kill-Retains : {W : Type 0} (pid : ℕ) (k : Kernel W) → Retains k (kill pid k).1
kill-Retains pid k = elim (kill_cases pid k) [
  | inl (e, _) ↦ rw e (Retains-refl k)
  | inr (i, _, e) ↦ rw e (update-Retains i mark_killed k (λ h. ground arith))
]

pub sleep-Retains :
    {W : Type 0} (cur : ℕ) (c : Chan) (k : Kernel W)
    → live (the_proc k cur) ≡ true
    → Retains k (sleep cur c k)
unfolding sleep
sleep-Retains cur c k v = update-Retains cur (fall_asleep c) k (λ h. (v, refl))

pub sleep_return-Retains : {W : Type 0} (cur : ℕ) (k : Kernel W) → Retains k (sleep_return cur k)
unfolding sleep_return
sleep_return-Retains cur k = update-Retains cur forget_chan k (λ h. (h, refl))

pub yield-Retains :
    {W : Type 0} (cur : ℕ) (k : Kernel W) → live (the_proc k cur) ≡ true → Retains k (yield cur k)
unfolding yield
yield-Retains cur k v = update-Retains cur make_runnable k (λ h. (v, refl))

pub settickets-Retains :
    {W : Type 0} (cur : ℕ) (n : ℤ) (k : Kernel W) → Retains k (settickets cur n k).1
unfolding settickets
settickets-Retains cur n k = elim (Bool-cases (ltb_ℤ n (pos 10))) [
  | inl h ↦ rw h (Retains-refl k)
  | inr h ↦ rw h (update-Retains cur (with_tickets n) k (λ l. (l, refl)))
]

Exited-Retains :
    {W : Type 0} {cur : ℕ} {k k' : Kernel W}
    → Exited cur k k'
    → live (the_proc k cur) ≡ true
    → Retains k k'
Exited-Retains {cur = cur} x l = record {
  same_size = x.size;
  same_next = x.next;
  same_pid = λ j h. elim (ℕ_discrete cur j) [
    | yes e ↦ (rw e at l, rw e at x.same_pid)
    | no n ↦ ground (arith, (x.others j n).live_still, (x.others j n).pid)
  ];
}

pub bury-Retains :
    {W : Type 0} (cur : ℕ) (k : Kernel W)
    → IsValid k
    → live (the_proc k cur) ≡ true
    → Retains k (bury cur k)
bury-Retains cur k v l = Exited-Retains (bury-Exited cur k v.sized (live_bound v cur l)) l

module _ (sys : Services) where
  open sys use {World}

  pub reap-Retains : (i : ℕ) (k : Kernel World) → Retains k (reap sys i k)
  unfolding reap
  reap-Retains i k =
      Retains-trans (Retains-world k _) (update-Retains i wipe _ (λ l. absurd (ground arith)))

  pub wait_pass-Retains :
      (cur : ℕ) (k : Kernel World)
      → live (the_proc k cur) ≡ true
      → Retains k (wait_pass sys cur k).1
  wait_pass-Retains cur k l = elim (Option-cases (scan cur 0 false k.procs).0) [
    | inr (i, e) ↦ unfold wait_pass in rw (e, wait_pass) (reap-Retains i k)
    | inl e ↦ elim (Bool-cases (not (scan cur 0 false k.procs).1 || (the_proc k cur).killed)) [
      | inl t ↦ unfold wait_pass in rw (e, t, wait_pass) (Retains-refl k)
      | inr t ↦ unfold wait_pass in rw (e, t, wait_pass) (sleep-Retains cur (entry cur) k l)
    ]
  ]

  pub growproc-Retains : (cur : ℕ) (n : ℤ) (k : Kernel World) → Retains k (growproc sys cur n k).1
  growproc-Retains cur n k = elim (Bool-cases (ltb_ℤ (pos 0) n)) [
    | inl h ↦
        elim (Bool-cases (
          (sys.allocuvm (the_proc k cur).pgdir (the_proc k cur).sz (new_size (the_proc k cur).sz n)
            k.world).0
          == 0)) [
            | inl z ↦ unfold growproc in rw (h, z, growproc) (Retains-world k _)
            | inr z ↦
                unfold growproc in
                rw (h, z, growproc)
                  (Retains-trans (Retains-world k _)
                    (update-Retains cur (resize _) _ (λ l. (l, refl))))
          ]
    | inr h ↦ elim (Bool-cases (ltb_ℤ n (pos 0))) [
      | inr g ↦ unfold growproc in rw (h, g, growproc) (Retains-refl k)
      | inl g ↦
          elim (Bool-cases (
            (sys.deallocuvm (the_proc k cur).pgdir (the_proc k cur).sz
              (new_size (the_proc k cur).sz n) k.world).0
            == 0)) [
              | inl z ↦ unfold growproc in rw (h, g, z, growproc) (Retains-world k _)
              | inr z ↦
                  unfold growproc in
                  rw (h, g, z, growproc)
                    (Retains-trans (Retains-world k _)
                      (update-Retains cur (resize _) _ (λ l. (l, refl))))
            ]
    ]
  ]

  pub fill_fields-Retains :
      (cur np d : ℕ) (k : Kernel World)
      → live (the_proc k np) ≡ true
      → Retains k (fill_fields sys cur np d k)
  unfolding fill_fields
  fill_fields-Retains cur np d k l =
      let files = dup_files sys (the_proc k cur).ofile (the_proc k np).ofile k.world in
      let w = sys.idup (the_proc k cur).cwd files.1 in
      Retains-trans (Retains-world k w) (
        update-Retains np (child_fields (the_proc k cur) cur d files.0) (record k { world = w })
          (λ h. (l, refl)))

  pub userinit-IsValid :
      (k : Kernel World) {k' : Kernel World}
      → IsValid k
      → k.nextpid < 2 ^ 31
      → userinit sys k ≡ some k'
      → IsValid k'
  userinit-IsValid k {k'} v small h =
      let k1 = (allocproc sys k).1 in
      let a = allocproc-IsValid sys k v small in
      elim (Option-cases (allocproc sys k).0) [
        | inl e ↦ absurd (unfold userinit in ground arith)
        | inr (i, e) ↦ elim (Option-cases (sys.setupkvm k1.world).0) [
          | inl n ↦ absurd (unfold userinit in ground arith)
          | inr (d, n) ↦
              let s = allocproc-some sys k e in
              let r = sys.namei_root (sys.inituvm d (sys.setupkvm k1.world).1) in
              let k2 = record k1 { initproc = (allocproc sys k).0; world = r.1 } in
              let q : update i (first_process d r.0) k2 ≡ k' =
                some-injective (update i (first_process d r.0) k2) k'
                  (unfold userinit in rw (e, userinit, n) at h) in
              let valid : IsValid k2 = record {
                sized = a.sized;
                started = a.started;
                named = a.named;
                unique = a.unique;
              } in
              rw (← q) (
                Retains-IsValid
                  (update-Retains i (first_process d r.0) k2
                    (λ l. (ground (arith, s.embryo_now), refl)))
                  valid)
        ]
      ]
