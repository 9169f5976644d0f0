-- ===== src/Log/Crash.antt =====
-- What a stop of the machine leaves on the disk, and one installation of a logged transaction.
use lab7sp25_shelnutt.Base.{
  ℕ, suc, ◌+◌, ◌≤◌, ◌<◌, ◌≡◌, refl, ap, ◌∙◌, sym, true, false, List, [], ◌∷◌, arith, length, ◌==◌,
  ◌⊎◌, if◌then◌else◌, subst, fun_ext,
}
use lab7sp25_shelnutt.Log.{Block, Log, install_trans, header, header_blocks, write_head, clear}
use lab7sp25_shelnutt.Log.Install.{
  logs, Outside, Slots, Installed, install_from-Installed, disk-bwrite,
}

abbrev pub IsHome : ℕ → ℕ → ℕ → Type 0
IsHome start n x = (x < start) ⊎ (start + n < x)

-- The disk before the transaction is `old`, and `new` has the new contents of the logged blocks `bs`.
-- A disk on which nothing of it shows:
pub record Before (start n : ℕ) (old d : ℕ → Block) : Type 0 where
  pub head : header_blocks (d start) ≡ []
  pub home : (x : ℕ) → IsHome start n x → d x ≡ old x

-- A disk with the header and the slots of the transaction, which may be installed in part:
pub record During (start n : ℕ) (bs : List ℕ) (new old d : ℕ → Block) : Type 0 where
  pub head : header_blocks (d start) ≡ bs
  pub slots : Slots new d start 0 bs
  pub home : (x : ℕ) → IsHome start n x → logs bs x ≡ false → d x ≡ old x
  pub some_home : (x : ℕ) → IsHome start n x → logs bs x ≡ true → (d x ≡ old x) ⊎ (d x ≡ new x)

-- A disk with all of it in place:
pub record After (start n : ℕ) (bs : List ℕ) (new old d : ℕ → Block) : Type 0 where
  pub head : header_blocks (d start) ≡ []
  pub home : (x : ℕ) → IsHome start n x → d x ≡ (if logs bs x then new x else old x)

pub region-logs :
    (start n x : ℕ) (bs : List ℕ)
    → Outside start n bs
    → start ≤ x
    → x ≤ start + n
    → logs bs x ≡ false
region-logs start n x [] o lo hi = refl
region-logs start n x (b ∷ bs) o lo hi = ground (arith, o.0, region-logs start n x bs o.1 lo hi)

pub Slots-agree :
    (v d d' : ℕ → Block) (start n tail : ℕ) (bs : List ℕ)
    → tail + length bs ≤ n
    → ((x : ℕ) → start < x → x ≤ start + n → d' x ≡ d x)
    → Slots v d start tail bs
    → Slots v d' start tail bs
Slots-agree v d d' start n tail [] l e s = tt
Slots-agree v d d' start n tail (b ∷ bs) l e s = (
  e (start + tail + 1) (omega arith) (omega arith) ∙ s.0,
  Slots-agree v d d' start n (suc tail) bs (omega arith) e s.1,
)

pub header-nil : (w : Block) → header_blocks (header w []) ≡ []
header-nil [] = refl
header-nil (x ∷ w) = refl

pub home_ne : (start n x : ℕ) → IsHome start n x → (start == x) ≡ false
home_ne start n x h = ground arith

pub disk-write_head :
    (t : Log) (x : ℕ)
    → (write_head t).disk x ≡ (
        if t.power == 0
        then t.disk x
        else if t.start == x
        then header (t.cache t.start) t.logged
        else t.disk x)
unfolding write_head
disk-write_head t x = disk-bwrite t.start x (header (t.cache t.start) t.logged) t

-- Without power the disk stays as it is.
pub disk-stop : (t : Log) → t.power ≡ 0 → (write_head t).disk ≡ t.disk
disk-stop t e = fun_ext λ x. ground (arith, disk-write_head t x)

-- The last part of commit and of recovery, from the header on, which is written with an empty list.
module _ (new old : ℕ → Block) (n : ℕ) (s : Log) (o : Outside s.start n s.logged)
    (l : length s.logged ≤ n) (cached : Slots new s.cache s.start 0 s.logged)
    (d : During s.start n s.logged new old s.disk) where
  done : Log
  done = install_trans s

  installed : Installed new n s.logged s done
  unfolding done install_trans
  installed = install_from-Installed new n 0 s.logged s o (omega arith) cached

  -- Until the header is erased, the disk holds the transaction.
  still : During s.start n s.logged new old done.disk
  still = record {
    head =
        ap header_blocks (installed.others s.start (unlogged s.start (omega arith) (omega arith))).0
        ∙ d.head;
    slots =
        Slots-agree new s.disk done.disk s.start n 0 s.logged (omega arith)
          (λ x lo hi. (installed.others x (unlogged x (omega arith) hi)).0) d.slots;
    home = λ x h e. (installed.others x e).0 ∙ d.home x h e;
    some_home = λ x h e. ground (arith, installed.either x e, d.some_home x h e);
  }
    where
      unlogged : (x : ℕ) → s.start ≤ x → x ≤ s.start + n → logs s.logged x ≡ false
      unlogged x lo hi = region-logs s.start n x s.logged o lo hi

  -- If the power ends before the header is erased, recovery will find the transaction again.
  pub cut_short :
      s.power ≤ length s.logged
      → During s.start n s.logged new old (write_head (clear (install_trans s))).disk
  unfolding done
  cut_short h =
      let e = disk-stop (clear done) (omega (arith, installed.power)) in
      subst (During s.start n s.logged new old) (sym e) still

  -- If not, all of it is in place.
  pub goes_through :
      length s.logged < s.power
      → After s.start n s.logged new old (write_head (clear (install_trans s))).disk
  unfolding done
  goes_through h =
      let t = clear done in
      let on : (t.power == 0) ≡ false = ground (arith, installed.power) in
      record {
        head =
            let e = disk-write_head t s.start in
            rw (e, on) (ground (arith, installed.same.start, header-nil (t.cache t.start)));
        home = λ x y.
            let e = disk-write_head t x in
            ground (
              arith,
              e,
              on,
              installed.same.start,
              home_ne s.start n x y,
              installed.whole x,
              installed.others x,
              d.home x y,
            );
      }
