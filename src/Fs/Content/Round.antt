-- ===== src/Fs/Content/Round.antt =====
-- A round of writei.
use lab7sp25_shelnutt.Base.{
  ℕ, ◌+◌, ◌-◌, ◌*◌, ◌/◌, ◌%◌, ◌≤◌, ◌<◌, ◌≡◌, ◌≢◌, refl, ap, ◌∙◌, sym, Bool, true, false, ◌&&◌, List,
  ◌==◌, ltb, leb, if◌then◌else◌, get_or, length, arith, ℕ_discrete, Bool-cases, inl, inr, subst,
}
use lab7sp25_shelnutt.Fs.{bsize}
use lab7sp25_shelnutt.Fs.Bitmap.{Superblock, Disk, bblock, write_block}
use lab7sp25_shelnutt.Fs.Content.{Content, put_bytes}
use lab7sp25_shelnutt.Fs.Content.Blocks.{Use, elsewhere, IsFile}
use lab7sp25_shelnutt.Fs.Content.View.{
  block_of, data_of, data_of-block, use_of-elsewhere, block_sized, byte_of,
}
use lab7sp25_shelnutt.Fs.Content.Given.{BlockGiven, Spent}
use lab7sp25_shelnutt.Fs.Content.Bytes.{
  length-put_bytes, put_bytes-before, put_bytes-behind, put_bytes-in,
}
use lab7sp25_shelnutt.Fs.Content.Store.{
  stored, stored_other, stored_free, stored-here, stored-there, stored-IsFile,
}

-- The bytes of the block n from `from` on are those of xs.
abbrev pub block_with : ℕ → ℕ → ℕ → List ℕ → ℕ → ℕ → ℕ
block_with n from m xs old x =
    if (x / bsize == n) && (leb from (x % bsize) && ltb (x % bsize) (from + m))
    then get_or xs (x % bsize - from) 0
    else old

-- The bytes from the offset `off` on are those of xs.
abbrev pub bytes_with : ℕ → List ℕ → ℕ → ℕ → ℕ
bytes_with off xs old x =
    if leb off x && ltb x (off + length xs) then get_or xs (x - off) 0 else old

pub if_true : {t : Bool} (a b : ℕ) → t ≡ true → (if t then a else b) ≡ a
if_true a b h = rw h refl

pub if_false : {t : Bool} (a b : ℕ) → t ≡ false → (if t then a else b) ≡ b
if_false a b h = rw h refl

-- What a round leaves.
pub record Round (sb : Superblock) (n from m : ℕ) (xs : List ℕ) (ip ip' : Content)
    (disk disk' : Disk) (uses uses' : ℕ → Use) : Type 0 where
  pub file : IsFile sb disk' ip' uses'
  pub size : ip'.size ≡ ip.size
  pub bytes :
      (x : ℕ) → x < 140 * bsize → byte_of ip' disk' x ≡ block_with n from m xs (byte_of ip disk x) x
  pub others :
      (q : ℕ) → uses q ≡ elsewhere → ((j : ℕ) → j < sb.size → q ≢ bblock j sb) → disk' q ≡ disk q
  pub roles : (q : ℕ) → uses q ≡ elsewhere → uses' q ≡ elsewhere
  pub spent : Spent sb disk disk' 2

module _ (sb : Superblock) (n b : ℕ) (ip ip' : Content) (disk disk1 : Disk) (uses uses' : ℕ → Use)
    (g : BlockGiven sb n b ip ip' disk disk1 uses uses') (l : n < 140) (some_block : 0 < sb.size)
    (from m : ℕ) (xs : List ℕ) (fits : from + m ≤ bsize) (all : m ≤ length xs) where
  abbrev bl : ℕ
  bl = block_of ip' disk1 n

  there : bl ≢ 0
  there h = g.nonzero (sym g.here ∙ h)

  abbrev d : List ℕ
  d = put_bytes (disk1 bl) from m xs

  old_size : length (disk1 bl) ≡ bsize
  old_size = block_sized sb disk1 ip' uses' g.file n l there

  size : length d ≡ bsize
  size = length-put_bytes (disk1 bl) from m xs ∙ old_size

  was : disk1 bl ≡ data_of ip disk n
  was = sym (data_of-block ip' disk1 n there) ∙ g.holds n l

  -- A byte of the block.
  in_block :
      (j : ℕ)
      → get_or d j 0 ≡ (
          if leb from j && ltb j (from + m)
          then get_or xs (j - from) 0
          else get_or (data_of ip disk n) j 0)
  in_block j = elim (Bool-cases (leb from j && ltb j (from + m))) [
    | inl y ↦
        let lo : from ≤ j = ground arith in
        let hi : j < from + m = ground arith in
        let e : from + (j - from) ≡ j = omega (arith, lo) in
        ap (λ i. get_or d i 0) (sym e)
        ∙ put_bytes-in (disk1 bl) from m xs (j - from) (omega (arith, lo, hi)) all
            (omega (arith, old_size, fits))
        ∙ sym (if_true _ _ y)
    | inr z ↦ elim (Bool-cases (ltb j from)) [
      | inl c ↦
          put_bytes-before (disk1 bl) from m xs j (ground arith)
          ∙ ap (λ w. get_or w j 0) was
          ∙ sym (if_false _ _ z)
      | inr c ↦
          put_bytes-behind (disk1 bl) from m xs j (ground arith)
          ∙ ap (λ w. get_or w j 0) was
          ∙ sym (if_false _ _ z)
    ]
  ]

  abbrev disk2 : Disk
  disk2 = stored sb ip' disk1 uses' g.file n l there d size

  round_bytes :
      (x : ℕ) → x < 140 * bsize → byte_of ip' disk2 x ≡ block_with n from m xs (byte_of ip disk x) x
  round_bytes x a = elim (ℕ_discrete (x / bsize) n) [
    | yes e ↦
        let c : (x / bsize == n) ≡ true = ground (arith, e) in
        ap (λ k. get_or (data_of ip' disk2 k) (x % bsize) 0) e
        ∙ ap (λ w. get_or w (x % bsize) 0) (stored-here sb ip' disk1 uses' g.file n l there d size)
        ∙ in_block (x % bsize)
        ∙ rw c (
            ap
              (λ k.
                if leb from (x % bsize) && ltb (x % bsize) (from + m)
                then get_or xs (x % bsize - from) 0
                else get_or (data_of ip disk k) (x % bsize) 0)
              (sym e))
    | no e ↦
        let c : (x / bsize == n) ≡ false = ground (arith, e) in
        ap (λ w. get_or w (x % bsize) 0)
          (stored-there sb ip' disk1 uses' g.file n l there d size (x / bsize) (omega arith) e
            ∙ g.holds (x / bsize) (omega arith))
        ∙ rw c refl
  ]

  here-Round : Round sb n from m xs ip ip' disk disk2 uses uses'
  here-Round = record {
    file = stored-IsFile sb ip' disk1 uses' g.file n l there d size some_block;
    size = g.size;
    bytes = round_bytes;
    others = λ q h k.
        stored_other sb ip' disk1 uses' g.file n l there d size q (g.roles q h)
          (λ x. use_of-elsewhere n (sym x))
        ∙ g.others q h k;
    roles = g.roles;
    spent =
        let (bs, few, same) = g.spent in
        (bs, few, λ j k c. stored_free sb ip' disk1 uses' g.file n l there d size j k ∙ same j k c);
  }

  pub round_lem :
      Round sb n from m xs ip ip' disk
        (write_block b (put_bytes (disk1 b) from m xs) disk1)
        uses
        uses'
  round_lem =
      subst
        (λ c.
          Round sb n from m xs ip ip' disk (write_block c (put_bytes (disk1 c) from m xs) disk1)
            uses uses')
        g.here here-Round
