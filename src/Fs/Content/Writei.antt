-- ===== src/Fs/Content/Writei.antt =====
-- writei, with its guards and the size of the file.
use lab7sp25_shelnutt.Base.{
  ℕ, suc, ◌+◌, ◌*◌, ◌^◌, ◌≤◌, ◌<◌, ◌≡◌, ◌≢◌, refl, sym, true, false, ◌&&◌, List, ltb, max,
  if◌then◌else◌, length, arith, Bool-cases, inl, inr, subst, Option, none, some, Option-cases,
  add32, ◌⊎◌, ◌==◌,
}
use lab7sp25_shelnutt.Fs.{bsize, maxfile}
use lab7sp25_shelnutt.Fs.Bitmap.{Superblock, Disk, bblock}
use lab7sp25_shelnutt.Fs.Content.{
  Content, write_from, writei, WriteFile, not_written, written, write_panic,
}
use lab7sp25_shelnutt.Fs.Content.Blocks.{Use, elsewhere, IsFile}
use lab7sp25_shelnutt.Fs.Content.View.{byte_of}
use lab7sp25_shelnutt.Fs.Content.Round.{bytes_with}
use lab7sp25_shelnutt.Fs.Content.Write.{Few, rounds, LoopEnds, fill_from, fill_from_lem}
use lab7sp25_shelnutt.Fs.Content.Logged.{Logged, write_from-Logged}

-- The size is no matter for the blocks.
sized-IsFile :
    (sb : Superblock) (disk : Disk) (ip : Content) (uses : ℕ → Use) (n : ℕ)
    → IsFile sb disk ip uses
    → IsFile sb disk (record ip { size = n }) uses
sized-IsFile sb disk ip uses n v = record {
  map = v.map;
  in_range = v.in_range;
  map_use = v.map_use;
  free_use = v.free_use;
  zero_used = v.zero_used;
  small = v.small;
  all_slots = v.all_slots;
  slots = v.slots;
  slots_sized = v.slots_sized;
  cells = v.cells;
  cells_sized = v.cells_sized;
}

-- The file after a write.
pub record Stored (sb : Superblock) (off : ℕ) (xs : List ℕ) (ip ip' : Content) (disk disk' : Disk)
    (uses uses' : ℕ → Use) : Type 0 where
  pub file : IsFile sb disk' ip' uses'
  pub size : ip'.size ≡ max ip.size (off + length xs)
  pub bytes :
      (x : ℕ) → x < maxfile * bsize → byte_of ip' disk' x ≡ bytes_with off xs (byte_of ip disk x) x
  pub others :
      (q : ℕ) → uses q ≡ elsewhere → ((j : ℕ) → j < sb.size → q ≢ bblock j sb) → disk' q ≡ disk q

module _ (sb : Superblock) (ip : Content) (disk : Disk) (uses : ℕ → Use) (some_block : 0 < sb.size)
    (v : IsFile sb disk ip uses) (room off : ℕ) (xs : List ℕ) where
  abbrev pub WriteiEnds : WriteFile → Type 0
  WriteiEnds not_written = (ip.size < off) ⊎ (maxfile * bsize < off + length xs)
  WriteiEnds write_panic =
      Few sb disk (2 * rounds off (length xs)) ⊎ (room < 6 * rounds off (length xs) + 1)
  WriteiEnds (written n ip' disk') =
      (n ≡ length xs)
      × (rounds off (length xs) + (if ltb ip.size (off + length xs) then 1 else 0) ≤ room)
      × (uses' : ℕ → Use) × Stored sb off xs ip ip' disk disk' uses uses'

  -- After the loop.
  abbrev finish : Option (ℕ × Content × Disk × ℕ) → WriteFile
  finish none = write_panic
  finish (some (off', ip', disk', left)) =
      if ltb 0 (length xs) && ltb ip'.size off'
      then if left == 0 then write_panic else written (length xs) (record ip' { size = off' }) disk'
      else written (length xs) ip' disk'

  finish_ends :
      off ≤ ip.size
      → (q : Option (ℕ × Content × Disk × ℕ)) (r : Option (ℕ × Content × Disk))
      → Logged room (rounds off (length xs)) r q
      → LoopEnds sb some_block off xs ip disk uses r
      → WriteiEnds (finish q)
  finish_ends l none r (inl e) ends =
      inl (subst (LoopEnds sb some_block off xs ip disk uses) e ends)
  finish_ends l none r (inr h) ends = inr (omega arith)
  finish_ends l (some (off', ip', disk', left)) r (same, most, least) ends =
      let (e, uses', w) = subst (LoopEnds sb some_block off xs ip disk uses) same ends in
      let size = w.size in
      elim (Bool-cases (ltb 0 (length xs) && ltb ip'.size off')) [
        | inl y ↦ elim (Bool-cases (left == 0)) [
          | inl z ↦ rw (y, z) (inr (ground arith))
          | inr z ↦
              rw (y, z)
                (
                  refl,
                  ground (arith, e, size, least),
                  uses',
                  record {
                    file = sized-IsFile sb disk' ip' uses' off' w.file;
                    size = ground (arith, e, size);
                    bytes = w.bytes;
                    others = w.others;
                  },
                )
        ]
        | inr z ↦ rw z (
          refl,
          ground (arith, e, size, least),
          uses',
          record {
            file = w.file;
            size = ground (arith, e, size);
            bytes = w.bytes;
            others = w.others;
          },
        )
      ]

  writei-finish :
      off ≤ ip.size
      → off + length xs ≤ maxfile * bsize
      → writei sb room off xs ip disk ≡ finish (write_from sb (suc (length xs)) room off xs ip disk)
  unfolding writei
  writei-finish l m =
      let a : ltb ip.size off ≡ false = ground arith in
      let b : add32 off (length xs) ≡ off + length xs = omega arith in
      let c : ltb (off + length xs) off ≡ false = ground arith in
      let d : ltb (maxfile * bsize) (off + length xs) ≡ false = ground arith in
      elim (Option-cases (write_from sb (suc (length xs)) room off xs ip disk)) [
        | inl e ↦ rw (a, b, c, d, e) refl
        | inr ((off', ip', disk', left), e) ↦ rw (a, b, c, d, e) refl
      ]

  refused_start : ltb ip.size off ≡ true → writei sb room off xs ip disk ≡ not_written
  unfolding writei
  refused_start y = rw y refl

  refused_end :
      off + length xs < 2 ^ 32
      → ltb ip.size off ≡ false
      → ltb (maxfile * bsize) (off + length xs) ≡ true
      → writei sb room off xs ip disk ≡ not_written
  unfolding writei
  refused_end fits z y =
      let b : add32 off (length xs) ≡ off + length xs = omega arith in
      let c : ltb (off + length xs) off ≡ false = ground arith in rw (z, b, c, y) refl

  -- writei on a well-formed inode, for a range below 2^32, when the log takes `room` calls of
  -- log_write before one of them panics. It returns -1 only where the range starts beyond the file or
  -- ends beyond MAXFILE blocks. It panics only where at most two blocks are free for each block of the
  -- range, or where the log does not take six calls for each block of the range and one more. Else it
  -- returns the number of the bytes, and has made a call of log_write for each block of the range, and
  -- one where the file grew: the bytes are at their offsets, every other byte of the file is as
  -- before, the size is the end of the range where that is beyond it, the inode is well-formed, and
  -- blocks of others are unchanged.
  pub writei_lem : off + length xs < 2 ^ 32 → WriteiEnds (writei sb room off xs ip disk)
  writei_lem fits = elim (Bool-cases (ltb ip.size off)) [
    | inl y ↦ subst WriteiEnds (sym (refused_start y)) (inl (ground arith))
    | inr z ↦ elim (Bool-cases (ltb (maxfile * bsize) (off + length xs))) [
      | inl y ↦ subst WriteiEnds (sym (refused_end fits z y)) (inr (ground arith))
      | inr w ↦
          let m : off + length xs ≤ maxfile * bsize = ground arith in
          let fuel = suc (length xs) in
          subst WriteiEnds (sym (writei-finish (ground arith) m)) (
            finish_ends (ground arith) (write_from sb fuel room off xs ip disk)
              (fill_from sb fuel off xs ip disk) (write_from-Logged sb fuel room off xs ip disk m)
              (fill_from_lem sb some_block fuel off xs ip disk uses v (omega arith) m))
    ]
  ]
