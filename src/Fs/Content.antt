-- ===== src/Fs/Content.antt =====
-- fs.c: the contents of files. An inode in memory is its addrs and its size here, and `disk` is what
-- bread returns, as in Fs/Bitmap.
pub mod Words
pub mod Blocks
pub mod Slots
pub mod View
pub mod Steps
pub mod Given
pub mod Bmap
pub mod Bytes
pub mod Store
pub mod Round
pub mod Ranges
pub mod Write
pub mod Logged
pub mod Writei
pub mod Read
pub mod Readi
use lab7sp25_shelnutt.Base.{
  ℕ, zero, suc, ◌+◌, ◌-◌, ◌*◌, ◌/◌, ◌%◌, ◌^◌, Bool, true, false, ◌&&◌, ◌||◌, not, Option, none,
  some, List, [], ◌∷◌, ◌==◌, ltb, leb, if◌then◌else◌, get_or, set, add32, length, take, drop, min,
  ◌++◌,
}
use lab7sp25_shelnutt.Fs.{bsize, maxfile}
use lab7sp25_shelnutt.Fs.Bitmap.{Superblock, Disk, write_block, balloc}

abbrev pub ndirect : ℕ
ndirect = 12

-- BSIZE / sizeof(uint)
abbrev pub nindirect : ℕ
nindirect = 128

pub record Content : Type 0 where
  pub addrs : List ℕ
  pub size : ℕ

-- a[i] where `a` is the data of a block as uints.
unfoldable pub word : List ℕ → ℕ → ℕ
word d i =
    get_or d (4 * i) 0
    + 2 ^ 8 * get_or d (4 * i + 1) 0
    + 2 ^ 16 * get_or d (4 * i + 2) 0
    + 2 ^ 24 * get_or d (4 * i + 3) 0

-- a[i] = v
unfoldable pub set_word : List ℕ → ℕ → ℕ → List ℕ
set_word d i v =
    let d1 = set d (4 * i) (v % 2 ^ 8) in
    let d2 = set d1 (4 * i + 1) (v / 2 ^ 8 % 2 ^ 8) in
    let d3 = set d2 (4 * i + 2) (v / 2 ^ 16 % 2 ^ 8) in set d3 (4 * i + 3) (v / 2 ^ 24 % 2 ^ 8)

-- The block of ip->addrs[i], which is allocated where there is none; `none` is the panic of balloc.
unfoldable pub slot_block : Superblock → ℕ → Content → Disk → Option (ℕ × Content × Disk)
slot_block sb i ip disk = elim (get_or ip.addrs i 0 == 0) [
  | false ↦ some (get_or ip.addrs i 0, ip, disk)
  | true ↦ elim (balloc sb disk) [
    | none ↦ none
    | some (addr, disk') ↦ some (addr, record ip { addrs = set ip.addrs i addr }, disk')
  ]
]

-- The block of a[j] in the indirect block `addr`.
unfoldable pub word_block : Superblock → ℕ → ℕ → Content → Disk → Option (ℕ × Content × Disk)
word_block sb addr j ip disk = elim (word (disk addr) j == 0) [
  | false ↦ some (word (disk addr) j, ip, disk)
  | true ↦ elim (balloc sb disk) [
    | none ↦ none
    | some (b, disk') ↦ some (b, ip, write_block addr (set_word (disk' addr) j b) disk')
  ]
]

-- bmap; `none` is a panic.
unfoldable pub bmap : Superblock → ℕ → Content → Disk → Option (ℕ × Content × Disk)
unfolding slot_block word_block
bmap sb bn ip disk =
    if ltb bn ndirect
    then slot_block sb bn ip disk
    else if ltb (bn - ndirect) nindirect
    then elim (slot_block sb ndirect ip disk) [
      | none ↦ none
      | some (addr, ip', disk') ↦ word_block sb addr (bn - ndirect) ip' disk'
    ]
    else none

-- memmove of the first m bytes of `xs` to the place `from` of a block.
unfoldable pub put_bytes : List ℕ → ℕ → ℕ → List ℕ → List ℕ
put_bytes d from zero xs = d
put_bytes d from (suc m) [] = d
put_bytes d from (suc m) (x ∷ xs) = put_bytes (set d from x) (suc from) m xs

-- The loop of readi, with `fuel` rounds, `n` bytes to go.
unfoldable pub read_from :
    Superblock → ℕ → ℕ → ℕ → Content → Disk → Option (List ℕ × Content × Disk)
read_from sb zero off n ip disk = none
read_from sb (suc fuel) off n ip disk = elim (n == 0) [
  | true ↦ some ([], ip, disk)
  | false ↦ elim (bmap sb (off / bsize) ip disk) [
    | none ↦ none
    | some (b, ip', disk') ↦
        let m = min n (bsize - off % bsize) in
        elim (read_from sb fuel (add32 off m) (n - m) ip' disk') [
          | none ↦ none
          | some (rest, ip2, disk2) ↦
              some (take m (drop (off % bsize) (disk' b)) ++ rest, ip2, disk2)
        ]
  ]
]

-- How readi and writei of a file end: with -1, or with their bytes; a device has its own functions.
pub data ReadFile : Type 0 where
  refused : ReadFile
  bytes : List ℕ → Content → Disk → ReadFile
  panicked : ReadFile

unfoldable pub read_bytes : Superblock → ℕ → ℕ → Content → Disk → ReadFile
unfolding read_from
read_bytes sb off n ip disk = elim (read_from sb (suc n) off n ip disk) [
  | none ↦ panicked
  | some (xs, ip', disk') ↦ bytes xs ip' disk'
]

unfoldable pub readi : Superblock → ℕ → ℕ → Content → Disk → ReadFile
unfolding read_bytes
readi sb off n ip disk =
    let n' = if ltb ip.size (add32 off n) then ip.size - off else n in
    if ltb ip.size off || ltb (add32 off n) off then refused else read_bytes sb off n' ip disk

-- The calls of log_write that bmap makes: two for each block that balloc gives it, in balloc and in
-- bzero, and one for a cell that it sets in the indirect block.
abbrev pub slot_calls : ℕ → Content → ℕ
slot_calls i ip = if get_or ip.addrs i 0 == 0 then 2 else 0

abbrev pub word_calls : ℕ → ℕ → Disk → ℕ
word_calls addr j disk = if word (disk addr) j == 0 then 3 else 0

abbrev pub indirect_calls : ℕ → Option (ℕ × Content × Disk) → ℕ
indirect_calls j none = 0
indirect_calls j (some (addr, ip', disk')) = word_calls addr j disk'

unfoldable pub bmap_calls : Superblock → ℕ → Content → Disk → ℕ
unfolding slot_block word
bmap_calls sb bn ip disk =
    if ltb bn ndirect
    then slot_calls bn ip
    else slot_calls ndirect ip + indirect_calls (bn - ndirect) (slot_block sb ndirect ip disk)

-- The loop of writei, with `fuel` rounds, when the log takes `room` calls of log_write before one of
-- them panics: the offset where it ends, and how many calls the log takes then.
unfoldable pub write_from :
    Superblock → ℕ → ℕ → ℕ → List ℕ → Content → Disk → Option (ℕ × Content × Disk × ℕ)
unfolding put_bytes bmap bmap_calls
write_from sb zero room off src ip disk = none
write_from sb (suc fuel) room off [] ip disk = some (off, ip, disk, room)
write_from sb (suc fuel) room off (x ∷ xs) ip disk = elim (bmap sb (off / bsize) ip disk) [
  | none ↦ none
  | some (b, ip', disk') ↦
      let m = min (length (x ∷ xs)) (bsize - off % bsize) in
      let calls = bmap_calls sb (off / bsize) ip disk + 1 in
      let rest =
        write_from sb fuel (room - calls) (add32 off m) (drop m (x ∷ xs)) ip'
          (write_block b (put_bytes (disk' b) (off % bsize) m (x ∷ xs)) disk') in
      if ltb room calls then none else rest
]

pub data WriteFile : Type 0 where
  not_written : WriteFile
  written : ℕ → Content → Disk → WriteFile
  write_panic : WriteFile

-- writei of the bytes `src`. iupdate makes a call of log_write, too.
unfoldable pub writei : Superblock → ℕ → ℕ → List ℕ → Content → Disk → WriteFile
unfolding write_from
writei sb room off src ip disk =
    let n = length src in
    let run = elim (write_from sb (suc n) room off src ip disk) as (λ _. WriteFile) [
      | none ↦ write_panic
      | some (off', ip', disk', left) ↦
          if ltb 0 n && ltb ip'.size off'
          then if left == 0 then write_panic else written n (record ip' { size = off' }) disk'
          else written n ip' disk'
    ] in
    if ltb ip.size off || ltb (add32 off n) off
    then not_written
    else if ltb (maxfile * bsize) (add32 off n)
    then not_written
    else run
