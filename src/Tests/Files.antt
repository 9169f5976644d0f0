-- ===== src/Tests/Files.antt =====
-- A small directory.
use lab7sp25_shelnutt.Base.{◌==◌, if◌then◌else◌, ℕ, refl, true, false, List, [], ◌∷◌, replicate}
use lab7sp25_shelnutt.Fs.{Dirent, dirsiz, skipelem}
use lab7sp25_shelnutt.Fs.Paths.{NoNul, SkipEnds, skipelem_lem}
use lab7sp25_shelnutt.Fs.Inodes.{Inodes, Dinode, no_dinode, rootdev, rootino, t_dir, namex, ialloc}
use lab7sp25_shelnutt.Fs.Numbers.{NumberEnds, ialloc_lem}
use lab7sp25_shelnutt.Fs.Refs.{WalkEnds, refs, namex_lem}

abbrev sh_entry : Dirent
sh_entry = record { inum = 2; name = b's' ∷ b'h' ∷ replicate 12 0 }

abbrev unused : Dirent
unused = record { inum = 0; name = replicate dirsiz 0 }

abbrev root : List Dirent
root = sh_entry ∷ unused ∷ []

abbrev cat_name : List ℕ
cat_name = b'c' ∷ b'a' ∷ b't' ∷ []

-- //a//bb
abbrev path : List ℕ
path = b'/' ∷ b'/' ∷ b'a' ∷ b'/' ∷ b'/' ∷ b'b' ∷ b'b' ∷ []

path-NoNul : NoNul path
path-NoNul = (refl, (refl, (refl, (refl, (refl, (refl, (refl, tt)))))))

skipelem_lem_example : SkipEnds path (skipelem path (replicate dirsiz 0))
skipelem_lem_example = skipelem_lem path (replicate dirsiz 0) refl path-NoNul

abbrev root_inode : Dinode
root_inode = record { itype = t_dir; major = 0; minor = 0; nlink = 1; entries = root }

abbrev machine : Inodes
machine = record {
  cache =
      record { dev = rootdev; inum = rootino; ref = 1; valid = true; meta = root_inode }
      ∷ record { dev = 0; inum = 0; ref = 0; valid = false; meta = no_dinode }
      ∷ [];
  disk = λ d n. root_inode;
}

-- /sh
abbrev sh_path : List ℕ
sh_path = b'/' ∷ b's' ∷ b'h' ∷ []

namex_lem_example : WalkEnds (refs machine) (namex 0 sh_path false (replicate dirsiz 0) machine)
namex_lem_example =
    namex_lem 0 sh_path false (replicate dirsiz 0) machine refl (refl, (refl, (refl, tt)))

abbrev t_file : ℕ
t_file = 2

-- All inodes in use but number 3.
abbrev room_left : Inodes
room_left = record machine { disk = λ d n. if n == 3 then no_dinode else root_inode }

ialloc_lem_example : NumberEnds rootdev t_file 10 room_left (ialloc rootdev t_file 10 room_left)
ialloc_lem_example = ialloc_lem rootdev t_file 10 room_left
