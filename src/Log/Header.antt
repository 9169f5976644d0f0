-- ===== src/Log/Header.antt =====
-- The header block of the log: writing block numbers and reading them back.
use lab7sp25_shelnutt.Base.{ℕ, suc, ◌<◌, ◌≤◌, ◌≡◌, refl, ap, List, [], ◌∷◌, arith, length, take}
use lab7sp25_shelnutt.Log.{Block, overwrite, header, header_blocks}

take-overwrite : (ws bs : List ℕ) → length bs ≤ length ws → take (length bs) (overwrite ws bs) ≡ bs
take-overwrite [] [] h = refl
take-overwrite [] (b ∷ bs) h = absurd (omega arith)
take-overwrite (w ∷ ws) [] h = refl
take-overwrite (w ∷ ws) (b ∷ bs) h = ap (λ xs. b ∷ xs) (take-overwrite ws bs (omega arith))

-- What write_head puts into a block that has room, read_head gets back.
pub header_blocks-header :
    (v : Block) (bs : List ℕ) → length bs < length v → header_blocks (header v bs) ≡ bs
header_blocks-header [] bs h = absurd (omega arith)
header_blocks-header (w ∷ ws) bs h = take-overwrite ws bs (omega arith)

length-overwrite : (ws bs : List ℕ) → length (overwrite ws bs) ≡ length ws
length-overwrite [] bs = refl
length-overwrite (w ∷ ws) [] = refl
length-overwrite (w ∷ ws) (b ∷ bs) = ap suc (length-overwrite ws bs)

pub length-header : (v : Block) (bs : List ℕ) → length (header v bs) ≡ length v
length-header [] bs = refl
length-header (w ∷ ws) bs = ap suc (length-overwrite ws bs)
