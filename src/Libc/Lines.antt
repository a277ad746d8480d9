-- ===== src/Libc/Lines.antt =====
-- `fgets` in a loop until the end of the file.
use cellmgr.Base.{ℕ, ◌-◌, ◌||◌, List, [], ◌∷◌, ◌++◌, leb, ◌==◌, if◌then◌else◌, Bytes}

-- The lines with their newline, in pieces of `width` bytes at most: the array has one byte more.
-- `room` is what the array still takes, and `cur` what was read into it.
unfoldable pub fgets_lines : ℕ → ℕ → Bytes → Bytes → List Bytes
fgets_lines width room [] [] = []
fgets_lines width room (x ∷ cur) [] = (x ∷ cur) ∷ []
fgets_lines width room cur (c ∷ s) =
    let line = cur ++ c ∷ [] in
    let full = line ∷ fgets_lines width width [] s in
    let more = fgets_lines width (room - 1) line s in if c == 10 || leb room 1 then full else more
