-- ===== src/Lines.antt =====
-- lab1/demcat.c and lab1/demgrep.c: the loop `while (fgets(buffer, 4096, file))`, as the list of
-- the texts that it puts into the buffer.
pub mod Laws
use operation_systems_mirea.Base.{ℕ, zero, suc, ◌-◌, List, [], ◌∷◌, ◌==◌, if◌then◌else◌, length}
use operation_systems_mirea.Base.Text.{Bytes}

-- MAX_BUFFER_SIZE and MAX_INPUT_SIZE
abbrev pub buffer_size : ℕ
buffer_size = 4096

abbrev pub newline : ℕ
newline = 10

-- At most `k` bytes, up to the first newline, and what is left of the file.
abbrev pub fgets : ℕ → Bytes → Bytes × Bytes
fgets zero s = ([], s)
fgets (suc k) [] = ([], [])
fgets (suc k) (c ∷ s) =
    let (line, rest) = fgets k s in if c == newline then (c ∷ [], s) else (c ∷ line, rest)

-- The texts until the end of the file, in `fuel` rounds at most; `k` bytes fit the buffer.
abbrev pub chunks : ℕ → ℕ → Bytes → List Bytes
chunks zero k s = []
chunks (suc fuel) k [] = []
chunks (suc fuel) k (c ∷ s) = let (line, rest) = fgets k (c ∷ s) in line ∷ chunks fuel k rest

-- A round takes one byte at least, so the length of the file is enough.
unfoldable pub read_lines : Bytes → List Bytes
read_lines s = chunks (length s) (buffer_size - 1) s
