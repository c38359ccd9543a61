-- ===== src/Ls/Format.antt =====
-- lab2/demls.c: the text of one entry, as `printEntry` writes it.
use operation_systems_mirea.Base.{
  ℕ, Bool, not, List, [], ◌∷◌, ◌++◌, Option, none, some, ◌==◌, if◌then◌else◌, bit_and,
}
use operation_systems_mirea.Base.Text.{Bytes, codes}
use operation_systems_mirea.Base.Decimal.{decimal, pad_left, pad_right}

-- `struct stat`, as far as it is used
pub record Stat : Type 0 where
  pub mode : ℕ
  pub nlink : ℕ
  pub uid : ℕ
  pub gid : ℕ
  pub size : ℕ
  pub mtime : ℕ

pub data FileColor : Type 0 where
  col_file col_dir col_exec col_ln : FileColor

-- FILE_TYPE_COLORS
abbrev pub color_code : FileColor → ℕ
color_code col_file = 39
color_code col_dir = 34
color_code col_exec = 32
color_code col_ln = 36

-- The file's type, `st_mode & S_IFMT`.
abbrev pub file_type : ℕ → ℕ
file_type mode = bit_and mode 0o170000

abbrev pub is_reg : ℕ → Bool
is_reg mode = file_type mode == 0o100000

abbrev pub is_dir : ℕ → Bool
is_dir mode = file_type mode == 0o040000

abbrev pub is_chr : ℕ → Bool
is_chr mode = file_type mode == 0o020000

abbrev pub is_blk : ℕ → Bool
is_blk mode = file_type mode == 0o060000

abbrev pub is_fifo : ℕ → Bool
is_fifo mode = file_type mode == 0o010000

abbrev pub is_lnk : ℕ → Bool
is_lnk mode = file_type mode == 0o120000

abbrev pub is_sock : ℕ → Bool
is_sock mode = file_type mode == 0o140000

abbrev pub has_bits : ℕ → ℕ → Bool
has_bits mode mask = not (bit_and mode mask == 0)

abbrev pub is_executable : ℕ → Bool
is_executable mode = has_bits mode 0o111

-- The letter and the color of the long format.
unfoldable pub long_type : ℕ → ℕ × FileColor
long_type mode =
    if is_reg mode
    then (b'-', if is_executable mode then col_exec else col_file)
    else if is_dir mode
    then (b'd', col_dir)
    else if is_chr mode
    then (b'c', col_file)
    else if is_blk mode
    then (b'b', col_file)
    else if is_fifo mode
    then (b'p', col_file)
    else if is_lnk mode
    then (b'l', col_ln)
    else if is_sock mode
    then (b's', col_file)
    else (b'?', col_file)

-- The color of the short format.
unfoldable pub short_color : ℕ → FileColor
short_color mode =
    if is_dir mode
    then col_dir
    else if is_lnk mode
    then col_ln
    else if is_executable mode
    then col_exec
    else col_file

-- The loop over the nine permissions, with PERMISSION_CHARS.
abbrev pub permissions : List (ℕ × ℕ)
permissions =
    (0o400, b'r')
    ∷ (0o200, b'w')
    ∷ (0o100, b'x')
    ∷ (0o040, b'r')
    ∷ (0o020, b'w')
    ∷ (0o010, b'x')
    ∷ (0o004, b'r')
    ∷ (0o002, b'w')
    ∷ (0o001, b'x')
    ∷ []

abbrev pub show_permissions : ℕ → List (ℕ × ℕ) → Bytes
show_permissions mode [] = []
show_permissions mode ((mask, letter) ∷ more) =
    (if has_bits mode mask then letter else b'-') ∷ show_permissions mode more

unfoldable pub permission_string : ℕ → Bytes
permission_string mode = show_permissions mode permissions

-- What the system answers about files, users, groups and times.
pub record Kernel : Type 0 where
  pub lstat : Bytes → Option Stat
  pub readlink : Bytes → Option Bytes
  pub user_name : ℕ → Option Bytes
  pub group_name : ℕ → Option Bytes
  pub time_text : ℕ → Bytes

abbrev pub or_number : Option Bytes → ℕ → Bytes
or_number none n = pad_right 8 (decimal n)
or_number (some name) n = pad_right 8 name

abbrev pub space : Bytes
space = b' ' ∷ []

abbrev pub escape : Bytes
escape = 0x1b ∷ b'[' ∷ []

abbrev pub colored : FileColor → Bytes → Bytes
colored c text =
    escape ++ (decimal (color_code c) ++ (codes "m" ++ (text ++ (escape ++ codes "0m"))))

abbrev pub arrow : Option Bytes → Bytes
arrow none = []
arrow (some target) = codes " -> " ++ target

unfoldable pub long_line : Kernel → Bytes → Bytes → Stat → Bytes
unfolding long_type permission_string
long_line k path name st =
    let (letter, color) = long_type st.mode in
    letter
    ∷ (permission_string st.mode
        ++ (space
            ++ (decimal st.nlink
                ++ (space
                    ++ (or_number (k.user_name st.uid) st.uid
                        ++ (space
                            ++ (or_number (k.group_name st.gid) st.gid
                                ++ (space
                                    ++ (pad_left 8 (decimal st.size)
                                        ++ (space
                                            ++ (k.time_text st.mtime
                                                ++ (space
                                                    ++ (colored color name
                                                        ++ ((if is_lnk st.mode
                                                            then arrow (k.readlink path)
                                                            else [])
                                                            ++ 10 ∷ []))))))))))))))

unfoldable pub short_item : Bytes → Stat → Bytes
unfolding short_color
short_item name st = colored (short_color st.mode) (pad_right 20 name)
