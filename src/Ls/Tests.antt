-- ===== src/Ls/Tests.antt =====
-- lab2/demls.c: the theorems on `ls` at concrete directories, and tests.
use operation_systems_mirea.Base.{
  ◌≡◌, refl, true, false, [], ◌∷◌, ◌++◌, none, some, arith, inl, inr, List, Bool, Bool-cases,
  Option, length, ltb, ◌+◌, if◌then◌else◌,
}
use operation_systems_mirea.Base.Text.{Bytes, codes, str_eq}
use operation_systems_mirea.Base.Decimal.{decimal, pad_left, pad_right}
use operation_systems_mirea.Ls.Format.{Kernel, Stat, permission_string, long_line}
use operation_systems_mirea.Ls.Collect.{Memory, dirent_compare, Sign, greater}
use operation_systems_mirea.Ls.Frees.{items}
use operation_systems_mirea.Ls.Listing.{main-Prints, main_missing, Prints, KeepsLength}
use operation_systems_mirea.Ls.Release.{Faulty, main-GivesBack}
use operation_systems_mirea.Ls.State.Clearing.{GivesBack}
use operation_systems_mirea.Ls.State.{exited, double_free, begun, cannot_collect}
use operation_systems_mirea.Ls.{Flags, main, letter_l, Sorter, Directory, read_options}

abbrev plain : Stat
plain = record { mode = 0o100755; nlink = 1; uid = 0; gid = 5; size = 42; mtime = 0 }

-- `gone` disappears between `readdir` and `lstat`.
abbrev kernel : Kernel
kernel = record {
  lstat = λ path. if str_eq path (codes "v/gone") then none else some plain;
  readlink = λ path. none;
  user_name = λ uid. some (codes "root");
  group_name = λ gid. none;
  time_text = λ t. codes "Jan 01 00:00";
}

abbrev short : Flags
short = record { all = false; long = false }

long_text :
    long_line kernel (codes "./a") (codes "a") plain
    ≡ codes "-rwxr-xr-x 1 root     5              42 Jan 01 00:00 "
      ++ 0x1b ∷ codes "[32ma"
      ++ 0x1b ∷ codes "[0m\n"
unfolding long_line decimal pad_left pad_right
long_text = refl

abbrev ample : Memory
ample = record { path_fits = true; array_fits = λ n. true; copy_fits = λ i. true }

is_greater : Sign → Bool
is_greater greater = true
is_greater _ = false

insert : (Bytes → Bytes → Sign) → Bytes → List Bytes → List Bytes
insert compare x [] = x ∷ []
insert compare x (y ∷ ys) =
    let rest = insert compare x ys in if is_greater (compare x y) then y ∷ rest else x ∷ y ∷ ys

sorted : Sorter
sorted compare [] = []
sorted compare (x ∷ xs) = insert compare x (sorted compare xs)

length-insert :
    (compare : Bytes → Bytes → Sign) (x : Bytes) (ys : List Bytes)
    → length (insert compare x ys) ≡ length ys + 1
unfolding insert
length-insert compare x [] = refl
length-insert compare x (y ∷ ys) = elim (Bool-cases (is_greater (compare x y))) [
  | inl e ↦ rw (e, insert) (omega (arith, length-insert compare x ys))
  | inr e ↦ rw (e, insert) (omega arith)
]

sorted-KeepsLength : KeepsLength sorted
unfolding sorted
sorted-KeepsLength [] = refl
sorted-KeepsLength (x ∷ xs) =
    omega (arith, length-insert dirent_compare x (sorted dirent_compare xs), sorted-KeepsLength xs)

abbrev shown_names : List Bytes
shown_names = codes "b" ∷ codes ".x" ∷ codes "A" ∷ []

abbrev vanishing : List Bytes
vanishing = codes "gone" ∷ codes "a" ∷ []

-- `.`, and a directory with a file that vanishes.
open_dir : Bytes → Option Directory
open_dir path =
    if str_eq path (codes ".")
    then some (record { names = shown_names; read_error = false })
    else if str_eq path (codes "v")
    then some (record { names = vanishing; read_error = false })
    else none

main-Prints_example :
    Prints
      (items kernel short (codes ".") (sorted dirent_compare shown_names) ++ 10 ∷ [])
      (main kernel ample open_dir sorted [] (codes "." ∷ []))
unfolding open_dir read_options sorted insert dirent_compare is_greater
main-Prints_example =
    main-Prints kernel ample open_dir sorted [] short (codes ".") shown_names sorted-KeepsLength
      (refl, (λ n. refl), (λ i. refl)) refl refl
      (inl refl, (inr (refl, (plain, refl)), (inr (refl, (plain, refl)), tt)))

main_missing_example : main kernel ample open_dir sorted [] (codes "v" ∷ []) ≡ double_free
unfolding open_dir read_options sorted insert dirent_compare is_greater
main_missing_example =
    main_missing kernel ample open_dir sorted [] short (codes "v") vanishing sorted-KeepsLength
      (refl, (λ n. refl), (λ i. refl)) refl refl (codes "a" ∷ []) [] (codes "gone") refl
      (inr (refl, (plain, refl)), tt) (refl, inl (refl, refl))

-- No room for the second copy.
abbrev scarce : Memory
scarce = record { path_fits = true; array_fits = λ n. true; copy_fits = λ i. ltb i 1 }

main-GivesBack_example :
    GivesBack
      (Faulty kernel open_dir sorted
        (codes "." ∷ [])
        (read_options (record { all = false; long = false }) (letter_l ∷ [])))
      (main kernel scarce open_dir sorted (letter_l ∷ []) (codes "." ∷ []))
main-GivesBack_example =
    main-GivesBack kernel scarce open_dir sorted sorted-KeepsLength (letter_l ∷ []) (codes "." ∷ [])

scarce_state :
    main kernel scarce open_dir sorted (letter_l ∷ []) (codes "." ∷ [])
    ≡ exited 1 []
        (some cannot_collect)
        (record begun { entry_count = 1; copies = 1; freed = 0 ∷ [] })
unfolding main open_dir
scarce_state = refl

permission_text : permission_string 0o100640 ≡ codes "rw-r-----"
unfolding permission_string
permission_text = refl
