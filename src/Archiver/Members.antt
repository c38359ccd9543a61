-- ===== src/Archiver/Members.antt =====
-- lab5/archiver.c: an archive as the list of its members, and the bytes that stand for it.
use operation_systems_mirea.Base.{
  All, ℕ, zero, suc, ◌+◌, ◌-◌, min, ◌≡◌, ◌≢◌, ◌≤◌, refl, sym, ap, ◌∙◌, false, List, [], ◌∷◌, ◌++◌,
  append-nil, append_assoc, Option, none, some, arith, length, take, drop, length-take,
  take-length-append, drop-length-append, Bool-cases, inl, inr, ==-refl,
}
use native.Mathlib.Nat.{zero-add, suc-add}
use operation_systems_mirea.Base.Text.{Bytes, str_eq, str_eq_iff}
use operation_systems_mirea.Archiver.Files.{
  Kernel, Disk, File, put, contents_of, write_at, append, overwrite,
}
use operation_systems_mirea.Archiver.Entry.{Layout, IsLawful, ArchiveEntry, read_entry}

abbrev pub Member : Type 0
Member = ArchiveEntry × Bytes

unfoldable pub serialize : Layout → List Member → Bytes
serialize l [] = []
serialize l ((e, contents) ∷ ms) = l.encode e ++ (contents ++ serialize l ms)

-- The header tells the size of the data, and its fields fit.
abbrev pub AreValid : (ArchiveEntry → Type 0) → List Member → Type 0
AreValid Valid = All (λ m. Valid m.0 × (m.0.size ≡ length m.1))

pub serialize-append :
    (l : Layout) (ms ns : List Member) → serialize l (ms ++ ns) ≡ serialize l ms ++ serialize l ns
unfolding serialize
serialize-append l [] ns = refl
serialize-append l ((e, c) ∷ ms) ns = simp (serialize-append l ms ns, append_assoc)

pub put_self : (d : Disk) (name : Bytes) (f : Option File) → put d name f name ≡ f
unfolding put
put_self d name f = rw ((str_eq_iff name name).1 refl)

pub put-other :
    (d : Disk) (name other : Bytes) (f : Option File) → other ≢ name → put d name f other ≡ d other
unfolding put
put-other d name other f h = elim (Bool-cases (str_eq name other)) [
  | inl e ↦ absurd (h (sym ((str_eq_iff name other).0 e)))
  | inr e ↦ rw e
]

take_all {ℓ} : {A : Type ℓ} (xs : List A) → take (length xs) xs ≡ xs
take_all [] = refl
take_all (x ∷ xs) = ap (λ r. x ∷ r) (take_all xs)

drop_past {ℓ} : {A : Type ℓ} (n : ℕ) (xs : List A) → length xs ≤ n → drop n xs ≡ []
drop_past zero [] h = refl
drop_past zero (x ∷ xs) h = absurd (omega arith)
drop_past (suc n) [] h = refl
drop_past (suc n) (x ∷ xs) h = drop_past n xs (omega arith)

overwrite_end : (old new : Bytes) → overwrite (length old) new old ≡ old ++ new
overwrite_end old new =
    let none_missing : length old - length old ≡ 0 = omega arith in
    rw (
      take_all old,
      none_missing,
      drop_past (length old + length new) old (omega arith),
      append-nil,
    )

-- With room for it, what is appended goes to the end of the file.
pub append_full :
    (k : Kernel) (d : Disk) (name new : Bytes) (g : File)
    → ((offset n : ℕ) → k.room name offset n ≡ n)
    → d name ≡ some g
    → append k d name new
      ≡ (length new, put d name (some (record g { contents = g.contents ++ new })))
unfolding write_at
append_full k d name new g roomy there =
    let all_in : min (length new) (length new) ≡ length new = omega arith in
    rw (roomy, there, all_in, take_all new)
      (ap (λ c. (length new, put d name (some (record g { contents = c }))))
        (overwrite_end g.contents new))

pub drop-add {ℓ} : {A : Type ℓ} (n m : ℕ) (xs : List A) → drop (n + m) xs ≡ drop m (drop n xs)
drop-add zero m xs = rw zero-add
drop-add (suc n) m [] = drop_past (suc n + m) [] (omega arith) ∙ sym (drop_past m [] (omega arith))
drop-add (suc n) m (x ∷ xs) = rw suc-add (drop-add n m xs)

pub drop-length-take {ℓ} :
    {A : Type ℓ} (n : ℕ) (xs : List A) → drop (length (take n xs)) xs ≡ drop n xs
drop-length-take zero xs = refl
drop-length-take (suc n) [] = refl
drop-length-take (suc n) (x ∷ xs) = drop-length-take n xs

module _ (k : Kernel) (l : Layout) {Valid : ArchiveEntry → Type 0} (lawful : IsLawful l Valid)
    (d : Disk) (archive : Bytes)
    (readable : (offset : ℕ) → k.read_fails archive offset ≡ false) where
  -- A header that was written is read back.
  pub read_entry-encode :
      (before after : Bytes) (e : ArchiveEntry)
      → Valid e
      → contents_of (d archive) ≡ before ++ (l.encode e ++ after)
      → read_entry k l d archive (length before) ≡ some e
  unfolding read_entry
  read_entry-encode before after e valid at_offset = rw (
    readable (length before),
    at_offset,
    drop-length-append before (l.encode e ++ after),
    ← lawful.length-encode e,
    take-length-append (l.encode e) after,
    ==-refl (length (l.encode e)),
    lawful.decode-encode e valid,
  )

  pub read_entry_end :
      (before : Bytes)
      → contents_of (d archive) ≡ before
      → read_entry k l d archive (length before) ≡ none
  unfolding read_entry
  read_entry_end before at_offset =
      rw (readable (length before), at_offset, drop_past (length before) before (omega arith))
        (ground (
          arith,
          length-take l.header_size (let none_left : Bytes = [] in none_left),
          lawful.header_pos,
        ))
