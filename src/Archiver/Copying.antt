-- ===== src/Archiver/Copying.antt =====
-- lab5/archiver.c: the loops of `extract_from_archive` that copy the data of a member.
use operation_systems_mirea.Base.{
  ℕ, zero, suc, ◌+◌, ◌-◌, min, ◌≡◌, ◌≢◌, ◌≤◌, ◌<◌, sym, ap, subst, ◌∙◌, false, [], ◌∷◌, ◌++◌,
  append_assoc, List, some, arith, length, length-append, length-take, length-drop, take, drop,
  take-append-drop, drop-length-append, ==-refl, ◌==◌,
}
use operation_systems_mirea.Base.Text.{Bytes}
use operation_systems_mirea.Archiver.Files.{Kernel, Disk, File, put, contents_of, write_at}
use operation_systems_mirea.Archiver.Entry.{buffer_size}
use operation_systems_mirea.Archiver.Extract.{copied, copy_out}
use operation_systems_mirea.Archiver.Members.{put_self, put-other, append_full}
use operation_systems_mirea.Archiver.Growth.{
  Grown, Grown-trans, Grown-put, Grown-none, buffer_size_pos,
}

-- A read that asks for no more than is left of the data takes nothing from behind it.
take-min-append {ℓ} :
    {A : Type ℓ} (n : ℕ) (xs ys : List A) → take (min (length xs) n) (xs ++ ys) ≡ take n xs
take-min-append zero xs ys = let e : min (length xs) 0 ≡ 0 = omega arith in rw e
take-min-append (suc n) [] ys = let e : min 0 (suc n) ≡ 0 = omega arith in rw e
take-min-append (suc n) (x ∷ xs) ys =
    let e : min (suc (length xs)) (suc n) ≡ suc (min (length xs) n) = omega arith in
    rw e (ap (λ r. x ∷ r) (take-min-append n xs ys))

take_pos {ℓ} :
    {A : Type ℓ} (n : ℕ) (xs : List A) → 0 < n → 0 < length xs → (length (take n xs) == 0) ≡ false
take_pos n xs p q = ground (arith, length-take n xs)

-- As `append_full`, with the offset where the file ends.
pub write_full :
    (k : Kernel) (d : Disk) (name new : Bytes) (g : File)
    → ((offset n : ℕ) → k.room name offset n ≡ n)
    → d name ≡ some g
    → write_at k d name (length g.contents) new
      ≡ (length new, put d name (some (record g { contents = g.contents ++ new })))
write_full k d name new g roomy there =
    ap (λ f. write_at k d name (length (contents_of f)) new) (sym there)
    ∙ append_full k d name new g roomy there

module _ (k : Kernel) (archive target : Bytes) (apart : archive ≢ target)
    (roomy : (offset n : ℕ) → k.room target offset n ≡ n)
    (readable : (offset : ℕ) → k.read_fails archive offset ≡ false) where
  -- One round: a chunk of the data goes to the end of the target.
  copy_out_step :
      (fuel from to left : ℕ) (before data' after : Bytes) (d : Disk) (a t : File)
      → d archive ≡ some (record a { contents = before ++ (data' ++ after) })
      → d target ≡ some t
      → from ≡ length before
      → to ≡ length t.contents
      → left ≡ length data'
      → 0 < length data'
      → copy_out k (suc fuel) d archive from target to left
        ≡ copy_out k fuel
            (put d target (some (record t { contents = t.contents ++ take buffer_size data' })))
            archive
            (from + length (take buffer_size data'))
            target
            (to + length (take buffer_size data'))
            (left - length (take buffer_size data'))
  unfolding copy_out
  copy_out_step fuel from to left before data' after d a t at_archive at_target f g e pos =
      let some_left : (length data' == 0) ≡ false = ground arith in
      rw (f, g, e)
        (rw (
          some_left,
          readable (length before),
          at_archive,
          drop-length-append before (data' ++ after),
          take-min-append buffer_size data' after,
          take_pos buffer_size data' buffer_size_pos pos,
          write_full k d target (take buffer_size data') t roomy at_target,
          ==-refl (length (take buffer_size data')),
        ))

  -- With room in the target the loop copies all of the data to its end, and nothing else changes.
  pub copy_out-Grown :
      (fuel from to left : ℕ) (before data' after : Bytes) (d : Disk) (a t : File)
      → d archive ≡ some (record a { contents = before ++ (data' ++ after) })
      → d target ≡ some t
      → from ≡ length before
      → to ≡ length t.contents
      → left ≡ length data'
      → left ≤ fuel
      → (d' : Disk) × (copy_out k fuel d archive from target to left
          ≡ copied d' (from + left) (to + left))
        × Grown d target t data' d'
  unfolding copy_out
  copy_out-Grown zero from to left before [] after d a t at_archive at_target f g e h =
      (d, ground arith, Grown-none d target t at_target)
  copy_out-Grown zero from to left before (x ∷ xs) after d a t at_archive at_target f g e h =
      absurd (omega arith)
  copy_out-Grown (suc fuel) from to left before [] after d a t at_archive at_target f g e h =
      (d, ground arith, Grown-none d target t at_target)
  copy_out-Grown (suc fuel) from to left before (x ∷ xs) after d a t at_archive at_target f g e h =
      let data' : Bytes = x ∷ xs in
      let chunk : Bytes = take buffer_size data' in
      let others : Bytes = drop buffer_size data' in
      let t' : File = record t { contents = t.contents ++ chunk } in
      let d1 : Disk = put d target (some t') in
      let split : chunk ++ others ≡ data' = take-append-drop buffer_size data' in
      let shorter : length others ≡ length data' - buffer_size = length-drop buffer_size data' in
      let taken : length chunk ≡ min buffer_size (length data') = length-take buffer_size data' in
      let regroup : before ++ (data' ++ after) ≡ (before ++ chunk) ++ (others ++ after) =
        ap (λ m. before ++ (m ++ after)) (sym split) ∙ simp append_assoc in
      let (d', run, more) =
        copy_out-Grown fuel (from + length chunk) (to + length chunk) (left - length chunk)
          (before ++ chunk) others after d1 a t'
          (put-other d target archive _ apart
            ∙ at_archive
            ∙ ap (λ c. some (record a { contents = c })) regroup)
          (put_self d target _) (omega (arith, length-append before chunk))
          (omega (arith, length-append t.contents chunk)) (omega arith)
          (omega (arith, buffer_size_pos)) in
      (
        d',
        copy_out_step fuel from to left before data' after d a t at_archive at_target f g e
              (omega arith)
            ∙ run
            ∙ ground arith,
        subst (λ m. Grown d target t m d') split
            (Grown-trans d d1 d' target t chunk others (Grown-put d target t chunk) more),
      )
