-- ===== src/SharedMemory/Segments.antt =====
-- lab7/sender.c: the segment of a run among those of the system.
use operation_systems_mirea.Base.{ℕ, ◌≡◌, refl, ap, false, List, [], ◌∷◌, arith, ==-refl}
use operation_systems_mirea.SharedMemory.{
  SharedData, Kernel, has_segment, remove_segment, write_segment, written, read_segment,
}

pub remove_segment_absent :
    (key : ℕ) (xs : List (ℕ × SharedData)) → has_segment key xs ≡ false → remove_segment key xs ≡ xs
remove_segment_absent key [] h = refl
remove_segment_absent key ((j, x) ∷ xs) h = ground (arith, remove_segment_absent key xs)

pub write_segment_absent :
    (k : Kernel) (i key : ℕ) (xs : List (ℕ × SharedData))
    → has_segment key xs ≡ false
    → write_segment k i key xs ≡ xs
write_segment_absent k i key [] h = refl
write_segment_absent k i key ((j, x) ∷ xs) h = ground (arith, write_segment_absent k i key xs)

module _ (key : ℕ) (x : SharedData) (xs : List (ℕ × SharedData))
    (fresh : has_segment key xs ≡ false) where
  pub remove_segment_head : remove_segment key ((key, x) ∷ xs) ≡ xs
  remove_segment_head = rw (==-refl key) (remove_segment_absent key xs fresh)

  pub write_segment_head :
      (k : Kernel) (i : ℕ) → write_segment k i key ((key, x) ∷ xs) ≡ (key, written k i x) ∷ xs
  write_segment_head k i =
      rw (==-refl key) (ap (λ r. (key, written k i x) ∷ r) (write_segment_absent k i key xs fresh))

  pub read_segment_head : read_segment key ((key, x) ∷ xs) ≡ x
  read_segment_head = rw (==-refl key) refl
