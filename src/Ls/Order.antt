-- ===== src/Ls/Order.antt =====
-- lab2/demls.c: `direntCompare` is an order that `qsort` can sort by.
use operation_systems_mirea.Base.{ℕ, ◌≡◌, ◌≢◌, refl, [], ◌∷◌, arith, ltb, if◌then◌else◌}
use operation_systems_mirea.Base.Text.{Bytes}
use operation_systems_mirea.Ls.Collect.{
  Sign, less, equal, greater, strcasecmp, dirent_compare, to_lower,
}

abbrev pub flip : Sign → Sign
flip less = greater
flip equal = equal
flip greater = less

strcasecmp-flip : (f s : Bytes) → strcasecmp s f ≡ flip (strcasecmp f s)
unfolding strcasecmp
strcasecmp-flip [] [] = refl
strcasecmp-flip [] (d ∷ t) = refl
strcasecmp-flip (c ∷ s) [] = refl
strcasecmp-flip (c ∷ s) (d ∷ t) = ground (arith, strcasecmp-flip s t)

-- Comparing two names in the other order gives the opposite answer: less for greater, greater for
-- less, and equal for equal.
dirent_compare-flip : (f s : Bytes) → dirent_compare s f ≡ flip (dirent_compare f s)
unfolding dirent_compare
dirent_compare-flip f s = ground (arith, strcasecmp-flip f s)

strcasecmp_trans :
    (a b c : Bytes) → strcasecmp a b ≢ greater → strcasecmp b c ≢ greater → strcasecmp a c ≢ greater
unfolding strcasecmp
strcasecmp_trans [] [] [] h k = h
strcasecmp_trans [] [] (z ∷ c) h k = ground arith
strcasecmp_trans [] (y ∷ b) [] h k = ground arith
strcasecmp_trans [] (y ∷ b) (z ∷ c) h k = ground arith
strcasecmp_trans (x ∷ a) [] c h k = absurd (ground arith)
strcasecmp_trans (x ∷ a) (y ∷ b) [] h k = absurd (ground arith)
strcasecmp_trans (x ∷ a) (y ∷ b) (z ∷ c) h k =
    step (to_lower x) (to_lower y) (to_lower z) (strcasecmp_trans a b c) h k
  where
    step :
        (x' y' z' : ℕ)
        → (strcasecmp a b ≢ greater → strcasecmp b c ≢ greater → strcasecmp a c ≢ greater)
        → (if ltb x' y' then less else if ltb y' x' then greater else strcasecmp a b) ≢ greater
        → (if ltb y' z' then less else if ltb z' y' then greater else strcasecmp b c) ≢ greater
        → (if ltb x' z' then less else if ltb z' x' then greater else strcasecmp a c) ≢ greater
    step x' y' z' ih h' k' = ground (arith, ih)

-- The order of the entries is transitive: if the first of three names does not come after the
-- second, nor the second after the third, the first does not come after the third.
dirent_compare_trans :
    (a b c : Bytes)
    → dirent_compare a b ≢ greater
    → dirent_compare b c ≢ greater
    → dirent_compare a c ≢ greater
unfolding dirent_compare
dirent_compare_trans a b c h k = ground (arith, strcasecmp_trans a b c)

-- `direntCompare` orders the names: when the first of three does not come after the second, nor the
-- second after the third, then the first does not come after the third; and comparing these two the
-- other way round gives the opposite answer.
pub dirent_compare_order :
    (a b c : Bytes)
    → dirent_compare a b ≢ greater
    → dirent_compare b c ≢ greater
    → (dirent_compare a c ≢ greater) × (dirent_compare c a ≡ flip (dirent_compare a c))
dirent_compare_order a b c h k = (dirent_compare_trans a b c h k, dirent_compare-flip a c)
