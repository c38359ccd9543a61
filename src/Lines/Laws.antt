-- ===== src/Lines/Laws.antt =====
-- lab1/demcat.c and lab1/demgrep.c: what the buffer holds, round by round.
use operation_systems_mirea.Base.{
  All, ℕ, zero, suc, ◌-◌, ◌≤◌, ◌≡◌, refl, ap, subst, sym, ◌∙◌, List, [], ◌∷◌, ◌++◌, ◌==◌,
  if◌then◌else◌, length, arith, Bool-cases, inl, inr, length-append,
}
use operation_systems_mirea.Base.Text.{Bytes}
use operation_systems_mirea.Lines.{fgets, chunks, read_lines, buffer_size, newline}

abbrev pub concat : List Bytes → Bytes
concat [] = []
concat (l ∷ ls) = l ++ concat ls

fgets-append : (k : ℕ) (s : Bytes) → (fgets k s).0 ++ (fgets k s).1 ≡ s
fgets-append zero s = refl
fgets-append (suc k) [] = refl
fgets-append (suc k) (c ∷ s) = elim (Bool-cases (c == newline)) [
  | inl e ↦ rw (e, fgets) refl
  | inr e ↦ rw (e, fgets) (ap (λ r. c ∷ r) (fgets-append k s))
]

length-fgets : (k : ℕ) (s : Bytes) → length (fgets k s).0 ≤ k
length-fgets zero s = omega arith
length-fgets (suc k) [] = omega arith
length-fgets (suc k) (c ∷ s) = ground (arith, length-fgets k s)

fgets-rest : (k : ℕ) (c : ℕ) (s : Bytes) → length (fgets (suc k) (c ∷ s)).1 ≤ length s
fgets-rest k c s = elim (Bool-cases (c == newline)) [
  | inl e ↦ rw (e, fgets) (omega arith)
  | inr e ↦
      rw (e, fgets)
        (omega (arith, ap length (fgets-append k s), length-append (fgets k s).0 (fgets k s).1))
]

-- Nothing is lost: the texts, one after the other, are the file.
concat-chunks : (fuel k : ℕ) (s : Bytes) → length s ≤ fuel → concat (chunks fuel (suc k) s) ≡ s
concat-chunks zero k [] h = refl
concat-chunks zero k (c ∷ s) h = absurd (omega arith)
concat-chunks (suc fuel) k [] h = refl
concat-chunks (suc fuel) k (c ∷ s) h =
    ap (λ r. (fgets (suc k) (c ∷ s)).0 ++ r)
      (concat-chunks fuel k (fgets (suc k) (c ∷ s)).1 (omega (arith, fgets-rest k c s)))
    ∙ fgets-append (suc k) (c ∷ s)

-- The lines of a text, each with its newline, whatever their length.
abbrev pub push_front : ℕ → List Bytes → List Bytes
push_front c [] = (c ∷ []) ∷ []
push_front c (l ∷ ls) = (c ∷ l) ∷ ls

unfoldable pub split_lines : Bytes → List Bytes
split_lines [] = []
split_lines (c ∷ s) =
    let rest = split_lines s in if c == newline then (c ∷ []) ∷ rest else push_front c rest

-- Every line fits the buffer.
abbrev pub Fits : ℕ → List Bytes → Type 0
Fits k = All (λ l. length l ≤ k)

abbrev FirstFits : ℕ → List Bytes → Type 0
FirstFits k [] = Unit {0}
FirstFits k (l ∷ ls) = length l ≤ k

FirstFits-push_front :
    (k c : ℕ) (ls : List Bytes) → FirstFits (suc k) (push_front c ls) → FirstFits k ls
FirstFits-push_front k c [] h = tt
FirstFits-push_front k c (l ∷ ls) h = omega arith

not_first : (c : ℕ) (s : Bytes) → ¬ (FirstFits 0 (split_lines (c ∷ s)))
unfolding split_lines
not_first c s h = elim (Bool-cases (c == newline)) [
  | inl e ↦ absurd (ground arith)
  | inr e ↦ not_pushed c (split_lines s) (rw (e, split_lines) at h)
]
  where
    not_pushed : (c : ℕ) (ls : List Bytes) → ¬ (FirstFits 0 (push_front c ls))
    not_pushed c [] k = absurd (omega arith)
    not_pushed c (l ∷ ls) k = absurd (omega arith)

fgets-split_lines :
    (k c : ℕ) (s : Bytes)
    → FirstFits k (split_lines (c ∷ s))
    → split_lines (c ∷ s) ≡ (fgets k (c ∷ s)).0 ∷ split_lines (fgets k (c ∷ s)).1
unfolding split_lines
fgets-split_lines zero c s h = absurd (not_first c s h)
fgets-split_lines (suc zero) c [] h = ground arith
fgets-split_lines (suc (suc k)) c [] h = ground arith
fgets-split_lines (suc k) c (d ∷ s) h = elim (Bool-cases (c == newline)) [
  | inl e ↦ rw (e, fgets) refl
  | inr e ↦
      let h' : FirstFits k (split_lines (d ∷ s)) =
        FirstFits-push_front k c (split_lines (d ∷ s)) (rw (e, split_lines) at h) in
      rw (e, fgets) (ap (push_front c) (fgets-split_lines k d s h'))
]

Fits-FirstFits : (k : ℕ) (ls : List Bytes) → Fits k ls → FirstFits k ls
Fits-FirstFits k [] h = tt
Fits-FirstFits k (l ∷ ls) h = h.0

chunks-split_lines :
    (fuel k : ℕ) (s : Bytes)
    → length s ≤ fuel
    → Fits (suc k) (split_lines s)
    → chunks fuel (suc k) s ≡ split_lines s
unfolding split_lines
chunks-split_lines zero k [] h f = refl
chunks-split_lines zero k (c ∷ s) h f = absurd (omega arith)
chunks-split_lines (suc fuel) k [] h f = refl
chunks-split_lines (suc fuel) k (c ∷ s) h f =
    let e = fgets-split_lines (suc k) c s (Fits-FirstFits (suc k) (split_lines (c ∷ s)) f) in
    ap (λ r. (fgets (suc k) (c ∷ s)).0 ∷ r)
      (chunks-split_lines fuel k (fgets (suc k) (c ∷ s)).1 (omega (arith, fgets-rest k c s))
        (subst (Fits (suc k)) e f).1)
    ∙ sym e

-- Where every line fits the buffer, the rounds are the lines.
pub read_lines-split_lines :
    (s : Bytes) → Fits (buffer_size - 1) (split_lines s) → read_lines s ≡ split_lines s
unfolding read_lines
read_lines-split_lines s f = chunks-split_lines (length s) 4094 s (omega arith) f

-- The texts that the loop over `fgets` reads, one after the other, are the whole file, whatever its
-- bytes and however long its lines.
pub concat-read_lines : (s : Bytes) → concat (read_lines s) ≡ s
unfolding read_lines
concat-read_lines s = concat-chunks (length s) 4094 s (omega arith)
