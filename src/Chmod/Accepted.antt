-- ===== src/Chmod/Accepted.antt =====
-- lab4/main.c: a text that `parse_symbolic` accepts is the rendering of a change.
use operation_systems_mirea.Base.{
  ℕ, ◌≡◌, refl, sym, ◌∙◌, ap, subst, List, [], ◌∷◌, ◌++◌, map, none, some, ◌==◌, ==_iff, bit_or,
  arith, ◌⊎◌, inl, inr, Option-cases, Bool-cases,
}
use operation_systems_mirea.Base.Text.{Bytes}
use operation_systems_mirea.Chmod.Symbolic.{
  Operator, plus, minus, assign, category, permission, operator, scan_categories, Scan, bad, bits,
  scan_permissions, change, parse_symbolic, parse_operator, parse_permissions,
}
use operation_systems_mirea.Chmod.Spec.{
  Who, user, group, others, everyone, Perm, read, write, execute, who_letter, operator_letter,
  perm_letter, render,
}
use operation_systems_mirea.Chmod.Grammar.{
  who_bits, perm_bits, scan_categories-who_letter, scan_permissions-perm_letter,
  parse_operator-operator_letter,
}

who_of : (c : ℕ) → ((w : Who) × (who_letter w ≡ c)) ⊎ (category c ≡ none)
who_of c = elim (Bool-cases (c == b'u')) [
  | inl e ↦ inl (user, sym ((==_iff _ _).0 e))
  | inr nu ↦ elim (Bool-cases (c == b'g')) [
    | inl e ↦ inl (group, sym ((==_iff _ _).0 e))
    | inr ng ↦ elim (Bool-cases (c == b'o')) [
      | inl e ↦ inl (others, sym ((==_iff _ _).0 e))
      | inr no' ↦ elim (Bool-cases (c == b'a')) [
        | inl e ↦ inl (everyone, sym ((==_iff _ _).0 e))
        | inr na ↦ inr (ground arith)
      ]
    ]
  ]
]

operator_of : (c : ℕ) {op : Operator} → operator c ≡ some op → c ≡ operator_letter op
operator_of c {op = plus} h = ground arith
operator_of c {op = minus} h = ground arith
operator_of c {op = assign} h = ground arith

perm_of : (c : ℕ) → ((p : Perm) × (perm_letter p ≡ c)) ⊎ (permission c ≡ none)
perm_of c = elim (Bool-cases (c == b'r')) [
  | inl e ↦ inl (read, sym ((==_iff _ _).0 e))
  | inr nr ↦ elim (Bool-cases (c == b'w')) [
    | inl e ↦ inl (write, sym ((==_iff _ _).0 e))
    | inr nw ↦ elim (Bool-cases (c == b'x')) [
      | inl e ↦ inl (execute, sym ((==_iff _ _).0 e))
      | inr nx ↦ inr (ground arith)
    ]
  ]
]

scan_categories-split :
    (text : Bytes) (n : ℕ)
    → (ws : List Who) × (text ≡ map who_letter ws ++ (scan_categories n text).1)
unfolding scan_categories
scan_categories-split [] n = ([], refl)
scan_categories-split (c ∷ s) n = elim (who_of c) [
  | inl (w, e) ↦ rw (← e) (
      rw (scan_categories-who_letter w n s) (
        let (ws, t) = scan_categories-split s (bit_or n (who_bits w)) in
        (w ∷ ws, ap (λ r. who_letter w ∷ r) t)))
  | inr e ↦ ([], rw (e, scan_categories))
]

abbrev Permissions : Bytes → Type 0
Permissions text = (ps : List Perm) × (text ≡ map perm_letter ps)

Permissions-cons : (p : Perm) (s : Bytes) → Permissions s → Permissions (perm_letter p ∷ s)
Permissions-cons p s (ps, e) = (p ∷ ps, ap (λ r. perm_letter p ∷ r) e)

scan_permissions-split :
    (text : Bytes) (n : ℕ) {m : ℕ} → scan_permissions n text ≡ bits m → Permissions text
unfolding scan_permissions
scan_permissions-split [] n h = ([], refl)
scan_permissions-split (c ∷ s) n {m} h = elim (perm_of c) [
  | inl (p, e) ↦
      subst (λ d. scan_permissions n (d ∷ s) ≡ bits m → Permissions (d ∷ s)) e
        (λ k. Permissions-cons p s (
          scan_permissions-split s (bit_or n (perm_bits p))
            (sym (scan_permissions-perm_letter p n s) ∙ k)))
        h
  | inr e ↦ absurd (ground arith)
]

abbrev Change : Bytes → Type 0
Change text = (o : Operator) × (ps : List Perm) × (text ≡ operator_letter o ∷ map perm_letter ps)

parse_permissions-split :
    (o : Operator) (s : Bytes) (n : ℕ) {cats perms : ℕ} {op : Operator}
    → parse_permissions n o (scan_permissions 0 s) ≡ change cats op perms
    → Change (operator_letter o ∷ s)
parse_permissions-split o s n {cats} {perms} {op} = go (scan_permissions 0 s) refl
  where
    go :
        (r : Scan)
        → scan_permissions 0 s ≡ r
        → parse_permissions n o r ≡ change cats op perms
        → Change (operator_letter o ∷ s)
    go (bad c) e k = cc
    go (bits m) e k =
        let (ps, t) = scan_permissions-split s 0 e in (o, ps, ap (λ r. operator_letter o ∷ r) t)

parse_operator-split :
    (text : Bytes) (n : ℕ) {cats perms : ℕ} {op : Operator}
    → parse_operator n text ≡ change cats op perms
    → Change text
unfolding scan_permissions
parse_operator-split [] n h = cc
parse_operator-split (c ∷ s) n {cats} {perms} {op} h = elim (Option-cases (operator c)) [
  | inl e ↦ absurd (ground arith)
  | inr (o, e) ↦
      subst (λ d. parse_operator n (d ∷ s) ≡ change cats op perms → Change (d ∷ s))
        (sym (operator_of c e))
        (λ k. parse_permissions-split o s n (sym (parse_operator-operator_letter o n s) ∙ k)) h
]

abbrev pub Rendered : Bytes → Type 0
Rendered text = (ws : List Who) × (op : Operator) × (ps : List Perm) × (text ≡ render ws op ps)

-- A text that is accepted is the rendering of a change.
pub parse_symbolic-split :
    (text : Bytes) {cats perms : ℕ} {op : Operator}
    → parse_symbolic text ≡ change cats op perms
    → Rendered text
unfolding parse_symbolic
parse_symbolic-split text h =
    let (ws, e) = scan_categories-split text 0 in
    let (o, ps, t) = parse_operator-split (scan_categories 0 text).1 _ h in
    (ws, o, ps, e ∙ ap (λ r. map who_letter ws ++ r) t)
