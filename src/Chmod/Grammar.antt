-- ===== src/Chmod/Grammar.antt =====
-- lab4/main.c: what `parse_symbolic` reads in the rendering of a change.
use operation_systems_mirea.Base.{
  ℕ, ◌≡◌, refl, ◌∙◌, ap, Bool, true, false, ◌||◌, List, [], ◌∷◌, ◌++◌, map, ◌==◌, ==_iff, bit_or,
  arith,
}
use operation_systems_mirea.Base.Text.{Bytes}
use operation_systems_mirea.Chmod.Symbolic.{
  Operator, plus, minus, assign, scan_categories, default_categories, bits, scan_permissions,
  change, parse_symbolic, parse_operator, parse_permissions,
}
use operation_systems_mirea.Chmod.Spec.{
  Who, user, group, others, everyone, owner, in_group, other, Perm, read, write, execute,
  who_letter, operator_letter, perm_letter, render, covers, named, selects, same_perm, grants,
}
use operation_systems_mirea.Chmod.Bits.{category_bits, permission_bits, for_three, for_three_sound}

or_categories-table :
    for_three (λ a b c. for_three (λ x y z.
      bit_or (category_bits a b c) (category_bits x y z)
      == category_bits (a || x) (b || y) (c || z)))
    ≡ true
or_categories-table = refl

or_categories :
    (a b c x y z : Bool)
    → bit_or (category_bits a b c) (category_bits x y z) ≡ category_bits (a || x) (b || y) (c || z)
or_categories a b c x y z = (==_iff _ _).0 (
    for_three_sound
      (λ x' y' z'.
        bit_or (category_bits a b c) (category_bits x' y' z')
        == category_bits (a || x') (b || y') (c || z'))
      (for_three_sound
        (λ a' b' c'. for_three (λ x' y' z'.
          bit_or (category_bits a' b' c') (category_bits x' y' z')
          == category_bits (a' || x') (b' || y') (c' || z')))
        or_categories-table a b c)
      x y z)

or_permissions-table :
    for_three (λ a b c. for_three (λ x y z.
      bit_or (permission_bits a b c) (permission_bits x y z)
      == permission_bits (a || x) (b || y) (c || z)))
    ≡ true
or_permissions-table = refl

or_permissions :
    (a b c x y z : Bool)
    → bit_or (permission_bits a b c) (permission_bits x y z)
      ≡ permission_bits (a || x) (b || y) (c || z)
or_permissions a b c x y z = (==_iff _ _).0 (
    for_three_sound
      (λ x' y' z'.
        bit_or (permission_bits a b c) (permission_bits x' y' z')
        == permission_bits (a || x') (b || y') (c || z'))
      (for_three_sound
        (λ a' b' c'. for_three (λ x' y' z'.
          bit_or (permission_bits a' b' c') (permission_bits x' y' z')
          == permission_bits (a' || x') (b' || y') (c' || z')))
        or_permissions-table a b c)
      x y z)

or_assoc : (a b c : Bool) → ((a || b) || c) ≡ (a || (b || c))
or_assoc a b c = ground arith

or_false : (a : Bool) → (a || false) ≡ a
or_false a = ground arith

abbrev pub who_bits : Who → ℕ
who_bits w = category_bits (covers w owner) (covers w in_group) (covers w other)

abbrev pub perm_bits : Perm → ℕ
perm_bits p = permission_bits (same_perm p read) (same_perm p write) (same_perm p execute)

pub scan_categories-who_letter :
    (w : Who) (n : ℕ) (s : Bytes)
    → scan_categories n (who_letter w ∷ s) ≡ scan_categories (bit_or n (who_bits w)) s
unfolding scan_categories
scan_categories-who_letter user n s = refl
scan_categories-who_letter group n s = refl
scan_categories-who_letter others n s = refl
scan_categories-who_letter everyone n s = refl

scan_categories-operator_letter :
    (op : Operator) (n : ℕ) (s : Bytes)
    → scan_categories n (operator_letter op ∷ s) ≡ (n, operator_letter op ∷ s)
unfolding scan_categories
scan_categories-operator_letter plus n s = refl
scan_categories-operator_letter minus n s = refl
scan_categories-operator_letter assign n s = refl

pub scan_permissions-perm_letter :
    (p : Perm) (n : ℕ) (s : Bytes)
    → scan_permissions n (perm_letter p ∷ s) ≡ scan_permissions (bit_or n (perm_bits p)) s
unfolding scan_permissions
scan_permissions-perm_letter read n s = refl
scan_permissions-perm_letter write n s = refl
scan_permissions-perm_letter execute n s = refl

pub parse_operator-operator_letter :
    (op : Operator) (n : ℕ) (s : Bytes)
    → parse_operator n (operator_letter op ∷ s) ≡ parse_permissions n op (scan_permissions 0 s)
unfolding scan_permissions
parse_operator-operator_letter plus n s = refl
parse_operator-operator_letter minus n s = refl
parse_operator-operator_letter assign n s = refl

scan_categories-render :
    (ws : List Who) (a b c : Bool) (op : Operator) (s : Bytes)
    → scan_categories (category_bits a b c) (map who_letter ws ++ operator_letter op ∷ s) ≡ (
      category_bits (a || named ws owner) (b || named ws in_group) (c || named ws other),
      operator_letter op ∷ s,
    )
scan_categories-render [] a b c op s =
    rw (or_false a, or_false b, or_false c) (scan_categories-operator_letter op _ s)
scan_categories-render (w ∷ ws) a b c op s =
    scan_categories-who_letter w _ _
    ∙ ap (λ n. scan_categories n (map who_letter ws ++ operator_letter op ∷ s))
        (or_categories a b c (covers w owner) (covers w in_group) (covers w other))
    ∙ simp or_assoc at (
        scan_categories-render ws (a || covers w owner) (b || covers w in_group)
          (c || covers w other) op s)

scan_permissions-render :
    (ps : List Perm) (r w x : Bool)
    → scan_permissions (permission_bits r w x) (map perm_letter ps)
      ≡ bits (permission_bits (r || grants ps read) (w || grants ps write) (x || grants ps execute))
unfolding scan_permissions
scan_permissions-render [] r w x = rw (or_false r, or_false w, or_false x)
scan_permissions-render (p ∷ ps) r w x =
    scan_permissions-perm_letter p (permission_bits r w x) (map perm_letter ps)
    ∙ ap (λ n. scan_permissions n (map perm_letter ps))
        (or_permissions r w x (same_perm p read) (same_perm p write) (same_perm p execute))
    ∙ simp or_assoc at (
        scan_permissions-render ps (r || same_perm p read) (w || same_perm p write)
          (x || same_perm p execute))

default-named :
    (w : Who) (a b c : Bool)
    → default_categories
        (category_bits (covers w owner || a) (covers w in_group || b) (covers w other || c))
      ≡ category_bits (covers w owner || a) (covers w in_group || b) (covers w other || c)
default-named user a b c = ground arith
default-named group a b c = ground arith
default-named others a b c = ground arith
default-named everyone a b c = ground arith

default_categories-named :
    (ws : List Who)
    → default_categories (category_bits (named ws owner) (named ws in_group) (named ws other))
      ≡ category_bits (selects ws owner) (selects ws in_group) (selects ws other)
default_categories-named [] = refl
default_categories-named (w ∷ ws) =
    default-named w (named ws owner) (named ws in_group) (named ws other)

-- What the parser reads in the rendering of a change.
pub parse_symbolic-render :
    (ws : List Who) (op : Operator) (ps : List Perm)
    → parse_symbolic (render ws op ps)
      ≡ change
          (category_bits (selects ws owner) (selects ws in_group) (selects ws other))
          op
          (permission_bits (grants ps read) (grants ps write) (grants ps execute))
unfolding parse_symbolic
parse_symbolic-render ws op ps =
    rw (scan_categories-render ws false false false op (map perm_letter ps)) (
      rw (default_categories-named ws) (
        parse_operator-operator_letter op
          (category_bits (selects ws owner) (selects ws in_group) (selects ws other))
          (map perm_letter ps)
        ∙ ap
            (parse_permissions
              (category_bits (selects ws owner) (selects ws in_group) (selects ws other)) op)
            (scan_permissions-render ps false false false)))
