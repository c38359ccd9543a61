-- ===== src/Base/Schedule.antt =====
-- Step functions of concurrent programs: what a step keeps, and who can take one. A step is none
-- where the thread is blocked or has returned.
use operation_systems_mirea.Base.{
  ℕ, zero, suc, ◌<◌, ◌≡◌, ◌≢◌, ◌⊎◌, refl, subst, Bool, true, false, if◌then◌else◌, Option, none,
  some, arith, Option-cases, inl, inr,
}
use mathlib.Core.Option.{some-injective}

module _ {S : Type 0} where
  -- The predicate holds after the step, if there is one.
  abbrev pub Kept : (S → Type 0) → Option S → Type 0
  Kept P none = Unit {0}
  Kept P (some t) = P t

  pub Kept-some : (P : S → Type 0) {o : Option S} {t : S} → o ≡ some t → Kept P o → P t
  Kept-some P {o = none} e k = absurd (ground arith)
  Kept-some P {o = some u} e k = subst P (some-injective u _ e) k

  pub Kept-map : {P Q : S → Type 0} → ((t : S) → P t → Q t) → (o : Option S) → Kept P o → Kept Q o
  Kept-map f none h = tt
  Kept-map f (some t) h = f t h

  pub Kept-both : (P Q : S → Type 0) (o : Option S) → Kept P o → Kept Q o → Kept (λ t. P t × Q t) o
  Kept-both P Q none h k = tt
  Kept-both P Q (some t) h k = (h, k)

  -- A test before a step, and between two states.
  pub Kept-test :
      (P : S → Type 0) (b : Bool) (o : Option S)
      → (b ≡ true → Kept P o)
      → Kept P (if b then o else none)
  Kept-test P true o h = h refl
  Kept-test P false o h = tt

  pub if_both : (P : S → Type 0) (b : Bool) (t u : S) → P t → P u → P (if b then t else u)
  if_both P true t u h k = h
  if_both P false t u h k = k

  module _ {E : Type 0} (step : E → S → Option S) where
    abbrev pub CanStep : S → E → Type 0
    CanStep s e = (t : S) × (step e s ≡ some t)

    pub not_blocked : (s : S) (e : E) → step e s ≢ none → CanStep s e
    not_blocked s e h = elim (Option-cases (step e s)) [ inl n ↦ absurd (h n) | inr x ↦ x ]

    -- Every schedule comes to an end that is `IsOver`: until then some step can be taken, and whichever
    -- is taken, the rest comes to such an end.
    pub data Ends (IsOver : S → Type 0) : S → Type 0 where
      over : {s : S} → IsOver s → Ends IsOver s
      on :
          {s : S}
          → (e : E) × CanStep s e
          → ((e : E) (t : S) → step e s ≡ some t → Ends IsOver t)
          → Ends IsOver s

    -- By a weight that every step makes smaller.
    pub Ends-weight :
        (IsOver P : S → Type 0) (weight : S → ℕ)
        → ((s : S) → P s → IsOver s ⊎ ((e : E) × CanStep s e))
        → ((e : E) (s t : S) → P s → step e s ≡ some t → P t × (weight t < weight s))
        → (m : ℕ) (s : S) → weight s < m
        → P s
        → Ends IsOver s
    Ends-weight IsOver P weight goes drops zero s h p = absurd (omega arith)
    Ends-weight IsOver P weight goes drops (suc m) s h p = elim (goes s p) [
      | inl o ↦ over o
      | inr x ↦ on x (λ e t q.
          let (p', l) = drops e s t p q in
          Ends-weight IsOver P weight goes drops m t (omega arith) p')
    ]

    -- The end with what every step keeps.
    pub Ends-kept :
        (IsOver Q R : S → Type 0)
        → ((e : E) (s t : S) → Q s → step e s ≡ some t → Q t)
        → ((s : S) → IsOver s → Q s → R s)
        → {s : S} → Q s
        → Ends IsOver s
        → Ends R s
    Ends-kept IsOver Q R keeps gives {s} q (over o) = over (gives s o q)
    Ends-kept IsOver Q R keeps gives {s} q (on x f) =
        on x (λ e t p. Ends-kept IsOver Q R keeps gives (keeps e s t q p) (f e t p))
