-- ===== src/Channel/Pipe/Child.antt =====
-- lab6/pipe_program.c: the child and its `read`.
use operation_systems_mirea.Base.{
  ℕ, ◌≤◌, ◌≡◌, ◌≢◌, refl, ap, sym, ◌∙◌, subst, Bool, true, false, [], ◌∷◌, Option, none, some, drop,
  arith, Bool-cases, inl, inr, if◌then◌else◌,
}
use operation_systems_mirea.Base.Text.{Bytes}
use operation_systems_mirea.Base.Schedule.{Kept}
use operation_systems_mirea.Channel.{buffer_size, sent, received}
use operation_systems_mirea.Channel.Text.{c_string-received}
use operation_systems_mirea.Channel.Pipe.{
  Setting, State, ParentPc, ChildPc, message, source, read_pipe, as_text,
}
use operation_systems_mirea.Channel.Pipe.Facts.{
  Phase, phase, has_read, Times, early, stamped, written, unmade, has_ended, IsWritten, IsSent, Inv,
}

module _ (k : Setting) where
  -- What is known where the child is.
  pub at_child :
      (s : State) (q : ChildPc)
      → Inv k s
      → s.child ≡ q
      → IsSent k
          (phase s.parent s.has_written)
          q
          s.write_open
          s.clock
          s.timestamp
          s.pipe
          s.data_buffer
  at_child s q inv at =
      subst
        (λ r.
          IsSent k (phase s.parent s.has_written) r s.write_open s.clock s.timestamp s.pipe
            s.data_buffer)
        at inv.is_sent

  pub times_at :
      (s : State) (q : ChildPc)
      → Inv k s
      → s.child ≡ q
      → Times q s.clock s.fork_time s.timestamp s.child_time
  times_at s q inv at =
      subst (λ r. Times r s.clock s.fork_time s.timestamp s.child_time) at inv.times

  -- A step of a child that stays before or after its `read`.
  pub IsSent-child :
      (f : Phase) (q r : ChildPc) (end_open : Bool) (clock stamp : ℕ) (pipe : Bytes)
      (data' : Option Bytes)
      → has_read q ≡ has_read r
      → q ≢ ChildPc.absent
      → IsSent k f q end_open clock stamp pipe data'
      → IsSent k f r end_open clock stamp pipe data'
  IsSent-child unmade q r end_open clock stamp pipe data' e made h = absurd (made h.1)
  IsSent-child early q r end_open clock stamp pipe data' e made (p, u, o, d) = (p, sym e ∙ u, o, d)
  IsSent-child stamped q r end_open clock stamp pipe data' e made (p, u, o, d, l) =
      (p, sym e ∙ u, o, d, l)
  IsSent-child (written true) q r end_open clock stamp pipe data' e made (u, v, l, n) =
      ((λ x. u (e ∙ x)), (λ x. v (e ∙ x)), l, λ x. n (e ∙ x))
  IsSent-child (written false) q r end_open clock stamp pipe data' e made h = h

  pub goes_on :
      (s : State) (q r : ChildPc)
      → Inv k s
      → s.child ≡ q
      → has_read q ≡ has_read r
      → q ≢ ChildPc.absent
      → has_ended r ≡ false
      → Times r s.clock s.fork_time s.timestamp s.child_time
      → Inv k (record s { child = r })
  goes_on s q r inv at e made not_ended times = record {
    is_sent =
        IsSent-child (phase s.parent s.has_written) q r s.write_open s.clock s.timestamp s.pipe
          s.data_buffer e made (at_child s q inv at);
    unprinted = λ u. inv.unprinted (ap has_read at ∙ e ∙ u);
    times = times;
    told = inv.told;
    done = λ x. absurd (ground (arith, x, not_ended));
  }

  -- What the child takes out of the pipe.
  in_pipe :
      (f : Phase) (end_open : Bool) (clock stamp c : ℕ) (pipe : Bytes) (data' : Option Bytes)
      → IsSent k f ChildPc.reading end_open clock stamp (c ∷ pipe) data'
      → (f ≡ written true) × (stamp ≤ clock) × (c ∷ pipe ≡ sent (message k stamp))
  in_pipe (written true) end_open clock stamp c pipe data' (u, v, l, n) = (refl, l, u refl)
  in_pipe _ end_open clock stamp c pipe data' h = absurd (ground (arith, h.0))

  sent_some : (m : Bytes) → [] ≢ sent m
  sent_some [] e = ground (arith, e)
  sent_some (c ∷ m) e = ground (arith, e)

  at_end :
      (f : Phase) (clock stamp : ℕ) (data' : Option Bytes)
      → IsSent k f ChildPc.reading false clock stamp [] data'
      → (f ≡ written false) × (stamp ≤ clock) × (data' ≡ none)
  at_end unmade clock stamp data' h = absurd (ground (arith, h.1))
  at_end early clock stamp data' h = absurd (ground (arith, h.2))
  at_end stamped clock stamp data' h = absurd (ground (arith, h.2))
  at_end (written true) clock stamp data' (u, v, l, n) =
      absurd (sent_some (message k stamp) (u refl))
  at_end (written false) clock stamp data' (p, d, l) = (refl, l, d)

  emptied :
      (s : State)
      → s.pipe ≡ []
      → s.write_open ≡ false
      → IsSent k
          (phase s.parent s.has_written)
          ChildPc.reading
          s.write_open
          s.clock
          s.timestamp
          s.pipe
          s.data_buffer
      → IsSent k
          (phase s.parent s.has_written)
          ChildPc.reading
          false
          s.clock
          s.timestamp
          []
          s.data_buffer
  emptied s e o h =
      subst
        (λ q.
          IsSent k (phase s.parent s.has_written) ChildPc.reading false s.clock s.timestamp q
            s.data_buffer)
        e
        (subst
          (λ b.
            IsSent k (phase s.parent s.has_written) ChildPc.reading b s.clock s.timestamp s.pipe
              s.data_buffer)
          o h)

  pub read_pipe-Inv :
      (s : State) (pipe : Bytes)
      → Inv k s
      → s.child ≡ ChildPc.reading
      → s.pipe ≡ pipe
      → Kept (Inv k) (read_pipe s pipe)
  read_pipe-Inv s [] inv at e = elim (Bool-cases s.write_open) [
    | inl o ↦ rw o tt
    | inr o ↦
        let h = at_child s ChildPc.reading inv at in
        let (f, l, d) =
          at_end (phase s.parent s.has_written) s.clock s.timestamp s.data_buffer
            (emptied s e o h) in
        rw o (record {
          is_sent =
              subst (λ g. IsSent k g ChildPc.timing false s.clock s.timestamp s.pipe s.data_buffer)
                (sym f) (e, d, l);
          unprinted = λ u. absurd (ground (arith, u));
          times = (times_at s ChildPc.reading inv at, l);
          told = rw (inv.unprinted (ap has_read at)) tt;
          done = λ x. absurd (ground (arith, x));
        })
  ]
  read_pipe-Inv s (c ∷ pipe) inv at e =
      let h : IsSent k (phase s.parent s.has_written) ChildPc.reading s.write_open s.clock
          s.timestamp (c ∷ pipe) s.data_buffer =
        subst
          (λ q.
            IsSent k (phase s.parent s.has_written) ChildPc.reading s.write_open s.clock s.timestamp
              q s.data_buffer)
          e (at_child s ChildPc.reading inv at) in
      let (f, l, m) =
        in_pipe (phase s.parent s.has_written) s.write_open s.clock s.timestamp c pipe s.data_buffer
          h in
      record {
        is_sent =
            subst
              (λ g.
                IsSent k g ChildPc.timing s.write_open s.clock s.timestamp
                  (drop buffer_size (c ∷ pipe)) (some (received (c ∷ pipe))))
              (sym f)
              (
                (λ u. absurd (ground (arith, u))),
                (λ u. ap (λ x. some (received x)) m),
                l,
                (λ u. absurd (ground (arith, u))),
              );
        unprinted = λ u. absurd (ground (arith, u));
        times = (times_at s ChildPc.reading inv at, l);
        told = rw (inv.unprinted (ap has_read at)) tt;
        done = λ x. absurd (ground (arith, x));
      }

  text_written :
      (wrote : Bool) (clock stamp : ℕ) (pipe : Bytes) (data' : Option Bytes)
      → IsWritten k wrote ChildPc.printing clock stamp pipe data'
      → as_text data' ≡ (if wrote then some (message k stamp) else none)
  text_written true clock stamp pipe data' (u, v, l, n) =
      ap as_text (v refl) ∙ ap some (c_string-received source k.pid (k.local_time stamp))
  text_written false clock stamp pipe data' (p, d, l) = ap as_text d

  pub text_at :
      (p : ParentPc) (wrote end_open : Bool) (clock stamp : ℕ) (pipe : Bytes) (data' : Option Bytes)
      → IsSent k (phase p wrote) ChildPc.printing end_open clock stamp pipe data'
      → as_text data' ≡ (if wrote then some (message k stamp) else none)
  text_at ParentPc.piping wrote end_open clock stamp pipe data' h = absurd (ground (arith, h.1))
  text_at ParentPc.forking wrote end_open clock stamp pipe data' h = absurd (ground (arith, h.1))
  text_at ParentPc.failed wrote end_open clock stamp pipe data' h = absurd (ground (arith, h.1))
  text_at ParentPc.timing wrote end_open clock stamp pipe data' h = absurd (ground (arith, h.1))
  text_at ParentPc.writing wrote end_open clock stamp pipe data' h = absurd (ground (arith, h.1))
  text_at _ wrote end_open clock stamp pipe data' h = text_written wrote clock stamp pipe data' h
