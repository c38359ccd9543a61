-- ===== src/Archiver/Growth.antt =====
-- lab5/archiver.c: a file that has grown at its end, and no other has changed.
use operation_systems_mirea.Base.{
  ◌≡◌, ◌≢◌, ◌<◌, refl, sym, ap, ◌∙◌, [], ◌++◌, append-nil, append_assoc, some, arith,
}
use operation_systems_mirea.Base.Text.{Bytes}
use operation_systems_mirea.Archiver.Files.{Disk, File, put}
use operation_systems_mirea.Archiver.Entry.{buffer_size}
use operation_systems_mirea.Archiver.Members.{put_self, put-other}

-- The file has the bytes of `g` with `more` at its end, and no other file has changed.
abbrev pub Grown : Disk → Bytes → File → Bytes → Disk → Type 0
Grown d archive g more d' =
    (d' archive ≡ some (record g { contents = g.contents ++ more }))
    × ((other : Bytes) → other ≢ archive → d' other ≡ d other)

pub Grown-trans :
    (d d1 d2 : Disk) (archive : Bytes) (g : File) (a b : Bytes)
    → Grown d archive g a d1
    → Grown d1 archive (record g { contents = g.contents ++ a }) b d2
    → Grown d archive g (a ++ b) d2
Grown-trans d d1 d2 archive g a b (now, others) (now', others') = (
  now' ∙ ap (λ c. some (record g { contents = c })) (append_assoc g.contents a b),
  λ other ne. others' other ne ∙ others other ne,
)

pub Grown-put :
    (d : Disk) (archive : Bytes) (g : File) (a : Bytes)
    → Grown d archive g a (put d archive (some (record g { contents = g.contents ++ a })))
Grown-put d archive g a = (put_self d archive _, λ other ne. put-other d archive other _ ne)

pub buffer_size_pos : 0 < buffer_size
unfolding buffer_size
buffer_size_pos = omega arith

pub Grown-none :
    (d : Disk) (archive : Bytes) (g : File) → d archive ≡ some g → Grown d archive g [] d
Grown-none d archive g there = (
  there ∙ ap (λ c. some (record g { contents = c })) (sym (append-nil g.contents)),
  λ other _. refl,
)
