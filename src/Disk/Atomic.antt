-- ===== src/Disk/Atomic.antt =====
-- A write beside a file and a rename to it replace the file or leave it alone, whatever fails.
use flashaccess.Base.{
  Text, text_eq, text_eq_iff, text_eq_refl, codes, false, Option, none, some, List, Result, ok, err,
  find, put, remove, find-put, find-remove, length, length-append, ◌≡◌, ◌≢◌, refl, ◌∙◌, ap, arith,
  Bool-cases, inl, inr, ◌⊎◌,
}
use flashaccess.Disk.{
  Disk, IoOutcome, done, fails, IoError, io_error, tmp_path, written, moved, renamed,
  write_atomically,
}

-- How a save ends for the file at `path`: it holds the new text, and success is reported; or it is
-- as it was, and an error is.
abbrev pub Saved : Text → Text → Disk → Result IoError (Unit {0}) × Disk → Type 0
Saved path content d (r, d') =
    ((r ≡ ok tt) × (find path d'.files ≡ some content))
    ⊎ ((r ≡ err io_error) × (find path d'.files ≡ find path d.files))

tmp_is_other : (path : Text) → text_eq (tmp_path path) path ≡ false
tmp_is_other path = elim (Bool-cases (text_eq (tmp_path path) path)) [
  | inl e ↦
      let same : tmp_path path ≡ path = (text_eq_iff (tmp_path path) path).0 e in
      absurd (omega (arith, length-append path (codes ".tmp"), ap length same))
  | inr e ↦ e
]

moved-Saved :
    (o : IoOutcome) (path content : Text) (d d1 : Disk)
    → find path d1.files ≡ find path d.files
    → Saved path content d (moved o (some content) (tmp_path path) path d1)
moved-Saved done path content d d1 e = inl (refl, rw find-put (rw text_eq_refl refl))
moved-Saved (fails _) path content d d1 e = inr (refl, e)

find_beside_tmp :
    (path content : Text) (files : List (Text × Text))
    → find path (put (tmp_path path) content files) ≡ find path files
find_beside_tmp path content files = rw find-put (rw tmp_is_other refl)

renamed-Saved :
    (o : IoOutcome) (path content : Text) (d : Disk)
    → Saved path content d (renamed path (written o (tmp_path path) content d))
renamed-Saved done path content d =
    rw find-put
      (rw text_eq_refl (moved-Saved _ path content d _ (find_beside_tmp path content d.files)))
renamed-Saved (fails left) path content d = inr (refl, find_beside_tmp path left d.files)

pub write_atomically-Saved :
    (path content : Text) (d : Disk) → Saved path content d (write_atomically path content d)
unfolding write_atomically
write_atomically-Saved path content d = renamed-Saved _ path content d

-- a path that is neither the file nor the one beside it
abbrev pub IsElsewhere : Text → Text → Type 0
IsElsewhere path j = (path ≢ j) × (tmp_path path ≢ j)

ne-text_eq : (a b : Text) → a ≢ b → text_eq a b ≡ false
ne-text_eq a b n = ground (arith, text_eq_iff a b, n)

pub find-put_elsewhere :
    (path j content : Text) (files : List (Text × Text))
    → path ≢ j
    → find j (put path content files) ≡ find j files
find-put_elsewhere path j content files n = rw find-put (rw (ne-text_eq path j n) refl)

moved_elsewhere :
    (o : IoOutcome) (c : Option Text) (from to j : Text) (d : Disk)
    → from ≢ j
    → to ≢ j
    → find j (moved o c from to d).1.files ≡ find j d.files
moved_elsewhere done none from to j d f t = refl
moved_elsewhere done (some content) from to j d f t =
    find-put_elsewhere to j content (remove from d.files) t
    ∙ rw find-remove (rw (ne-text_eq from j f) refl)
moved_elsewhere (fails _) c from to j d f t = refl

renamed_elsewhere :
    (o : IoOutcome) (path content j : Text) (d : Disk)
    → IsElsewhere path j
    → find j (renamed path (written o (tmp_path path) content d)).1.files ≡ find j d.files
renamed_elsewhere done path content j d (a, b) =
    moved_elsewhere _ _ (tmp_path path) path j _ b a
    ∙ find-put_elsewhere (tmp_path path) j content d.files b
renamed_elsewhere (fails left) path content j d (a, b) =
    find-put_elsewhere (tmp_path path) j left d.files b

-- No other file is touched.
pub write_atomically_elsewhere :
    (path content j : Text) (d : Disk)
    → IsElsewhere path j
    → find j (write_atomically path content d).1.files ≡ find j d.files
unfolding write_atomically
write_atomically_elsewhere path content j d h = renamed_elsewhere _ path content j d h
