-- ===== src/Download/Extract/Inside.antt =====
-- About the places that extractTarGz of internal/download/gosdk.go writes to.
use gopoke.Base.{◌≡◌, Bool, true, false, List, [], ◌∷◌, ◌++◌, All, All-append, Bool-cases, inl, inr}
use gopoke.Text.{Text}
use gopoke.Text.FilePath.{is_abs, parts, join}
use gopoke.Text.FilePath.Laws.{IsElement, parts-IsElement, parts-of_has_prefix, is_abs-clean}
use gopoke.Download.Extract.{
  Entry, Flag, type_dir, type_reg, type_other, Fault, no_fault, next, mkdir, open_file, copy,
  Written, path_of, is_inside, make, extract_entry, is_next, go_on, extract_tar_gz,
}

-- The path lies in the directory: its elements are those of the directory and more, and none of
-- them is "..".
pub record IsInside (dest path : Text) : Type 0 where
  pub rooted : is_abs path ≡ true
  pub below : (rest : List Text) × (parts path ≡ parts dest ++ rest)
  pub plain : All IsElement (parts path)

is_abs-join : (dest name : Text) → is_abs dest ≡ true → is_abs (join dest name) ≡ true
unfolding join is_abs
is_abs-join [] name h = absurd (false_true h)
  where
    false_true : false ≡ true → ⊥
    false_true e = cc e
is_abs-join (c ∷ s) [] h = is_abs-clean (c ∷ s) h
is_abs-join (c ∷ s) (d ∷ t) h = is_abs-clean (c ∷ s ++ b'/' ∷ d ∷ t) h

module _ (dest : Text) (rooted : is_abs dest ≡ true) where
  target-IsInside :
      (target : Text) → is_abs target ≡ true → is_inside dest target ≡ true → IsInside dest target
  target-IsInside target h inside = record {
    rooted = h;
    below = parts-of_has_prefix dest target rooted h inside;
    plain = parts-IsElement target h;
  }

  make-IsInside :
      (target content : Text) (flag : Flag) (fault : Fault)
      → IsInside dest target
      → All (λ w. IsInside dest (path_of w)) (make target content flag fault).0
  make-IsInside target content type_dir no_fault h = (h, tt)
  make-IsInside target content type_dir next h = (h, tt)
  make-IsInside target content type_dir mkdir h = tt
  make-IsInside target content type_dir open_file h = (h, tt)
  make-IsInside target content type_dir copy h = (h, tt)
  make-IsInside target content type_reg no_fault h = (h, tt)
  make-IsInside target content type_reg next h = tt
  make-IsInside target content type_reg mkdir h = tt
  make-IsInside target content type_reg open_file h = tt
  make-IsInside target content type_reg copy h = (h, tt)
  make-IsInside target content type_other fault h = tt

  entry-IsInside : (e : Entry) → All (λ w. IsInside dest (path_of w)) (extract_entry dest e).0
  entry-IsInside e = elim (Bool-cases (is_inside dest (join dest e.name))) [
    | inl h ↦ rw h (
        make-IsInside (join dest e.name) e.content e.flag e.fault
          (target-IsInside (join dest e.name) (is_abs-join dest e.name rooted) h))
    | inr h ↦ rw h tt
  ]

  go_on-IsInside :
      (p q : List Written × Bool)
      → All (λ w. IsInside dest (path_of w)) p.0
      → All (λ w. IsInside dest (path_of w)) q.0
      → All (λ w. IsInside dest (path_of w)) (go_on p q).0
  go_on-IsInside (made, true) (rest, done) a b =
      All-append (λ w. IsInside dest (path_of w)) made rest a b
  go_on-IsInside (made, false) (rest, done) a b = a

  -- Whatever the names in an archive are, and whatever fails: everything that is extracted from it
  -- into a directory with an absolute path lies in that directory, and no ".." leads out of it.
  pub extract_tar_gz-IsInside :
      (es : List Entry) → All (λ w. IsInside dest (path_of w)) (extract_tar_gz dest es).0
  unfolding extract_tar_gz
  extract_tar_gz-IsInside [] = tt
  extract_tar_gz-IsInside (e ∷ es) = elim (Bool-cases (is_next e.fault)) [
    | inl h ↦ rw h tt
    | inr h ↦ rw h (
        go_on-IsInside (extract_entry dest e) (extract_tar_gz dest es) (entry-IsInside e)
          (extract_tar_gz-IsInside es))
  ]
