-- ===== src/App/Files/Saved.antt =====
-- About what SaveGoFile of internal/app/app.go writes.
use gopoke.Base.{
  ℕ, ◌≡◌, refl, sym, Bool, true, Option, none, some, List, [], ◌∷◌, All, Bool-cases, inl, inr, take,
  length, take-all, arith, Result, ok, err, CtxError,
}
use gopoke.Text.{Text}
use gopoke.App.Paths
use gopoke.App.Paths.{System, resolve_input_path}
use gopoke.App.Files.{
  Error, Write, complete, not_opened, cut, Disk, is_go_file, write_file, save_found, save_at,
  save_go_file,
}

-- The file is a Go file that was there, and it then holds the content that was given, or the start of
-- it.
pub record IsStart (disk : Disk) (content : Text) (w : Text × Text) : Type 0 where
  pub go_file : is_go_file w.0 ≡ true
  pub exists : (is_dir : Bool) × (disk.stat w.0 ≡ some is_dir)
  pub start : (n : ℕ) × (w.1 ≡ take n content)

-- What a call has come to: its result, and the files that it has changed.
abbrev pub Outcome : Type 0
Outcome = Result Error (Unit {0}) × List (Text × Text)

-- Every file that is changed is saved, and a call that succeeds has put the whole content into one file.
pub record IsSaved (disk : Disk) (content : Text) (r : Outcome) : Type 0 where
  pub saved : All (IsStart disk content) r.1
  pub whole : r.0 ≡ ok tt → (full : Text) × (r.1 ≡ (full, content) ∷ [])

module _ (sys : System) (disk : Disk) (content : Text) where
  refused-IsSaved : (e : Error) → IsSaved disk content (err e, [])
  refused-IsSaved e = record { saved = tt; whole = λ h. cc }

  write_file-IsSaved :
      (w : Write) (full : Text) (is_dir : Bool)
      → is_go_file full ≡ true
      → disk.stat full ≡ some is_dir
      → IsSaved disk content (write_file w full content)
  write_file-IsSaved complete full is_dir g e = record {
    saved = (
      record {
        go_file = g;
        exists = (is_dir, e);
        start = (length content, sym (take-all (length content) content (omega arith)));
      },
      tt,
    );
    whole = λ h. (full, refl);
  }
  write_file-IsSaved not_opened full is_dir g e = refused-IsSaved Error.write_failed
  write_file-IsSaved (cut n) full is_dir g e = record {
    saved = (record { go_file = g; exists = (is_dir, e); start = (n, refl) }, tt);
    whole = λ h. cc;
  }

  save_found-IsSaved :
      (full : Text) (o : Option Bool)
      → is_go_file full ≡ true
      → disk.stat full ≡ o
      → IsSaved disk content (save_found disk full content o)
  save_found-IsSaved full none g e = refused-IsSaved Error.must_exist
  save_found-IsSaved full (some is_dir) g e = write_file-IsSaved (disk.write full) full is_dir g e

  save_at-IsSaved : (r : Result Paths.Error Text) → IsSaved disk content (save_at disk content r)
  save_at-IsSaved (err e) = refused-IsSaved (Error.path e)
  save_at-IsSaved (ok full) = elim (Bool-cases (is_go_file full)) [
    | inl g ↦ rw g (save_found-IsSaved full (disk.stat full) g refl)
    | inr g ↦ rw g (refused-IsSaved Error.go_extension_required)
  ]

  -- SaveGoFile never makes a file: a file that it changes ends in .go and is one that os.Stat has found,
  -- and then holds the given content or, after a write that has failed, the start of it. When it
  -- succeeds, one file holds the whole content.
  pub save_go_file-IsSaved :
      (ctx : Option CtxError) (file_path : Text)
      → IsSaved disk content (save_go_file sys disk ctx file_path content)
  unfolding save_go_file
  save_go_file-IsSaved (some e) file_path = refused-IsSaved (Error.context e)
  save_go_file-IsSaved none file_path = save_at-IsSaved (resolve_input_path sys file_path)
