-- ===== src/Download/Extract.antt =====
-- extractTarGz of internal/download/gosdk.go, over the entries that the tar reader gives. Each entry
-- comes with what the operating system answers to the calls made for it; `Written` are the
-- directories and files that the extraction makes, in their order.
pub mod Inside
use gopoke.Base.{ℕ, Bool, true, false, not, List, [], ◌∷◌, ◌++◌, Result, ok, err, if◌then◌else◌}
use gopoke.Text.{Text, codes, has_prefix}
use gopoke.Text.FilePath.{clean, join}

-- header.Typeflag
pub data Flag : Type 0 where
  type_dir type_reg type_other : Flag

-- The call that fails for an entry, if one does: reading its header, making a directory, opening
-- the file, or copying into it.
pub data Fault : Type 0 where
  no_fault next mkdir open_file copy : Fault

pub record Entry : Type 0 where
  pub name : Text
  pub flag : Flag
  pub content : Text
  pub fault : Fault

pub data Written : Type 0 where
  directory : Text → Written
  file : Text → Text → Written

abbrev pub path_of : Written → Text
path_of (directory path) = path
path_of (file path content) = path

-- The test against path traversal.
abbrev pub is_inside : Text → Text → Bool
is_inside dest target = has_prefix (clean target) (clean dest ++ codes "/")

-- What is made for an entry past the test, and whether the loop goes on. The directories above a
-- file are made too, and not listed. A copy that fails may leave a part of the file behind.
abbrev pub make : Text → Text → Flag → Fault → List Written × Bool
make target content type_dir mkdir = ([], false)
make target content type_dir fault = (directory target ∷ [], true)
make target content type_reg no_fault = (file target content ∷ [], true)
make target content type_reg copy = (file target content ∷ [], false)
make target content type_reg fault = ([], false)
make target content type_other fault = ([], true)

-- One round of the loop, for an entry whose header can be read.
abbrev pub extract_entry : Text → Entry → List Written × Bool
extract_entry dest e =
    let target = join dest e.name in
    if is_inside dest target then make target e.content e.flag e.fault else ([], true)

abbrev pub is_next : Fault → Bool
is_next next = true
is_next fault = false

abbrev pub go_on : List Written × Bool → List Written × Bool → List Written × Bool
go_on (made, true) (rest, done) = (made ++ rest, done)
go_on (made, false) (rest, done) = (made, false)

-- The loop of extractTarGz: what it makes, and whether it comes to the end of the archive.
unfoldable pub extract_tar_gz : Text → List Entry → List Written × Bool
unfolding clean join has_prefix
extract_tar_gz dest [] = ([], true)
extract_tar_gz dest (e ∷ es) =
    let rest = extract_tar_gz dest es in
    if is_next e.fault then ([], false) else go_on (extract_entry dest e) rest
