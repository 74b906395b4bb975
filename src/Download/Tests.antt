-- ===== src/Download/Tests.antt =====
-- Runs of the extraction and of the slots.
use gopoke.Base.{◌≡◌, refl, true, none, some, All, [], ◌∷◌, List}
use gopoke.Base.Int.{pos}
use gopoke.Text.{codes}
use gopoke.Text.FilePath.{is_abs}
use gopoke.Download.Extract.{
  Entry, type_dir, type_reg, no_fault, file, directory, path_of, extract_tar_gz,
}
use gopoke.Download.Extract.Inside.{IsInside, extract_tar_gz-IsInside}
use gopoke.Download.Install
use gopoke.Download.Sdk
use gopoke.Download.Sdk.{Round, more, eof, response, receive, message_of, download_go_sdk}
use gopoke.Download.Sdk.Written.{Agrees, receive-body}
use gopoke.Download.Sdk.Careful.{IsCareful, download_go_sdk-IsCareful}
use gopoke.Download.Slots.{Slot, new_manager, start_download, cancel_download}
use gopoke.Download.Slots.Laws.{fresh, started, cancel_download_running}

-- A directory, a file, and a file outside.
abbrev archive : List Entry
archive =
    record { name = codes "bin/"; flag = type_dir; content = []; fault = no_fault }
    ∷ record { name = codes "bin/go"; flag = type_reg; content = codes "x"; fault = no_fault }
    ∷ record { name = codes "../etc/x"; flag = type_reg; content = codes "y"; fault = no_fault }
    ∷ []

traversal_skipped :
    (extract_tar_gz (codes "/sdk") archive).0
    ≡ directory (codes "/sdk/bin") ∷ file (codes "/sdk/bin/go") (codes "x") ∷ []
unfolding extract_tar_gz
traversal_skipped = refl

extract_tar_gz-IsInside_example :
    All (λ w. IsInside (codes "/sdk") (path_of w)) (extract_tar_gz (codes "/sdk") archive).0
unfolding is_abs
extract_tar_gz-IsInside_example = extract_tar_gz-IsInside (codes "/sdk") refl archive

abbrev gopls : Slot
gopls = record { tool = codes "gopls"; cancel = 4 }

cancel_download_running_example :
    (cancel_download (codes "gopls") (start_download (codes "gopls") 4 new_manager).1).canceled
    ≡ 4 ∷ (start_download (codes "gopls") 4 new_manager).1.canceled
unfolding start_download
cancel_download_running_example =
    cancel_download_running (start_download (codes "gopls") 4 new_manager).1 [] [] gopls
      (started gopls refl fresh)

-- Three bytes in two reads, the last with the end of the body.
abbrev rounds : List Round
rounds =
    record { ctx = none; bytes = 1 ∷ 2 ∷ []; read_end = more; write_ok = true }
    ∷ record { ctx = none; bytes = 3 ∷ []; read_end = eof; write_ok = true }
    ∷ []

receive-body_example : Agrees 0 (1 ∷ 2 ∷ 3 ∷ []) (receive (codes "m") (pos 3) 0 rounds)
unfolding receive
receive-body_example = receive-body (codes "m") (pos 3) 0 rounds refl

abbrev sdk_host : Sdk.Host
sdk_host = record {
  temp_ok = true;
  remove_ok = true;
  rounds = rounds;
  mkdir_ok = true;
  archive_ok = true;
  entries = λ bytes. archive;
}

download_go_sdk-IsCareful_example :
    IsCareful sdk_host
      (codes "/sdk")
      (receive
        (message_of (codes "go1.22.0") (codes "linux") (codes "amd64"))
        (pos 3)
        0
        rounds).ending
      (download_go_sdk sdk_host
        (codes "linux")
        (codes "amd64")
        (response 200 (pos 3))
        (codes "go1.22.0")
        (codes "/sdk"))
unfolding is_abs
download_go_sdk-IsCareful_example =
    download_go_sdk-IsCareful sdk_host (codes "linux") (codes "amd64") 200 (pos 3)
      (codes "go1.22.0") (codes "/sdk") refl

-- On Windows the old SDK is gone before the archive is refused.
removed_first :
    (download_go_sdk sdk_host
      (codes "windows")
      (codes "amd64")
      (response 200 (pos 3))
      (codes "go1.22.0")
      (codes "/sdk")).removed
    ≡ codes "/sdk/go" ∷ []
unfolding download_go_sdk
removed_first = refl

abbrev tools : Install.Host
tools = record {
  mkdir_ok = true;
  pipe_ok = true;
  start_ok = true;
  wait_ok = true;
  stderr = codes "go: downloading x";
  environ = codes "GOBIN=/old" ∷ codes "HOME=/h" ∷ [];
}

installed :
    (Install.install_gopls tools
      (λ path. true)
      (codes "linux")
      (codes "/t")
      []
      1
      new_manager).0.started
    ≡ some record {
      program = codes "/t/go/bin/go";
      arguments = codes "install" ∷ codes "golang.org/x/tools/gopls@latest" ∷ [];
      environ = codes "HOME=/h" ∷ codes "GOBIN=/t/bin" ∷ [];
    }
unfolding Install.install_gopls
installed = refl
