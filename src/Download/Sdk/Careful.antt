-- ===== src/Download/Sdk/Careful.antt =====
-- About what DownloadGoSDK of internal/download/gosdk.go does to the target directory.
use gopoke.Base.{
  ℕ, ◌≡◌, ◌≢◌, refl, Bool, true, false, none, List, [], ◌++◌, All, if◌then◌else◌, ◌==◌,
}
use gopoke.Base.Int.{ℤ}
use gopoke.Text.{Text, codes, text_eq}
use gopoke.Text.FilePath.{is_abs}
use gopoke.Download.Progress.{Progress}
use gopoke.Download.Extract.{path_of, extract_tar_gz}
use gopoke.Download.Extract.Inside.{IsInside, extract_tar_gz-IsInside}
use gopoke.Download.Sdk.{
  response, Ending, reading, done, stopped, receive, message_of, begun, Host, Done, Error, only,
  Received, left_temp, extraction, install, after_loop, past_reply, with_reply, download_go_sdk,
}

-- What a call extracts lies in the target directory, and without a whole download nothing is touched
-- there. The file in os.TempDir is gone when the loop has ended, if it can be removed.
pub record IsCareful (host : Host) (target : Text) (ending : Ending) (d : Done) : Type 0 where
  pub inside : All (λ w. IsInside target (path_of w)) d.written
  pub untouched : ending ≢ done → (d.removed ≡ []) × (d.written ≡ [])
  pub temporary : host.remove_ok ≡ true → ending ≢ reading → d.temp ≡ none

module _ (host : Host) (target : Text) (rooted : is_abs target ≡ true) (ending : Ending) where
  only-IsCareful :
      (e : Error) (events : List Progress) → IsCareful host target ending (only e events)
  only-IsCareful e events = record {
    inside = tt;
    untouched = λ n. (refl, refl);
    temporary = λ h n. refl;
  }

  IsCareful-if :
      (b : Bool) (c d : Done)
      → IsCareful host target ending c
      → IsCareful host target ending d
      → IsCareful host target ending (if b then c else d)
  IsCareful-if true c d h k = h
  IsCareful-if false c d h k = k

  extraction-IsInside :
      (content : List ℕ) → All (λ w. IsInside target (path_of w)) (extraction host target content).0
  extraction-IsInside content = go host.archive_ok
    where
      go :
          (b : Bool)
          → All
              (λ w. IsInside target (path_of w))
              (if b then extract_tar_gz target (host.entries content) else ([], false)).0
      go true = extract_tar_gz-IsInside target rooted (host.entries content)
      go false = tt

  install-IsCareful :
      (goos : Text) (events : List Progress) (content : List ℕ)
      → ending ≡ done
      → IsCareful host target ending (install host goos target events content)
  install-IsCareful goos events content e =
      IsCareful-if host.mkdir_ok _ _
        (IsCareful-if (text_eq goos (codes "windows")) _ _
          (record { inside = tt; untouched = λ n. absurd (n e); temporary = λ h n. refl })
          (record {
            inside = extraction-IsInside content;
            untouched = λ n. absurd (n e);
            temporary = λ h n. refl;
          }))
        (record { inside = tt; untouched = λ n. absurd (n e); temporary = λ h n. refl })

  after_loop-IsCareful :
      (goos : Text) (events : List Progress) (content : List ℕ) (x : Ending)
      → ending ≡ x
      → IsCareful host target ending (after_loop host goos target events content x)
  after_loop-IsCareful goos events content reading e = record {
    inside = tt;
    untouched = λ n. (refl, refl);
    temporary = λ h n. refl;
  }
  after_loop-IsCareful goos events content done e = install-IsCareful goos events content e
  after_loop-IsCareful goos events content (stopped x) e = only-IsCareful x events

left_temp-none :
    (host : Host) (r : Received) (e : Ending)
    → host.remove_ok ≡ true
    → e ≢ reading
    → left_temp host r e ≡ none
left_temp-none host r reading h n = absurd (n refl)
left_temp-none host r done h n = rw h refl
left_temp-none host r (stopped e) h n = rw h refl

past_reply-IsCareful :
    (host : Host) (goos target : Text) (events : List Progress) (r : Received)
    → is_abs target ≡ true
    → IsCareful host target r.ending (past_reply host goos target events r)
past_reply-IsCareful host goos target events r rooted =
    let c =
      after_loop-IsCareful host target rooted r.ending goos (events ++ r.events) r.content r.ending
        refl in
    record {
      inside = c.inside;
      untouched = c.untouched;
      temporary = left_temp-none host r r.ending;
    }

with_reply-IsCareful :
    (host : Host) (goos target message : Text) (events : List Progress) (status : ℕ) (total : ℤ)
    → is_abs target ≡ true
    → IsCareful host target
        (receive message total 0 host.rounds).ending
        (with_reply host goos target message events (response status total))
with_reply-IsCareful host goos target message events status total rooted =
    let r = receive message total 0 host.rounds in
    IsCareful-if host target rooted r.ending (status == 200) _ _
      (IsCareful-if host target rooted r.ending host.temp_ok _ _
        (past_reply-IsCareful host goos target events r rooted)
        (only-IsCareful host target rooted r.ending _ events))
      (only-IsCareful host target rooted r.ending _ events)

-- DownloadGoSDK with a response extracts nothing to a path outside the target directory, if that is
-- absolute; unless the body has been read to its end it leaves the SDK that is there as it is; and once
-- the loop has ended, its file in os.TempDir is gone, if that can be removed.
pub download_go_sdk-IsCareful :
    (host : Host) (goos goarch : Text) (status : ℕ) (total : ℤ) (version target : Text)
    → is_abs target ≡ true
    → IsCareful host target
        (receive (message_of version goos goarch) total 0 host.rounds).ending
        (download_go_sdk host goos goarch (response status total) version target)
unfolding download_go_sdk
download_go_sdk-IsCareful host goos goarch status total version target rooted =
    with_reply-IsCareful host goos target (message_of version goos goarch)
      (begun (message_of version goos goarch)) status total rooted
