-- ===== src/Download/Sdk.antt =====
-- ListGoVersions and DownloadGoSDK of internal/download/gosdk.go. What the HTTP client, the operating
-- system and the archive answer are arguments; a callback's calls are the list of its events.
pub mod Written
pub mod Careful
use gopoke.Base.{
  ℕ, ◌+◌, Bool, true, false, Option, none, some, List, [], ◌∷◌, ◌++◌, length, map, Result, ok, err,
  CtxError, ◌==◌, if◌then◌else◌,
}
use gopoke.Base.Int.{ℤ, pos}
use gopoke.Text.{Text, codes, text_eq}
use gopoke.Text.FilePath.{join}
use gopoke.Download.Progress.{Progress, nothing, full, calc_percent, stage_event}
use gopoke.Download.Extract
use gopoke.Download.Extract.{extract_tar_gz}

pub data Error : Type 0 where
  context : CtxError → Error
  request_failed no_response decode_failed : Error
  status_failed : ℕ → Error
  temp_failed write_failed read_failed mkdir_failed open_failed extract_failed : Error
  zip_not_implemented : Error

-- GoVersion; a goRelease has its files besides.
pub record GoVersion : Type 0 where
  pub version : Text
  pub stable : Bool

pub record GoRelease : Type 0 where
  pub version : Text
  pub stable : Bool
  pub files : List Text

-- The answer of http.Client.Do, with what a good response holds.
pub data Reply (A : Type 0) : Type 0 where
  no_request failed : Reply A
  response : ℕ → A → Reply A

abbrev pub version_of : GoRelease → GoVersion
version_of r = record { version = r.version; stable = r.stable }

abbrev pub decoded : Option (List GoRelease) → Result Error (List GoVersion)
decoded none = err decode_failed
decoded (some releases) = ok (map version_of releases)

-- ListGoVersions, over what json.Decode makes of the body.
unfoldable pub list_go_versions : Reply (Option (List GoRelease)) → Result Error (List GoVersion)
list_go_versions no_request = err request_failed
list_go_versions failed = err no_response
list_go_versions (response status body) =
    if status == 200 then decoded body else err (status_failed status)

-- What a read of the body comes to besides its bytes.
pub data ReadEnd : Type 0 where
  more eof read_error : ReadEnd

-- A round of the download loop: ctx.Err(), the bytes that Read gives, and whether they can be written.
pub record Round : Type 0 where
  pub ctx : Option CtxError
  pub bytes : List ℕ
  pub read_end : ReadEnd
  pub write_ok : Bool

-- How the loop stands after some rounds.
pub data Ending : Type 0 where
  reading done : Ending
  stopped : Error → Ending

-- The bytes of the temporary file, the events, and how the loop stands.
pub record Received : Type 0 where
  pub content : List ℕ
  pub events : List Progress
  pub ending : Ending

abbrev pub nothing_more : Ending → Received
nothing_more e = record { content = []; events = []; ending = e }

abbrev pub chunk_event : Text → ℤ → ℕ → Progress
chunk_event message total received = record {
  tool = codes "go";
  stage = codes "downloading";
  bytes_received = received;
  bytes_total = total;
  percent = calc_percent received total;
  message = message;
}

abbrev pub after_read : ReadEnd → Received → Received
after_read more rest = rest
after_read eof rest = nothing_more done
after_read read_error rest = nothing_more (stopped read_failed)

-- The branch `if n > 0`, and what follows it.
abbrev pub after_bytes : Text → ℤ → ℕ → Round → Received → Received
after_bytes message total received r rest = record {
  content = r.bytes ++ (after_read r.read_end rest).content;
  events =
      chunk_event message total (received + length r.bytes) ∷ (after_read r.read_end rest).events;
  ending = (after_read r.read_end rest).ending;
}

abbrev pub with_bytes : Text → ℤ → ℕ → List ℕ → Round → Received → Received
with_bytes message total received [] r rest = after_read r.read_end rest
with_bytes message total received (b ∷ bs) r rest =
    if r.write_ok
    then after_bytes message total received r rest
    else nothing_more (stopped write_failed)

abbrev pub alive_round : Text → ℤ → ℕ → Round → Option CtxError → Received → Received
alive_round message total received r (some e) rest = nothing_more (stopped (context e))
alive_round message total received r none rest = with_bytes message total received r.bytes r rest

-- The download loop over its rounds, with the bytes received before.
unfoldable pub receive : Text → ℤ → ℕ → List Round → Received
unfolding calc_percent
receive message total received [] = nothing_more reading
receive message total received (r ∷ rs) =
    alive_round message total received r r.ctx
      (receive message total (received + length r.bytes) rs)

-- What DownloadGoSDK meets past the response: whether the temporary file can be made and, at the end,
-- removed, the rounds, os.MkdirAll, whether the archive can be opened, and the entries in the archive
-- with those bytes.
pub record Host : Type 0 where
  pub temp_ok : Bool
  pub remove_ok : Bool
  pub rounds : List Round
  pub mkdir_ok : Bool
  pub archive_ok : Bool
  pub entries : List ℕ → List Extract.Entry

-- What a call has done: its result (none while it downloads), its events, the directory it has removed,
-- what it has extracted, and the content of its file in os.TempDir, if that is there.
pub record Done : Type 0 where
  pub result : Option (Result Error (Unit {0}))
  pub events : List Progress
  pub removed : List Text
  pub written : List Extract.Written
  pub temp : Option (List ℕ)

abbrev pub only : Error → List Progress → Done
only e events = record {
  result = some (err e);
  events = events;
  removed = [];
  written = [];
  temp = none;
}

abbrev pub extracted : List Extract.Written × Bool → Result Error (Unit {0})
extracted (w, true) = ok tt
extracted (w, false) = err extract_failed

abbrev pub extraction : Host → Text → List ℕ → List Extract.Written × Bool
extraction host target content =
    if host.archive_ok then extract_tar_gz target (host.entries content) else ([], false)

-- Past the loop: the directory of the old SDK is removed, and the archive is extracted.
abbrev pub install : Host → Text → Text → List Progress → List ℕ → Done
install host goos target events content =
    let before : Done = record {
      result = some (err mkdir_failed);
      events =
          events
          ++ stage_event (codes "go") (codes "extracting") full (codes "Extracting Go SDK...") ∷ [];
      removed = join target (codes "go") ∷ [];
      written = [];
      temp = none;
    } in
    let made = extraction host target content in
    if host.mkdir_ok
    then (if text_eq goos (codes "windows")
        then record before { result = some (err zip_not_implemented) }
        else record before { result = some (extracted made); written = made.0 })
    else before

abbrev pub after_loop : Host → Text → Text → List Progress → List ℕ → Ending → Done
after_loop host goos target events content reading = record {
  result = none;
  events = events;
  removed = [];
  written = [];
  temp = none;
}
after_loop host goos target events content done = install host goos target events content
after_loop host goos target events content (stopped e) = only e events

-- The temporary file, which the deferred os.Remove takes away.
abbrev pub left_temp : Host → Received → Ending → Option (List ℕ)
left_temp host r reading = some r.content
left_temp host r done = if host.remove_ok then none else some r.content
left_temp host r (stopped e) = if host.remove_ok then none else some r.content

abbrev pub past_reply : Host → Text → Text → List Progress → Received → Done
past_reply host goos target events r =
    record (after_loop host goos target (events ++ r.events) r.content r.ending) {
      temp = left_temp host r r.ending;
    }

abbrev pub archive_name : Text → Text → Text → Text
archive_name version goos goarch =
    version
    ++ codes "."
    ++ goos
    ++ codes "-"
    ++ goarch
    ++ (if text_eq goos (codes "windows") then codes ".zip" else codes ".tar.gz")

-- The message of the events of a download, and the first of them.
abbrev pub message_of : Text → Text → Text → Text
message_of version goos goarch =
    codes "Downloading " ++ archive_name version goos goarch ++ codes "..."

abbrev pub begun : Text → List Progress
begun message = stage_event (codes "go") (codes "downloading") nothing message ∷ []

abbrev pub with_reply : Host → Text → Text → Text → List Progress → Reply ℤ → Done
with_reply host goos target message events no_request = only request_failed events
with_reply host goos target message events failed = only no_response events
with_reply host goos target message events (response status total) =
    let loop = past_reply host goos target events (receive message total 0 host.rounds) in
    if status == 200
    then (if host.temp_ok then loop else only temp_failed events)
    else only (status_failed status) events

-- DownloadGoSDK, with runtime.GOOS and runtime.GOARCH; the reply has its ContentLength.
unfoldable pub download_go_sdk : Host → Text → Text → Reply ℤ → Text → Text → Done
unfolding receive extract_tar_gz join text_eq
download_go_sdk host goos goarch reply version target =
    let message = message_of version goos goarch in
    with_reply host goos target message (begun message) reply
