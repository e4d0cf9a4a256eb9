-- ===== src/Daemon/Logs.antt =====
-- One bounded read of the engine's log (internal/daemon/logs.go).
pub mod Slice
pub mod Read
pub mod Follow
use spinloop.Prelude.{
  ℕ, zero, suc, ◌+◌, ◌-◌, String, Bool, true, false, not, List, [], ◌∷◌, Option, none, some,
  if◌then◌else◌, ltb, ◌==◌, ◌&&◌, length, take, drop,
}
use spinloop.Prelude.Int.{ℤ, pos, negsuc}
use spinloop.Prelude.Result.{Result, ok, err}
use spinloop.Fleet.Tags.{is_empty}

abbrev pub default_log_read : ℕ
default_log_read = 65536

abbrev pub max_log_read : ℕ
max_log_read = 262144

pub record LogsResponse : Type 0 where
  pub content : List ℕ
  pub next_offset : ℕ
  pub size : ℕ
  pub path : String
  pub missing : Bool
  pub stale_offset : Bool

-- Which of the calls on the file failed.
pub data LogError : Type 0 where
  not_opened not_measured not_read : LogError

-- The file at the path: not there, one that cannot be opened or measured, or its bytes, with whether
-- a read of them succeeds.
pub data LogFile : Type 0 where
  absent unopened unmeasured : LogFile
  holds : Bool → List ℕ → LogFile

unfoldable pub clamp_log_read : ℤ → ℕ
clamp_log_read (negsuc n) = default_log_read
clamp_log_read (pos n) =
    if n == 0 then default_log_read else if ltb max_log_read n then max_log_read else n

-- Where the read starts, and whether it is one of the file's end: `negsuc 0` is `TailLog`.
unfoldable pub start_of : ℤ → ℕ → ℕ → ℕ × Bool
start_of (pos n) size limit = (n, false)
start_of (negsuc zero) size limit = (size - limit, true)
start_of (negsuc (suc n)) size limit = (0, false)

-- bytes.IndexByte(buf, '\n')
unfoldable pub first_newline : List ℕ → Option ℕ
first_newline [] = none
first_newline (c ∷ buf) =
    if c == 10 then some 0 else elim (first_newline buf) [ none ↦ none | some i ↦ some (suc i) ]

-- bytes.LastIndexByte(buf, '\n')
unfoldable pub last_newline : List ℕ → Option ℕ
last_newline [] = none
last_newline (c ∷ buf) = elim (last_newline buf) [
  | some i ↦ some (suc i)
  | none ↦ if c == 10 then some 0 else none
]

-- The fragment of a line that a read of the end begins with is dropped.
skip_fragment : ℕ → List ℕ → Option ℕ → ℕ × List ℕ
skip_fragment start buf none = (start, buf)
skip_fragment start buf (some i) = (start + suc i, drop (suc i) buf)

unfoldable pub trim_front : Bool → ℕ → List ℕ → ℕ × List ℕ
unfolding skip_fragment
trim_front tail start buf =
    if tail && ltb 0 start then skip_fragment start buf (first_newline buf) else (start, buf)

cut_behind : List ℕ → Option ℕ → List ℕ
cut_behind buf none = buf
cut_behind buf (some i) = take (suc i) buf

-- A read that stops short of the file's end gives whole lines, where it holds one.
unfoldable pub whole_lines : ℕ → ℕ → List ℕ → List ℕ
unfolding cut_behind
whole_lines size start buf =
    if ltb (start + length buf) size then cut_behind buf (last_newline buf) else buf

unfoldable pub reply : String → ℕ → ℕ × List ℕ → LogsResponse
reply path size (start, buf) = record {
  content = whole_lines size start buf;
  next_offset = start + length (whole_lines size start buf);
  size = size;
  path = path;
  missing = false;
  stale_offset = false;
}

abbrev pub missing_log : String → LogsResponse
missing_log path = record {
  content = [];
  next_offset = 0;
  size = 0;
  path = path;
  missing = true;
  stale_offset = false;
}

abbrev pub stale_log : String → ℕ → LogsResponse
stale_log path size = record {
  content = [];
  next_offset = size;
  size = size;
  path = path;
  missing = false;
  stale_offset = true;
}

-- The bytes of the file from `start`, as many as the limit allows: none of them are asked for where
-- there are none.
read_from : String → Bool → List ℕ → ℕ → ℕ × Bool → Result LogError LogsResponse
unfolding trim_front reply
read_from path reads bytes limit (start, tail) =
    if ltb (length bytes) start
    then ok (stale_log path (length bytes))
    else if ltb start (length bytes) && not reads
    then err not_read
    else ok (reply path (length bytes) (trim_front tail start (take limit (drop start bytes))))

read_file : String → ℤ → ℤ → LogFile → Result LogError LogsResponse
unfolding read_from start_of
read_file path offset limit absent = ok (missing_log path)
read_file path offset limit unopened = err not_opened
read_file path offset limit unmeasured = err not_measured
read_file path offset limit (holds reads bytes) =
    read_from path reads bytes (clamp_log_read limit)
      (start_of offset (length bytes) (clamp_log_read limit))

unfoldable pub read_log : String → ℤ → ℤ → LogFile → Result LogError LogsResponse
unfolding read_file
read_log path offset limit file =
    if is_empty path then ok (missing_log "") else read_file path offset limit file
