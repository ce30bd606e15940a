-- ===== src/Server/Scheduler/Failures.antt =====
-- server/scheduler/scheduler.go: which failures are worth another attempt (`simpleRegex`,
-- `verifyFailureMessage`). Of regular expressions the patterns use literal text and the `.` that
-- stands for any character but a line break; `dow(n)?load` is written as its two readings.
use Prim.Native.Char.{code}
use transcoderd.Prelude.{
  ℕ, ◌+◌, ◌≡◌, refl, Bool, true, false, ◌&&◌, ◌||◌, not, List, [], ◌∷◌, String, str_eq, ◌==◌, leb,
  if◌then◌else◌,
}

abbrev codes : String → List ℕ
codes String.[] = []
codes (String.◌∷◌ c s) = code c ∷ codes s

-- `strings.ToLower`, on ASCII letters.
lower : ℕ → ℕ
lower c = if leb b'A' c && leb c b'Z' then c + 32 else c

matches_char : ℕ → ℕ → Bool
unfolding lower
matches_char p c = if p == b'.' then not (c == 10) else lower p == lower c

matches_prefix : List ℕ → List ℕ → Bool
matches_prefix [] s = true
matches_prefix (p ∷ ps) [] = false
matches_prefix (p ∷ ps) (c ∷ s) = matches_char p c && matches_prefix ps s

matches_somewhere : List ℕ → List ℕ → Bool
matches_somewhere ps [] = matches_prefix ps []
matches_somewhere ps (c ∷ s) = matches_prefix ps (c ∷ s) || matches_somewhere ps s

unfoldable pub simple_regex : String → String → Bool
unfolding matches_char matches_prefix matches_somewhere
simple_regex pattern message = matches_somewhere (codes pattern) (codes message)

-- One `if` of `verifyFailureMessage`: a test of the message and what is returned where it passes.
pub data Rule : Type 0 where
  contains : String → Bool → Rule
  equals : String → Bool → Rule

abbrev pub applies : Rule → String → Bool
applies (contains pattern verdict) message = simple_regex pattern message
applies (equals text verdict) message = str_eq message text

abbrev pub verdict_of : Rule → Bool
verdict_of (contains pattern verdict) = verdict
verdict_of (equals text verdict) = verdict

abbrev pub rules : List Rule
rules =
    contains "job not found" false
    ∷ contains "runtime error: index out of range" false
    ∷ contains "not 200 respose in dowload code 404" false
    ∷ contains "source File size " false
    ∷ contains "source File duration " false
    ∷ contains "Disk quota exceeded" true
    ∷ contains "No space left on device" true
    ∷ contains "MKVExtract unexpected error" true
    ∷ contains "dowload code 500" true
    ∷ contains "download code 500" true
    ∷ equals "exit status 1: stder: stdout:" true
    ∷ contains "runtime error: invalid memory address or nil pointer dereference" true
    ∷ contains "CHecksum error on download source" true
    ∷ contains "maybe incorrect parameters such as bit_rate" true
    ∷ contains "Could not find codec parameters for stream" true
    ∷ contains "GLIBC_2.34 not found" true
    ∷ contains "libc.so.6: version" true
    ∷ contains "received signal 15" true
    ∷ contains "no such host" true
    ∷ contains "server misbehaving" true
    ∷ contains "i/o timeout" true
    ∷ contains "connection failed because connected host has failed to respond" true
    ∷ contains "connection refused" true
    ∷ contains "with 0 items" false
    ∷ contains "Subtitle: mov_text" true
    ∷ contains "unsupported AVCodecID S_TEXT/WEBVTT" true
    ∷ contains "Errorf while decoding stream" false
    ∷ contains "Data: bin_data" false
    ∷ contains "scale/rate is 0/0 which is invalid" false
    ∷ contains "probably corrupt input" false
    ∷ []

-- The first test that passes decides, and no failure is retried by default.
unfoldable pub first_verdict : List Rule → String → Bool
first_verdict [] message = false
first_verdict (r ∷ rs) message =
    let rest = first_verdict rs message in if applies r message then verdict_of r else rest

unfoldable pub verify_failure_message : String → Bool
unfolding first_verdict simple_regex
verify_failure_message message = first_verdict rules message

-- The worker's wording of a failed download.
download_is_retried : verify_failure_message "Download:not 200 respose in download code 500" ≡ true
unfolding verify_failure_message
download_is_retried = refl
