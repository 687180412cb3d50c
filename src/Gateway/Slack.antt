-- ===== src/Gateway/Slack.antt =====
-- internal/gateway/slack/verify.go: `verifySlackRequest`. An int64 is its two's complement below
-- 2 ^ 64, and a `time.Duration` too, in nanoseconds.
pub mod Fresh
pub mod Bot
use Prim.Native.String
use Prim.Native.String.{len}
use hermes_manager.Prelude.{
  ℕ, ◌+◌, ◌-◌, ◌*◌, ◌%◌, ◌^◌, String, Bool, true, false, Option, none, some, Result, ok, err, ◌==◌,
  ◌||◌, ltb, if◌then◌else◌,
}

-- What the function calls of Go's library.
pub record SlackLibrary : Type 0 where
  -- `strconv.ParseInt` of 64 bits
  pub parse_int : String → Option ℕ
  -- `float64` of an integer's absolute value, and back to an int64
  pub through_float : ℕ → ℕ
  -- HMAC-SHA256 under a secret, in hexadecimal digits
  pub hmac : String → String → String

-- The part of the request that is read: the two headers, and what `io.ReadAll` makes of the body,
-- cut off behind one byte more than the largest size.
pub record SlackRequest : Type 0 where
  pub timestamp : String
  pub signature : String
  pub body : Result String

-- The body, or the status and the text of the refusal.
pub data Verdict : Type 0 where
  accepted : String → Verdict
  refused : ℕ → String → Verdict

abbrev pub max_slack_body_size : ℕ
max_slack_body_size = 2 ^ 20

abbrev pub max_timestamp_age : ℕ
max_timestamp_age = 300000000000

-- `math.Abs` of the difference `now - ts` of two int64.
unfoldable pub distance : ℕ → ℕ → ℕ
distance now ts = let d = (now + 2 ^ 64 - ts) % 2 ^ 64 in if ltb d (2 ^ 63) then d else 2 ^ 64 - d

-- A limit in nanoseconds, below a duration that is not negative.
unfoldable pub exceeds_age : ℕ → ℕ → Bool
exceeds_age age limit = if ltb age (2 ^ 63) then ltb limit age else false

abbrev pub text_of : String → String → String
text_of timestamp body = String.◌++◌ "v0:" (String.◌++◌ timestamp (String.◌++◌ ":" body))

module _ (lib : SlackLibrary) where
  unfoldable pub is_too_old : ℕ → ℕ → Bool
  is_too_old now ts =
      exceeds_age ((lib.through_float (distance now ts) * 1000000000) % 2 ^ 64) max_timestamp_age

  unfoldable pub expected_signature : String → String → String → String
  expected_signature secret timestamp body =
      String.◌++◌ "v0=" (lib.hmac secret (text_of timestamp body))

  -- The reading of the body, in both modes.
  unfoldable pub read_body : Result String → (String → Verdict) → Verdict
  read_body (err e) next = refused 400 "failed to read body"
  read_body (ok body) next =
      if ltb max_slack_body_size (len body) then refused 413 "request body too large" else next body

  unfoldable pub check_signature : String → SlackRequest → String → Verdict
  check_signature secret r body =
      if r.signature == expected_signature secret r.timestamp body
      then accepted body
      else refused 401 "invalid signature"

  unfoldable pub check_age : String → ℕ → SlackRequest → Option ℕ → Verdict
  check_age secret now r none = refused 400 "invalid timestamp"
  check_age secret now r (some ts) =
      if is_too_old now ts
      then refused 401 "request too old"
      else read_body r.body (check_signature secret r)

  unfoldable pub verify_slack_request : String → ℕ → SlackRequest → Verdict
  verify_slack_request secret now r =
      if secret == ""
      then read_body r.body accepted
      else if r.timestamp == "" || r.signature == ""
      then refused 401 "missing Slack signature headers"
      else check_age secret now r (lib.parse_int r.timestamp)
