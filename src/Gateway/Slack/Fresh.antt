-- ===== src/Gateway/Slack/Fresh.antt =====
-- What an accepted Slack request is, where the clock and the timestamp lie less than 2 ^ 33 seconds
-- apart.
use Prim.Native.String.{len}
use hermes_manager.Prelude.{ℕ, ◌^◌, ◌≤◌, String, ◌≡◌, some, ok}
use hermes_manager.Gateway.Slack.{SlackLibrary, SlackRequest, distance, expected_signature}

module _ (lib : SlackLibrary) (secret : String) (now : ℕ) (r : SlackRequest) where
  -- The request is signed, small, and at most 300 seconds away.
  pub record IsFresh (body : String) : Type 0 where
    pub ts : ℕ
    pub read_ts : lib.parse_int r.timestamp ≡ some ts
    pub age : distance now ts ≤ 300
    pub read : r.body ≡ ok body
    pub size : len body ≤ 2 ^ 20
    pub signed : r.signature ≡ expected_signature lib secret r.timestamp body
