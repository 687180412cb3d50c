-- ===== src/Gateway/Slack/Bot.antt =====
-- internal/gateway/slack/bot.go. The task creator is any function over the world, or nil; the clock of
-- the signature check is an argument.
pub mod Effects
pub mod Counts
use Prim.Native.String
use Prim.Native.String.{[] as empty}
use hermes_manager.Prelude.{
  ℕ, ◌+◌, String, Option, none, some, List, [], ◌∷◌, Result, ok, err, Exec, lookup, insert, length,
  trim_space, split_blank, to_lower, ◌==◌, ◌||◌, not, if◌then◌else◌,
}
use hermes_manager.Storage.{
  Task, TaskState, TaskFilter, pending, running, completed, failed, timeout, task_state_text, Store,
  pos,
}
use hermes_manager.World.{World}
use hermes_manager.Gateway.Slack.{
  SlackLibrary, SlackRequest, Verdict, accepted, refused, verify_slack_request,
}

-- `Parameters` is the JSON text of the map, "{}" for the empty one.
pub record TaskCreateInput : Type 0 where
  pub skill_name : String
  pub parameters : String
  pub runtime : String
  pub user : String
  pub team : String

pub record TaskCreateOutput : Type 0 where
  pub task_id : String
  pub token : String

abbrev pub TaskCreator : Type 0
TaskCreator = TaskCreateInput → Exec World TaskCreateOutput

pub record Bot : Type 0 where
  pub store : Store World
  pub signing_secret : String
  pub creator : Option TaskCreator

abbrev pub new_bot : Store World → String → Option TaskCreator → Bot
new_bot store secret creator = record { store = store; signing_secret = secret; creator = creator }

pub record SlackResponse : Type 0 where
  pub response_type : String
  pub text : String

-- What the handler writes: `http.Error`, or `respondJSON`.
pub data Answer : Type 0 where
  http_error : ℕ → String → Answer
  respond_json : SlackResponse → Answer

abbrev pub ephemeral : String → Answer
ephemeral text = respond_json (record { response_type = "ephemeral"; text = text })

abbrev pub in_channel : String → Answer
in_channel text = respond_json (record { response_type = "in_channel"; text = text })

-- What the bot calls of Go's library, besides the signature check.
pub record BotLibrary : Type 0 where
  pub signing : SlackLibrary
  -- `url.ParseQuery`, and `Get("text")` of the form
  pub parse_query : String → Result String
  -- `json.Unmarshal` into a map
  pub unmarshal : String → Result String
  -- `%d` and `%q`
  pub itoa : ℕ → String
  pub quote : String → String

abbrev pub split_parts : String → Option (String × String) → String × String
split_parts s none = (s, empty)
split_parts s (some (word, behind)) = (word, trim_space behind)

unfoldable pub split_first : String → String × String
split_first text = let s = trim_space text in split_parts s (split_blank s)

abbrev pub help_text : String
help_text =
    "*HermesManager Slack Commands*\n\n`/hermes status` — Show task counts by state (pending / running / completed / failed / timeout)\n`/hermes run <skill> <json-params>` — Submit a task\n   Example: `/hermes run hello-skill {\"name\":\"World\"}`\n`/hermes help` — Show this message\n\nDocs: <https://github.com/MackDing/hermes-manager/blob/main/docs/QUICKSTART.md|Quickstart>"

unfoldable pub handle_help : World → Answer × World
handle_help w = (ephemeral help_text, w)

-- The value under a key of a Go map of numbers, 0 where there is none.
abbrev pub number : Option ℕ → ℕ
number none = 0
number (some n) = n

-- The loop over the tasks; the keys are the states' texts.
unfoldable pub count_states : List Task → List (String × ℕ) → List (String × ℕ)
count_states [] counts = counts
count_states (t ∷ ts) counts =
    let state = task_state_text t.state in
    count_states ts (insert state (number (lookup state counts) + 1) counts)

abbrev pub reported : List TaskState
reported = pending ∷ running ∷ completed ∷ failed ∷ timeout ∷ []

module _ (lib : BotLibrary) where
  -- The lines of the states, and the total.
  unfoldable pub state_lines : List TaskState → List (String × ℕ) → String → String
  state_lines [] counts end = end
  state_lines (state ∷ states) counts end =
      let name = task_state_text state in
      String.◌++◌ "• " (
        String.◌++◌ name (
          String.◌++◌ ": " (
            String.◌++◌ (lib.itoa (number (lookup name counts)))
              (String.◌++◌ "\n" (state_lines states counts end)))))

  abbrev pub status_text : List Task → String
  status_text tasks = String.◌++◌ "*Task Status*\n" (
      state_lines reported (count_states tasks [])
        (String.◌++◌ "Total: " (lib.itoa (length tasks))))

  abbrev pub answer_status : Result (List Task) → Answer
  answer_status (ok tasks) = in_channel (status_text tasks)
  answer_status (err e) =
      ephemeral "Failed to query task status. Check the hermesmanager logs or contact an admin."

  abbrev pub status_filter : TaskFilter
  status_filter = record { state = none; limit = pos 1000; offset = pos 0 }

  module _ (b : Bot) where
    unfoldable pub handle_status : World → Answer × World
    handle_status w =
        let (listed, w') = b.store.list_tasks status_filter w in (answer_status listed, w')

    abbrev pub input_of : String → String → TaskCreateInput
    input_of skill params = record {
      skill_name = skill;
      parameters = params;
      runtime = "local";
      user = "slack-user";
      team = empty;
    }

    abbrev pub answer_created : String → Result TaskCreateOutput → Answer
    answer_created skill (ok result) = in_channel (
        String.◌++◌ "Task "
          (String.◌++◌ result.task_id (String.◌++◌ " created for skill " (lib.quote skill))))
    answer_created skill (err e) =
        ephemeral
          "Failed to submit task (runtime error). Check the hermesmanager logs or contact an admin."

    abbrev pub run_with : TaskCreator → String → Result String → World → Answer × World
    run_with creator skill (err e) w = (
      ephemeral "Invalid JSON parameters. Example: `/hermes run hello-skill {\"name\":\"World\"}`",
      w,
    )
    run_with creator skill (ok params) w =
        let (result, w') = creator (input_of skill params) w in (answer_created skill result, w')

    abbrev pub params_of : String → Result String
    params_of raw = if raw == "" then ok "{}" else lib.unmarshal raw

    abbrev pub run_skill : Option TaskCreator → String → String → World → Answer × World
    run_skill none skill raw w = (
      ephemeral "Task creation is not available. The server may be running in status-only mode.",
      w,
    )
    run_skill (some creator) skill raw w = run_with creator skill (params_of raw) w

    unfoldable pub handle_run : String → World → Answer × World
    handle_run args w =
        let (skill, raw) = split_first args in
        if skill == ""
        then (
          ephemeral "Usage: `/hermes run <skill> <json-params>`. Try `/hermes help` for examples.",
          w,
        )
        else run_skill b.creator skill raw w

    abbrev pub unknown_command : String → Answer
    unknown_command sub = ephemeral (
        String.◌++◌ "Unknown command `"
          (String.◌++◌ sub "`. Try `/hermes help` to see all commands."))

    -- The switch over the sub-command.
    unfoldable pub run_command : String → String → World → Answer × World
    run_command sub rest w =
        let name = to_lower sub in
        if name == "status"
        then handle_status w
        else if name == "run"
        then handle_run rest w
        else if name == "help" || name == ""
        then handle_help w
        else (unknown_command sub, w)

    abbrev pub with_form : Result String → World → Answer × World
    with_form (err e) w = (http_error 400 "malformed form body", w)
    with_form (ok text) w =
        let (sub, rest) = split_first (trim_space text) in run_command sub rest w

    abbrev pub after_check : Verdict → World → Answer × World
    after_check (refused status text) w = (http_error status text, w)
    after_check (accepted body) w = with_form (lib.parse_query body) w

    unfoldable pub serve_http : String → ℕ → SlackRequest → World → Answer × World
    serve_http method now r w =
        if not (method == "POST")
        then (http_error 405 "method not allowed", w)
        else after_check (verify_slack_request lib.signing b.signing_secret now r) w
