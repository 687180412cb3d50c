-- ===== src/Examples/Gateways.antt =====
-- The check of Slack's signature and the bot on small inputs.
use hermes_manager.Prelude.{
  true, false, ◌+◌, ◌≡◌, refl, some, List, [], ◌∷◌, All, length, ok, split_blank, trim_space,
  trim_left, trim_right, is_space, to_lower, lower,
}
use hermes_manager.Storage.{Task, pending, running, completed, failed, timeout}
use hermes_manager.Postgres
use hermes_manager.Postgres.{list_tasks, is_known_state}
use hermes_manager.Postgres.Statement.{statement}
use hermes_manager.Postgres.Query.{
  task_admitted, scanned, place_at, select_tasks, page, task_passes, effective_limit, order_by,
  values, place, newer_task,
}
use hermes_manager.Gateway.Slack.{
  SlackLibrary, SlackRequest, distance, exceeds_age, is_too_old, expected_signature, read_body,
  check_signature, check_age, verify_slack_request,
}
use hermes_manager.Gateway.Slack.Bot.{
  Bot, BotLibrary, new_bot, in_channel, serve_http, run_command, handle_run, split_first,
  status_filter, handle_status,
}
use hermes_manager.Gateway.Slack.Bot.Counts.{count_in, count_named, report, handle_status-Counts}
use hermes_manager.Examples.Data.{world_of, busy_db, task_of}

abbrev slack_functions : SlackLibrary
slack_functions = record {
  parse_int = λ text. some 1000;
  through_float = λ n. n;
  hmac = λ secret text. secret;
}

abbrev slash_command : SlackRequest
slash_command = record { timestamp = "1000"; signature = "v0=key"; body = ok "command=/hermes" }

-- A timestamp 18446744074 seconds, about 584 years, in the past is taken for a fresh one.
wrapped_age : is_too_old slack_functions 18446744074 0 ≡ false
unfolding is_too_old exceeds_age distance
wrapped_age = refl

-- A bot over the Postgres store, and the command "run echo {}".
abbrev bot_functions : BotLibrary
bot_functions = record {
  signing = slack_functions;
  parse_query = λ body. ok "run echo {}";
  unmarshal = λ text. ok text;
  itoa = λ n. "1";
  quote = λ s. s;
}

abbrev the_bot : Bot
the_bot =
    new_bot Postgres.store "key"
      (some (λ input w. (ok (record { task_id = "t9"; token = "0a" }), record w { random = [] })))

run_answered :
    (serve_http bot_functions the_bot "POST" 1100 slash_command (world_of busy_db)).0
    ≡ in_channel "Task t9 created for skill echo"
unfolding serve_http verify_slack_request check_age is_too_old exceeds_age distance read_body
    check_signature expected_signature run_command handle_run split_first split_blank trim_space
    trim_left trim_right is_space to_lower lower
run_answered = refl

abbrev listed_tasks : List Task
listed_tasks = task_of "t2" 20 running ∷ task_of "t1" 10 running ∷ []

busy_listed :
    Postgres.store.list_tasks (status_filter bot_functions) (world_of busy_db)
    ≡ (ok listed_tasks, world_of busy_db)
unfolding list_tasks task_admitted scanned place_at statement select_tasks page task_passes
    effective_limit order_by values place newer_task
busy_listed = refl

listed_known : All (λ (t : Task). is_known_state t.state ≡ true) listed_tasks
unfolding is_known_state
listed_known = (refl, (refl, tt))

handle_status-Counts_example :
    (handle_status bot_functions the_bot (world_of busy_db) ≡ (
      in_channel (
          report bot_functions
            (count_in pending listed_tasks)
            (count_in running listed_tasks)
            (count_in completed listed_tasks)
            (count_in failed listed_tasks)
            (count_in timeout listed_tasks)
            (length listed_tasks)),
      world_of busy_db,
    ))
    × (count_in pending listed_tasks
          + count_in running listed_tasks
          + count_in completed listed_tasks
          + count_in failed listed_tasks
          + count_in timeout listed_tasks
        ≡ length listed_tasks)
handle_status-Counts_example =
    handle_status-Counts bot_functions the_bot listed_tasks (world_of busy_db) (world_of busy_db)
      busy_listed listed_known

two_running : count_in running listed_tasks ≡ 2
unfolding count_named
two_running = refl
