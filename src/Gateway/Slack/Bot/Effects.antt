-- ===== src/Gateway/Slack/Bot/Effects.antt =====
-- What a Slack request can do to the world.
use hermes_manager.Prelude.{String, ◌≡◌, false, some, ◌==◌}
use hermes_manager.World.{World}
use hermes_manager.Gateway.Slack.Bot.{Bot, BotLibrary, TaskCreator, status_filter, input_of}

module _ (lib : BotLibrary) (b : Bot) where
  -- Nothing, one listing of tasks, or one call of the task creator: for the user "slack-user" without a
  -- team, on the local runtime, with a skill's name.
  pub data Effect (w : World) : World → Type 0 where
    alone : Effect w w
    listed : {w' : World} → w' ≡ (b.store.list_tasks (status_filter lib) w).1 → Effect w w'
    created :
        {w' : World} (creator : TaskCreator) (skill params : String)
        → b.creator ≡ some creator
        → (skill == "") ≡ false
        → w' ≡ (creator (input_of lib b skill params) w).1
        → Effect w w'
