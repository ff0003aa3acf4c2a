-- ===== src/Handlers/Saving/Operator.antt =====
-- crates/wxcd-worker/src/main.rs: what an operator starts from the control room, and the check of all
-- sessions at the start.
use codex_webex_connector.Base.{ℕ, String, Option, List}
use codex_webex_connector.Commands.{DiagnoseCommand, CleanupFailedCommand, PurgeArchivedCommand}
use codex_webex_connector.EventLog.{ReplayState}
use codex_webex_connector.Model.{BridgeSnapshot, SessionRecord}
use codex_webex_connector.Effects.{Services, World}
use codex_webex_connector.Effects.Logic.{At}
use codex_webex_connector.Effects.Logic.Stored.{Leaves, Triple-Leaves}
use codex_webex_connector.Handlers.{AppConfig}
use codex_webex_connector.Handlers.Archive.{
  handle_cleanup_failed_command, handle_purge_archived_command,
}
use codex_webex_connector.Handlers.Creation.{CreateBridgeSessionInput, create_bridge_session}
use codex_webex_connector.Handlers.Probes.{handle_diagnose_command, reconcile_sessions}
use codex_webex_connector.Handlers.Saving.{Saved, Logged}
use codex_webex_connector.Handlers.Saving.Archive.{
  handle_cleanup_failed_command-Triple, handle_purge_archived_command-Triple,
}
use codex_webex_connector.Handlers.Saving.Creation.{create_bridge_session-Triple}
use codex_webex_connector.Handlers.Saving.Probes.{
  handle_diagnose_command-Triple, reconcile_sessions-Triple,
}
use codex_webex_connector.Handlers.Saving.Sessions.{Saved-IsKept}

module _ (services : Services) (start : ReplayState) (file : Option BridgeSnapshot)
    (config : AppConfig) (installation : String) where
  -- Let the worker be sound, and let its sessions and approvals be those of the local snapshot and of
  -- the log as the worker tried to write it. Cleaning up failed sessions, and purging an archived one,
  -- leave all that so if they succeed, whatever the services answer, failed appends included; the Data
  -- Space then holds the sessions and approvals as well, unless the append of the last snapshot, or one
  -- since, has failed. If they fail, the same holds but for the local snapshot.
  pub cleanup_and_purge-Saved :
      (by_time : List SessionRecord → List SessionRecord) (sort : List String → List String)
      (cleanup : CleanupFailedCommand) (purge : PurgeArchivedCommand) (w : World)
      → At services start file Saved w
      → Leaves services start file Saved Logged
          (handle_cleanup_failed_command services config by_time sort installation cleanup w)
        × Leaves services start file Saved Logged
            (handle_purge_archived_command services config installation purge w)
  cleanup_and_purge-Saved by_time sort cleanup purge w h = (
    Triple-Leaves services start file
        (handle_cleanup_failed_command-Triple config Saved-IsKept by_time sort installation cleanup)
        w h,
    Triple-Leaves services start file
        (handle_purge_archived_command-Triple config Saved-IsKept installation purge) w h,
  )

  -- Let the worker be sound, and let its sessions and approvals be those of the local snapshot and of
  -- the log as the worker tried to write it. Creating a session, diagnosing one, and the check of all
  -- sessions at the start leave all that so if they succeed, whatever the services answer, failed
  -- appends included; the Data Space then holds the sessions and approvals as well, unless the append of
  -- the last snapshot, or one since, has failed. If they fail, the same holds but for the local snapshot.
  pub create_and_probe-Saved :
      (pages : ℕ) (by_time : List SessionRecord → List SessionRecord)
      (input : CreateBridgeSessionInput) (diagnose : DiagnoseCommand) (w : World)
      → At services start file Saved w
      → Leaves services start file Saved Logged (create_bridge_session services config input w)
        × Leaves services start file Saved Logged
            (handle_diagnose_command services pages config installation by_time diagnose w)
        × Leaves services start file Saved Logged
            (reconcile_sessions services pages config installation w)
  create_and_probe-Saved pages by_time input diagnose w h = (
    Triple-Leaves services start file (create_bridge_session-Triple config input Saved-IsKept) w h,
    Triple-Leaves services start file
        (handle_diagnose_command-Triple pages config installation Saved-IsKept by_time diagnose) w
        h,
    Triple-Leaves services start file
        (reconcile_sessions-Triple pages config installation Saved-IsKept) w h,
  )
