-- ===== src/Sessions.antt =====
-- crates/wxcd-worker/src/main.rs: the tests on one session record that decide which installation
-- manages it, and how a thread probe updates it.
pub mod Probe
use codex_webex_connector.Base.{
  String, Bool, true, false, not, ◌&&◌, ◌||◌, Option, none, some, ◌==◌, is_some_and, is_none_or,
  if◌then◌else◌,
}
use codex_webex_connector.Base.IdSet
use codex_webex_connector.Base.IdSet.{IdSet}
use codex_webex_connector.Model.{
  SessionRecord, SessionAuthority, LocalSessionMirror, counts_as_archived, state_is_archived,
  state_is_failed,
}

abbrev pub belongs_by : Option SessionAuthority → Option LocalSessionMirror → String → Bool
belongs_by (some authority) mirror id = authority.installation_id == id
belongs_by none mirror id = is_some_and mirror (λ m. m.installation_id == id)

unfoldable pub session_belongs_to_installation : SessionRecord → String → Bool
session_belongs_to_installation s id = belongs_by s.authority s.local_mirror id

unfoldable pub is_control_list_session : SessionRecord → String → Bool → Bool
is_control_list_session s id include_archived =
    (include_archived || (not s.archived && not (state_is_archived s.state)))
    && not (state_is_failed s.state)
    && session_belongs_to_installation s id

unfoldable pub is_cleanup_failed_session : SessionRecord → String → Bool
is_cleanup_failed_session s id =
    state_is_failed s.state && not s.archived && session_belongs_to_installation s id

unfoldable pub session_requires_codex_archive : SessionRecord → Bool
session_requires_codex_archive s = not (state_is_failed s.state)

unfoldable pub local_session_is_claimable_mirror_evidence : SessionRecord → String → Bool
local_session_is_claimable_mirror_evidence s id =
    is_none_or s.authority (λ a. a.installation_id == id)

unfoldable pub local_session_has_current_installation_evidence : SessionRecord → String → Bool
local_session_has_current_installation_evidence s id =
    is_some_and s.authority (λ a. a.installation_id == id)
    || is_some_and s.local_mirror (λ m. m.installation_id == id)

unfoldable pub remote_session_accepts_local_mirror_claim : SessionRecord → String → Bool
remote_session_accepts_local_mirror_claim s id =
    is_none_or s.authority (λ a. a.installation_id == id)

unfoldable pub remote_session_blocks_local_replacement : SessionRecord → SessionRecord → Bool
remote_session_blocks_local_replacement remote_session local_session =
    counts_as_archived remote_session && not (counts_as_archived local_session)

pub data LocalMirrorClaimScope : Type 0 where
  current_writer_snapshot : LocalMirrorClaimScope
  current_writer_snapshot_or_listed_threads : IdSet → LocalMirrorClaimScope
  listed_threads : IdSet → LocalMirrorClaimScope

-- `LocalMirrorClaimScope::allows`
unfoldable pub allows : LocalMirrorClaimScope → SessionRecord → String → Bool
allows current_writer_snapshot s id = local_session_has_current_installation_evidence s id
allows (current_writer_snapshot_or_listed_threads ids) s id =
    local_session_has_current_installation_evidence s id || IdSet.contains ids s.thread_id
allows (listed_threads ids) s id = IdSet.contains ids s.thread_id
