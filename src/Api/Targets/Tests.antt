-- ===== src/Api/Targets/Tests.antt =====
-- The handlers of the targets at concrete requests; the supervisor is the list of what it was asked.
use restream_plus.Api.Security.Tests.{toy, twelve, sixteen, held}
use restream_plus.Api.Targets.Handlers as Api
use restream_plus.Api.Targets.{Desk, Caller, Drawn}
use restream_plus.Api.Targets.Handlers.{
  take_grant, set_credential, reveal_credential, reveal_granted, update_target, follow_update,
}
use restream_plus.Api.Targets.Reveal.{set_credential-reveal_credential}
use restream_plus.Api.Targets.Gates.{protected_handlers, IsGated}
use restream_plus.Api.Targets.Removal.{IsRemoved, delete_target-IsRemoved}
use restream_plus.Fanout.SupervisorTests.{
  running, open_box, fair, idle, idle_offline, idle-IsAgreed, idle_bare,
}
use restream_plus.Fanout.Supervisor.{Supervisor}
use restream_plus.Fanout.Supervisor.Agreement.{IsAgreed}
use restream_plus.Fanout.Supervisor.Control.{start_run_settles}
use restream_plus.Fanout.Supervisor.Runs as Control
use restream_plus.Auth.Reprompts as Grants
use restream_plus.Auth.Reprompts.{consume, answers}
use restream_plus.Domain.TargetTypes.{twitch}
use restream_plus.Repositories.Targets.{TargetRow}
use restream_plus.Base.Dict.{get, put}
use restream_plus.Base.Texts.{Text, codes}
use restream_plus.Base.{String, Bool, true, false, none, some, ok, List, [], ◌∷◌, ◌≡◌, refl, ◌++◌}

-- True for `enable_target`.
abbrev Asked : Type 0
Asked = List (String × Bool)

abbrev asks_on : String → Asked → Asked
asks_on id asked = asked ++ (id, true) ∷ []

abbrev asks_off : String → Asked → Asked
asks_off id asked = asked ++ (id, false) ∷ []

abbrev channel : TargetRow
channel = record {
  type_name = "twitch";
  label = "Main";
  url = "rtmp://a/b";
  enabled = true;
  settings = [];
  created_at = 1;
  updated_at = 1;
}

abbrev reveal_grant : Grants.RepromptGrant
reveal_grant = record { user_id = "root"; scope = Grants.reveal_stream_key; issued_at = 5 }

abbrev desk : Desk Asked
desk = record {
  targets = ("t1", channel) ∷ [];
  credentials = [];
  reprompts = record { ttl = 60; grants = ("g1", reveal_grant) ∷ [] };
  workers = [];
  audit = [];
}

abbrev asker : Caller
asker = record { user_id = "root"; now = 9; monotonic = 20; x_reprompt_grant = some "g1" }

abbrev fresh_values : Drawn
fresh_values = record { credential_id = "c1"; salt = sixteen 3; nonce = twelve }

abbrev stream_key : Text
stream_key = codes "live_12345"

set_credential-reveal_credential_example :
    let (s', answer) =
      set_credential asks_on asks_off toy held.stream_key_kek
        (λ s. s)
        (λ b. some b)
        "t1"
        stream_key
        asker
        fresh_values
        desk in
    (reveal_credential asks_on asks_off toy held.stream_key_kek
      (λ s. s)
      (λ b. some b)
      "t1"
      asker
      s').1
    ≡ ok (stream_key, codes "2345")
unfolding consume answers get restream_plus.Repositories.Rows.target_type_of
set_credential-reveal_credential_example =
    set_credential-reveal_credential toy held.stream_key_kek (λ s. s) (λ b. some b) refl stream_key
      refl asks_on asks_off "t1" "g1" asker asker fresh_values desk channel twitch refl refl refl
      refl refl refl refl refl

protected_handlers_example :
    let (s1, deleted) = Api.delete_target asks_on asks_off "t1" asker desk in
    let (s2, revealed) =
      reveal_credential asks_on asks_off toy held.stream_key_kek
        (λ s. s)
        (λ b. some b)
        "t1"
        asker
        desk in
    let (s3, cleared) = Api.clear_credential asks_on asks_off "t1" asker desk in
    IsGated Grants.delete_target asker desk s1 deleted
    × IsGated Grants.reveal_stream_key asker desk s2 revealed
    × IsGated Grants.clear_credential asker desk s3 cleared
protected_handlers_example =
    protected_handlers asks_on asks_off toy held.stream_key_kek (λ s. s) (λ b. some b) "t1" asker
      desk

-- A new address for an enabled target: its workers are started anew, but for a request that repeats `enabled`.
moved :
    (update_target asks_on asks_off "t1"
      (record { label = none; url = some "rtmp://c/d"; enabled = none; settings = none })
      asker
      desk).0.workers
    ≡ ("t1", false) ∷ ("t1", true) ∷ []
unfolding update_target follow_update restream_plus.Repositories.Targets.update get put
moved = refl

moved_and_enabled :
    (update_target asks_on asks_off "t1"
      (record { label = none; url = some "rtmp://c/d"; enabled = some true; settings = none })
      asker
      desk).0.workers
    ≡ []
unfolding update_target follow_update restream_plus.Repositories.Targets.update get put
moved_and_enabled = refl

running-IsAgreed : IsAgreed running
running-IsAgreed =
    (start_run_settles open_box fair idle idle_offline idle-IsAgreed idle_bare (λ j. refl)).0

abbrev delete_grant : Grants.RepromptGrant
delete_grant = record { user_id = "root"; scope = Grants.delete_target; issued_at = 5 }

-- A run with workers of two targets, of which one is deleted.
abbrev desk_of_run : Desk Supervisor
desk_of_run = record {
  targets = ("tw", channel) ∷ ("yt", channel) ∷ [];
  credentials = [];
  reprompts = record { ttl = 60; grants = ("g1", delete_grant) ∷ [] };
  workers = running;
  audit = [];
}

deletes : (Api.delete_target (λ id s. s) Control.disable_target "tw" asker desk_of_run).1 ≡ ok tt
unfolding Api.delete_target take_grant Api.delete_granted consume answers get
    restream_plus.Base.Dict.remove restream_plus.Repositories.Targets.delete
deletes = refl

delete_target-IsRemoved_example :
    IsRemoved "tw" desk_of_run
      (Api.delete_target (λ id s. s) Control.disable_target "tw" asker desk_of_run).0
delete_target-IsRemoved_example =
    delete_target-IsRemoved (λ id s. s) "tw" asker desk_of_run running-IsAgreed deletes
