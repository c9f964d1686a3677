-- ===== src/Release/Samples.antt =====
-- The theorems on releases at a concrete database.
use lark_plat.Prelude.{if◌then◌else◌, List, ◌≡◌, refl, true, [], ◌∷◌, none, some}
use lark_plat.Json.{bool, str, obj, field, end, get, has, truthy, Fields}
use lark_plat.Errors.{ok, err, unauthorized}
use lark_plat.Session.{request, CurrentUser}
use lark_plat.Features.{feature_on}
use lark_plat.Workflow.Model.{RunStatus, TriggerType, WorkflowRun}
use lark_plat.Release.Model.{
  ReleaseStatus, ReleaseAction, ProviderStatus, CicdProvider, Release, ReleaseDb,
}
use lark_plat.Release.Secrets.{Cipher, raw, encrypt_fields, encrypt_config, decrypt_config, lookup}
use lark_plat.Release.Service.{move_release}
use lark_plat.Release.Providers.{find_provider, handle_webhook}
use lark_plat.Release.Lifecycle.{Outcome, move_release-Moves}
use lark_plat.Table.{find}
use lark_plat.Release.Traces.{Call, move_all, move_all-over}
use lark_plat.Release.Seam.{Seam}
use lark_plat.Release.Tokens.{entry, is_token, lookup-decrypt_config, handle_webhook-token}

abbrev admin : CurrentUser
admin = record {
  id = 1;
  username = "admin";
  is_admin = true;
  permissions = [];
  visible_group_ids = [];
}

-- a cipher that leaves texts as they are
abbrev open_cipher : Cipher
open_cipher = record { encrypt = λ s. s; decrypt = λ s. some s; dumps = λ v. "" }

abbrev config : Fields
config = field "token" (str "t0k") end

abbrev gitlab : CicdProvider
gitlab = record {
  type = "gitlab";
  name = "main";
  endpoint = "";
  config_enc = some (("token", "t0k") ∷ []);
  enabled = 1;
  status = ProviderStatus.unknown;
  last_heartbeat = none;
  created_by = 1;
}

abbrev release : Release
release = record {
  provider_id = 1;
  app = "shop";
  version = some "1.2";
  artifact_ref = none;
  env = "prod";
  status = ReleaseStatus.canary;
  workflow_run_id = some 7;
  target_host_ids = none;
  rolled_back_from = none;
  created_by = 1;
}

abbrev db : ReleaseDb
db = record {
  feature = some (obj (field "value" (bool true) end));
  providers = record { rows = (1, gitlab) ∷ []; next_id = 2 };
  releases = record { rows = (4, release) ∷ []; next_id = 5 };
  audits = record { rows = []; next_id = 1 };
  workflows = record { rows = []; next_id = 1 };
  versions = record { rows = []; next_id = 1 };
  runs = record { rows = []; next_id = 8 };
  nodes = record { rows = []; next_id = 1 };
}

move_release-Moves_example :
    Outcome admin ReleaseAction.promote 4 db
      (request (move_release admin 9 ReleaseAction.promote 4) db)
move_release-Moves_example = move_release-Moves admin 9 4 ReleaseAction.promote db

abbrev run : WorkflowRun
run = record {
  run_id = 7;
  workflow_id = 1;
  workflow_version = 1;
  status = RunStatus.failed;
  trigger_type = TriggerType.release;
  trigger_ref = end;
  context = end;
  started_at = none;
  finished_at = none;
  error = none;
  created_by = none;
}

lookup-decrypt_config_example :
    lookup (decrypt_config open_cipher (encrypt_config open_cipher (some config))) "token"
    ≡ entry open_cipher (some config) "token"
lookup-decrypt_config_example = lookup-decrypt_config open_cipher (λ s. refl) (some config) "token"

flag : feature_on db.feature ≡ true
unfolding feature_on get truthy
flag = refl

known : find_provider "gitlab" db.providers.rows ≡ some gitlab
unfolding find_provider
known = refl

stored : gitlab.config_enc ≡ encrypt_config open_cipher (some config)
unfolding encrypt_config encrypt_fields raw
stored = refl

has_token : has config "token" ≡ true
unfolding has
has_token = refl

token_is : get config "token" ≡ str "t0k"
unfolding get
token_is = refl

handle_webhook-token_example :
    request (handle_webhook open_cipher "gitlab" (some "bad")) db
    ≡ ((if is_token (some "bad") "t0k" then ok tt else err unauthorized), db)
handle_webhook-token_example =
    handle_webhook-token open_cipher (λ s. refl) "gitlab" "t0k" (some "bad") gitlab config db flag
      known stored has_token token_is

-- release 4 is in canary, release 5 was cancelled
abbrev two_releases : ReleaseDb
two_releases = record db {
  releases = record {
    rows = (4, release) ∷ (5, record release { status = ReleaseStatus.cancelled }) ∷ [];
    next_id = 6;
  };
}

abbrev moves : List Call
moves =
    record { user = admin; release = 4; now = 9; action = ReleaseAction.promote }
    ∷ record { user = admin; release = 5; now = 9; action = ReleaseAction.deploy }
    ∷ []

release_5 :
    find two_releases.releases 5 ≡ some (record release { status = ReleaseStatus.cancelled })
unfolding find
release_5 = refl

move_all-over_example :
    find (move_all moves two_releases).releases 5
    ≡ some (record release { status = ReleaseStatus.cancelled })
move_all-over_example =
    move_all-over moves two_releases 5 (record release { status = ReleaseStatus.cancelled })
      release_5 refl
