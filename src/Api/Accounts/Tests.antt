-- ===== src/Api/Accounts/Tests.antt =====
-- The handlers of app/api/auth.py at concrete requests.
use restream_plus.Api.Security.Tests.{root, subkey, sixteen, held}
use restream_plus.Api.Accounts.{Accounts, Asker, AccountError, change_password, change_granted}
use restream_plus.Api.Accounts.Passwords.{HasGrant, IsChanged, change_password_changes}
use restream_plus.Api.Accounts.Unlocking.{locked_key_material}
use restream_plus.Auth.RateLimit as Limits
use restream_plus.Auth.Reprompts as Grants
use restream_plus.Auth.Sessions.{Providers}
use restream_plus.Repositories.Users.{UserRow}
use restream_plus.Repositories.HttpSessions.{HttpSessionRow}
use restream_plus.Base.Dict.{get}
use restream_plus.Base.{
  String, true, false, none, some, ok, err, [], ◌∷◌, ◌≡◌, refl, string_eq, ◌==◌, same_refl,
}

-- A password is its own hash.
abbrev plain : Providers
plain = record {
  normalize = λ u. u;
  argon2_accepts = λ h w. h == w;
  check_needs_rehash = λ h. false;
  hmac_sha256 = λ k t. t;
  dummy_password_hash = "dummy";
  keys = held;
  cookie_lifetime = 100;
}

accepts_own : (w : String) → (w == w) ≡ true
accepts_own w = same_refl string_eq w

abbrev admin : UserRow
admin = record { username = "admin"; password_hash = "first"; created_at = 1; last_login_at = none }

abbrev phone : HttpSessionRow
phone = record {
  user_id = "u1";
  created_at = 1;
  expires_at = 90;
  last_seen_at = 4;
  user_agent = none;
  ip = none;
}

abbrev change_grant : Grants.RepromptGrant
change_grant = record { user_id = "u1"; scope = Grants.change_password; issued_at = 5 }

abbrev limiter : Limits.LoginRateLimiter
limiter = record { limit = 3; window = 900; by_ip = []; by_username = [] }

abbrev accounts : Accounts
accounts = record {
  service = record {
    users = ("u1", admin) ∷ [];
    sessions = (4 ∷ [], phone) ∷ [];
    rate_limiter = limiter;
  };
  reprompts = record { ttl = 60; grants = ("g1", change_grant) ∷ [] };
  unlock_rate_limiter = limiter;
  key_material = locked_key_material plain root subkey (sixteen 5);
}

abbrev owner : Asker
owner = record {
  user = record { id = "u1"; columns = admin };
  monotonic = 20;
  x_reprompt_grant = some "g1";
}

changes : (change_password plain (λ w. w) owner "first" "second" accounts).1 ≡ ok tt
unfolding change_password change_granted Grants.consume Grants.answers get
    restream_plus.Auth.Passwords.verify_password restream_plus.Auth.Passwords.hash_password
changes = refl

change_password_changes_example :
    let (s', answer) = change_password plain (λ w. w) owner "first" "second" accounts in
    (answer ≡ ok tt → HasGrant owner accounts × IsChanged plain (λ w. w) owner "first" "second" s')
    × ((e : AccountError) → answer ≡ err e → s'.service ≡ accounts.service)
unfolding get
change_password_changes_example =
    change_password_changes plain (λ w. w) owner "first" "second" accepts_own accounts (refl, tt)
      refl
