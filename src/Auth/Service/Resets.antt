-- ===== src/Auth/Service/Resets.antt =====
-- `RequestPasswordReset` and `ConfirmPasswordReset`.
use order_hub.Base.{◌+◌, Time, String, Option, not}
use order_hub.Base.Store.{service, pure, fail, guard, clock_now, catch, ignore, ◌>>=◌, ◌>>◌}
use order_hub.Auth.Models.{
  User, pwd_reset, reset_password, not_found, too_many_requests, invalid_or_expired_code, Run,
  Outside, hour,
}
use order_hub.Auth.Repo.Users
use order_hub.Auth.Repo.Refresh
use order_hub.Auth.Repo.Sessions
use order_hub.Auth.Repo.Codes
use order_hub.Auth.Repo.Codes.{CodeTable, password_resets}
use order_hub.Auth.Service.Types.{CacheClient}
use order_hub.Auth.Service.Helpers.{
  rate_limited, set_rate_limit, latest_or_none, cooling, deref, draw_digits, hash_password,
  send_email, found_user,
}
use order_hub.Auth.Service.Accounts.{new_code}

-- Without Redis the latest code says whether a minute has passed; `u` is nil for an unknown email.
unfoldable pub reset_cooldown : CacheClient → Option User → Time → Run (Unit {0})
unfolding deref latest_or_none
reset_cooldown CacheClient.no_cache found now = do
  u ← deref found
  latest ← latest_or_none (Codes.find_latest_by_user password_resets u.id)
  guard (not (cooling now latest)) too_many_requests
reset_cooldown _ found now = pure tt

module _ (ext : Outside) where
  unfoldable pub request_password_reset : CacheClient → String → Run (Unit {0})
  unfolding rate_limited set_rate_limit reset_cooldown draw_digits deref send_email
  request_password_reset cache email = do
    limited ← rate_limited cache (pwd_reset email)
    guard (not limited) too_many_requests
    found ← catch (Users.get_by_email ext email) (λ _. fail (service not_found))
    now ← clock_now
    reset_cooldown cache found now
    rng ← draw_digits ext 6
    u ← deref found
    Codes.create password_resets (new_code u.id email (ext.digest rng) (now + hour) now)
    set_rate_limit cache (pwd_reset email)
    send_email (reset_password u.email rng)

  -- What follows the new password is done as far as it goes: its errors are logged.
  unfoldable pub confirm_password_reset : String → String → Run (Unit {0})
  unfolding hash_password
  confirm_password_reset code new_password = do
    now ← clock_now
    reset ←
        catch (Codes.get_valid_by_hash password_resets (ext.digest code) now)
          (λ _. fail (service invalid_or_expired_code))
    found ← catch (Users.get_by_id reset.user_id) (λ _. fail (service not_found))
    user ← found_user found
    hash ← hash_password ext new_password
    Users.update_password (record user { password = hash })
    ignore (Codes.consume password_resets reset.id)
    ignore (Refresh.revoke_all user.id)
    ignore (Sessions.revoke_all_by_user user.id)
    ignore (Codes.delete_all_for_user password_resets user.id)
