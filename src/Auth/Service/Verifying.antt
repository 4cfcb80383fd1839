-- ===== src/Auth/Service/Verifying.antt =====
-- `RequestEmailVerification`, `RequestEmailVerificationByEmail` and `ConfirmEmailVerificationRequest`.
use order_hub.Base.{◌+◌, Uuid, Time, String, Bool, true, false, Option, none, some, ltb, not, ◌&&◌}
use order_hub.Base.Store.{service, pure, fail, guard, clock_now, catch, ignore, ◌>>=◌, ◌>>◌}
use order_hub.Auth.Models.{
  Code, email_ver, verify_email, not_found, too_many_requests, invalid_or_expired_code,
  email_already_verified, email_verification_in_progress, Run, Outside, day,
}
use order_hub.Auth.Repo.Users
use order_hub.Auth.Repo.Codes
use order_hub.Auth.Repo.Codes.{CodeTable, email_verifications}
use order_hub.Auth.Service.Types.{CacheClient}
use order_hub.Auth.Service.Helpers.{
  context_user, rate_limited, set_rate_limit, latest_or_none, cooling, deref, draw_digits,
  send_email, found_user,
}
use order_hub.Auth.Service.Accounts.{new_code}

unfoldable pub verification_cooldown : CacheClient → Uuid → Time → Run (Unit {0})
unfolding latest_or_none
verification_cooldown CacheClient.no_cache user now = do
  latest ← latest_or_none (Codes.find_latest_by_user email_verifications user)
  guard (not (cooling now latest)) too_many_requests
verification_cooldown _ user now = pure tt

-- `!latest.Consumed && latest.ExpiresAt.After(now)`
abbrev pub in_progress : Time → Option Code → Bool
in_progress now none = false
in_progress now (some c) = not c.consumed && ltb now c.expires_at

module _ (ext : Outside) where
  unfoldable pub request_email_verification : CacheClient → Option Uuid → Run (Unit {0})
  unfolding context_user rate_limited set_rate_limit verification_cooldown draw_digits send_email
  request_email_verification cache ctx = do
    user ← context_user ctx
    limited ← rate_limited cache (email_ver user)
    guard (not limited) too_many_requests
    found ← catch (Users.get_by_id user) (λ _. fail (service not_found))
    u ← found_user found
    guard (not u.is_email_verified) email_already_verified
    now ← clock_now
    verification_cooldown cache u.id now
    rng ← draw_digits ext 10
    Codes.create email_verifications (new_code u.id u.email (ext.digest rng) (now + day) now)
    set_rate_limit cache (email_ver user)
    ignore (send_email (verify_email u.email rng))

  unfoldable pub request_email_verification_by_email : String → Run (Unit {0})
  unfolding deref latest_or_none draw_digits send_email
  request_email_verification_by_email email = do
    found ← catch (Users.get_by_email ext email) (λ _. fail (service not_found))
    u ← deref found
    guard (not u.is_email_verified) email_already_verified
    now ← clock_now
    latest ← latest_or_none (Codes.find_latest_by_user email_verifications u.id)
    guard (not (in_progress now latest)) email_verification_in_progress
    guard (not (cooling now latest)) too_many_requests
    rng ← draw_digits ext 10
    Codes.create email_verifications (new_code u.id email (ext.digest rng) (now + day) now)
    ignore (send_email (verify_email email rng))

  unfoldable pub confirm_email_verification_request : String → Run (Unit {0})
  confirm_email_verification_request code = do
    now ← clock_now
    ver ←
        catch (Codes.get_valid_by_hash email_verifications (ext.digest code) now)
          (λ _. fail (service invalid_or_expired_code))
    found ← catch (Users.get_by_id ver.user_id) (λ _. fail (service not_found))
    user ← found_user found
    Users.update_is_email_verified (record user { is_email_verified = true })
    ignore (Codes.consume email_verifications ver.id)
