-- ===== src/Host/Settings.antt =====
-- The configuration in internal/host/host.go and the checks of `New`.
use bomber_cli.Base.{
  ℤ, pos, negsuc, ltb_ℤ, leb_ℤ, eq_ℤ, ◌*◌, ◌≡◌, ◌⊎◌, refl, inl, inr, arith, if◌then◌else◌, Bool,
  true, false, ◌||◌, Bool-cases,
}
use bomber_cli.Game.Types.{second}

-- The numbers of a configuration; they may be negative.
pub record Config : Type 0 where
  pub max_sessions : ℤ
  pub max_rooms : ℤ
  pub handshake_timeout : ℤ
  pub idle_timeout : ℤ
  pub max_sessions_per_ip : ℤ

pub data ConfigError : Type 0 where
  limits_not_positive limits_negative : ConfigError

pub data Configured : Type 0 where
  accepted : Config → Configured
  refused : ConfigError → Configured

abbrev pub default_config : Config
default_config = record {
  max_sessions = pos 128;
  max_rooms = pos 32;
  handshake_timeout = pos (10 * second);
  idle_timeout = pos (600 * second);
  max_sessions_per_ip = pos 16;
}

-- A value, or another one in its place.
abbrev pub or_default : Bool → ℤ → ℤ → ℤ
or_default missing value other = if missing then other else value

-- The checks and the defaults at the beginning of `New`.
unfoldable pub configured : Config → Configured
configured c =
    if ltb_ℤ c.max_sessions (pos 1) || ltb_ℤ c.max_rooms (pos 1)
    then refused limits_not_positive
    else if ltb_ℤ c.idle_timeout (pos 0) || ltb_ℤ c.max_sessions_per_ip (pos 0)
    then refused limits_negative
    else accepted (record c {
      handshake_timeout =
          or_default (leb_ℤ c.handshake_timeout (pos 0)) c.handshake_timeout (pos (10 * second));
      idle_timeout = or_default (eq_ℤ c.idle_timeout (pos 0)) c.idle_timeout (pos (600 * second));
      max_sessions_per_ip =
          or_default (eq_ℤ c.max_sessions_per_ip (pos 0)) c.max_sessions_per_ip (pos 16);
    })

abbrev IsPositive : ℤ → Type 0
IsPositive z = ltb_ℤ (pos 0) z ≡ true

pub data ConfigOutcome (c : Config) : Configured → Type 0 where
  no_limits :
      (ltb_ℤ c.max_sessions (pos 1) ≡ true) ⊎ (ltb_ℤ c.max_rooms (pos 1) ≡ true)
      → ConfigOutcome c (refused limits_not_positive)
  negative :
      (ltb_ℤ c.idle_timeout (pos 0) ≡ true) ⊎ (ltb_ℤ c.max_sessions_per_ip (pos 0) ≡ true)
      → ConfigOutcome c (refused limits_negative)
  sound :
      (c' : Config)
      → c'.max_sessions ≡ c.max_sessions
      → c'.max_rooms ≡ c.max_rooms
      → IsPositive c'.max_sessions
      → IsPositive c'.max_rooms
      → IsPositive c'.handshake_timeout
      → IsPositive c'.idle_timeout
      → IsPositive c'.max_sessions_per_ip
      → ConfigOutcome c (accepted c')

or_default-IsPositive :
    (missing : Bool) (value other : ℤ)
    → IsPositive other
    → (missing ≡ false → IsPositive value)
    → IsPositive (or_default missing value other)
or_default-IsPositive true value other h k = h
or_default-IsPositive false value other h k = k refl

or_cases : (p q : Bool) → (p || q) ≡ true → (p ≡ true) ⊎ (q ≡ true)
or_cases true q e = inl refl
or_cases false q e = inr e

none_of : (p q : Bool) → (p || q) ≡ false → (p ≡ false) × (q ≡ false)
none_of true q e = cc
none_of false q e = (refl, e)

at_least_one : (z : ℤ) → ltb_ℤ z (pos 1) ≡ false → IsPositive z
at_least_one (pos n) e = ground (arith, e)
at_least_one (negsuc n) e = ground (arith, e)

not_zero : (z : ℤ) → ltb_ℤ z (pos 0) ≡ false → eq_ℤ z (pos 0) ≡ false → IsPositive z
not_zero (pos n) e f = ground (arith, f)
not_zero (negsuc n) e f = ground (arith, e)

above_zero : (z : ℤ) → leb_ℤ z (pos 0) ≡ false → IsPositive z
above_zero (pos n) e = ground (arith, e)
above_zero (negsuc n) e = ground (arith, e)

-- A configuration is refused if the limit of sessions or of rooms is not positive, or else if the idle
-- timeout or the limit for an address is negative. Otherwise every limit and every timeout that the
-- server works with is positive, and the limits of sessions and rooms are the given ones.
pub configured-ConfigOutcome : (c : Config) → ConfigOutcome c (configured c)
unfolding configured
configured-ConfigOutcome c =
    elim (Bool-cases (ltb_ℤ c.max_sessions (pos 1) || ltb_ℤ c.max_rooms (pos 1))) [
      | inl e ↦ rw (e, configured) (no_limits (or_cases _ _ e))
      | inr e ↦
          elim (Bool-cases (ltb_ℤ c.idle_timeout (pos 0) || ltb_ℤ c.max_sessions_per_ip (pos 0))) [
            | inl f ↦ rw (e, configured) rw f (negative (or_cases _ _ f))
            | inr f ↦
                rw (e, configured) rw f
                  (sound _ refl refl (at_least_one c.max_sessions (none_of _ _ e).0)
                    (at_least_one c.max_rooms (none_of _ _ e).1)
                    (or_default-IsPositive _ c.handshake_timeout (pos (10 * second)) refl
                      (above_zero c.handshake_timeout))
                    (or_default-IsPositive _ c.idle_timeout (pos (600 * second)) refl
                      (not_zero c.idle_timeout (none_of _ _ f).0))
                    (or_default-IsPositive _ c.max_sessions_per_ip (pos 16) refl
                      (not_zero c.max_sessions_per_ip (none_of _ _ f).1)))
          ]
    ]
