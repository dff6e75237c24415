-- ===== src/Tokens.antt =====
-- agora/coordinator/token_manager.py. The library `jwt` is a parameter: `encode` signs claims with a
-- secret, and `decode` verifies a token, its expiry only where it is asked to. The random ids are
-- arguments. Times are whole seconds, as they stand in a token.
pub mod Clean
pub mod Revoked
use hermes_agora.Base.{
  ℕ, ◌+◌, ◌-◌, ◌<◌, String, ◌≡◌, Bool, true, false, not, ◌&&◌, Option, none, some, [], ◌==◌, ltb,
  eqb, if◌then◌else◌, length, keep,
}
use hermes_agora.Base.Dict
use hermes_agora.Base.Dict.{Dict}

-- The claims of a token: none where a claim is missing, but an empty id in place of a missing one,
-- as the code reads it.
pub record Claims : Type 0 where
  pub agent_id : Option String
  pub role : Option String
  pub tenant_id : Option String
  pub exp : Option ℕ
  pub iat : Option ℕ
  pub jti : String

-- `data.get("exp", 0)`, and the same for `iat`
abbrev pub zero_default : Option ℕ → ℕ
zero_default none = 0
zero_default (some n) = n

pub record TokenPayload : Type 0 where
  pub agent_id : String
  pub role : String
  pub tenant_id : Option String
  pub exp : ℕ
  pub iat : ℕ
  pub jti : String

-- what `jwt.decode` does: it returns claims or raises one of its two kinds of error
pub data Decoded : Type 0 where
  expired invalid : Decoded
  claims : Claims → Decoded

-- what `validate_token` does: it returns a payload, or raises ValueError, or KeyError for a missing
-- agent or role
pub data Validated : Type 0 where
  payload : TokenPayload → Validated
  token_expired invalid_token revoked missing_key : Validated

-- `TokenPayload(agent_id=data["agent_id"], role=data["role"], …)`
abbrev pub payload_of : Claims → Option String → Option String → Validated
payload_of c none role = missing_key
payload_of c (some agent) none = missing_key
payload_of c (some agent) (some role) = payload record {
  agent_id = agent;
  role = role;
  tenant_id = c.tenant_id;
  exp = zero_default c.exp;
  iat = zero_default c.iat;
  jti = c.jti;
}

-- what `rotate_token` does: it returns a token, or raises ValueError or KeyError
pub data Rotated (Token : Type 0) : Type 0 where
  issued : Token → Rotated Token
  cannot_rotate no_agent_or_role : Rotated Token

pub record TokenManager : Type 0 where
  pub secret : String
  pub blocklist : Dict ℕ
  pub last_cleanup : ℕ

abbrev pub default_expiry_seconds : ℕ
default_expiry_seconds = 3600

abbrev pub blocklist_cleanup_interval : ℕ
blocklist_cleanup_interval = 300

-- `expires_delta or DEFAULT_EXPIRY_SECONDS`
abbrev pub lifetime : Option ℕ → ℕ
lifetime none = default_expiry_seconds
lifetime (some delta) = if eqb delta 0 then default_expiry_seconds else delta

-- `not (exp and exp < cutoff)`
abbrev pub stays : ℕ → String × ℕ → Bool
stays cutoff entry = not (ltb 0 entry.1 && ltb entry.1 cutoff)

-- `_maybe_cleanup`, at a reading of the monotonic clock and one of the time
unfoldable pub maybe_cleanup : ℕ → ℕ → TokenManager → TokenManager
maybe_cleanup monotonic now m =
    let live = keep (stays now) m.blocklist in
    if ltb (monotonic - m.last_cleanup) blocklist_cleanup_interval then m else record m {
      last_cleanup = monotonic;
      blocklist = if ltb 10000 (length live) then [] else live;
    }

-- `if jti: self._blocklist[jti] = exp`
abbrev pub block : Claims → TokenManager → TokenManager
block c m =
    if c.jti == ""
    then m
    else record m { blocklist = Dict.put c.jti (zero_default c.exp) m.blocklist }

module _ {Token : Type 0} (encode : Claims → String → Token)
    (decode : Bool → ℕ → Token → String → Decoded) where
  unfoldable pub create_token :
      ℕ → String → String → String → Option String → Option ℕ → TokenManager → Token
  create_token now jti agent role tenant delta m =
      encode
        record {
          agent_id = some agent;
          role = some role;
          tenant_id = tenant;
          exp = some (now + lifetime delta);
          iat = some now;
          jti = jti;
        }
        m.secret

  abbrev judged : Decoded → TokenManager → Validated
  judged expired m = token_expired
  judged invalid m = invalid_token
  judged (claims c) m = elim (Dict.get c.jti m.blocklist) [
    | some _ ↦ revoked
    | none ↦ payload_of c c.agent_id c.role
  ]

  unfoldable pub validate_token : ℕ → ℕ → Token → TokenManager → TokenManager × Validated
  unfolding maybe_cleanup Dict.get
  validate_token monotonic now token m =
      let after = maybe_cleanup monotonic now m in
      (after, judged (decode true now token after.secret) after)

  abbrev blocked : Decoded → TokenManager → TokenManager
  blocked expired m = m
  blocked invalid m = m
  blocked (claims c) m = block c m

  unfoldable pub revoke_token : ℕ → Token → TokenManager → TokenManager
  unfolding Dict.put
  revoke_token now token m = blocked (decode false now token m.secret) m

  abbrev reissued :
      ℕ → String → Claims → Option String → Option String → TokenManager → Rotated Token
  reissued now jti c none role m = no_agent_or_role
  reissued now jti c (some agent) none m = no_agent_or_role
  reissued now jti c (some agent) (some role) m =
      issued (create_token now jti agent role c.tenant_id none m)

  abbrev rotated : ℕ → String → Decoded → TokenManager → TokenManager × Rotated Token
  rotated now jti expired m = (m, cannot_rotate)
  rotated now jti invalid m = (m, cannot_rotate)
  rotated now jti (claims c) m =
      let after = block c m in (after, reissued now jti c c.agent_id c.role after)

  -- `jti` is the id of the new token
  unfoldable pub rotate_token : ℕ → String → Token → TokenManager → TokenManager × Rotated Token
  unfolding create_token Dict.put
  rotate_token now jti old m = rotated now jti (decode false now old m.secret) m
