-- ===== src/Examples/Sessions.antt =====
-- A token that is revoked, and the shares of a token limiter.
use hermes_agora.Base.{
  Option, ℕ, ◌+◌, ◌-◌, ◌*◌, ◌≤◌, ◌<◌, String, ◌≡◌, refl, sym, ap, ◌∙◌, subst, ◌≢◌, ◌⊎◌, inl, inr,
  Bool, true, false, ◌&&◌, none, some, [], ◌∷◌, arith, ◌==◌, ltb, leb, if◌then◌else◌, Bool-cases,
  Option-cases,
}
use hermes_agora.Base.Dict
use hermes_agora.Base.Int.{pos, negsuc}
use hermes_agora.RateLimit.Tokens.{configure}
use hermes_agora.RateLimit.Tokens.Shares.{serve, share_bound}
use hermes_agora.Tokens.{
  zero_default, TokenPayload, Claims, Decoded, expired, invalid, claims, payload, TokenManager,
  validate_token, revoke_token,
}
use hermes_agora.Tokens.Revoked.{Jwt, validate, run, revoked_rejected}

-- A token that holds its claims and the secret that it was signed with.
abbrev encode : Claims → String → Claims × String
encode c secret = (c, secret)

-- A claim of an instant in the future is not accepted, whether the expiry is verified or not.
abbrev judge_expiry : Bool → ℕ → Claims → Option ℕ → Decoded
judge_expiry verify now c none = claims c
judge_expiry verify now c (some e) = if verify && leb e now then expired else claims c

abbrev judge : Bool → ℕ → Claims → Decoded
judge verify now c =
    if ltb now (zero_default c.iat) then invalid else judge_expiry verify now c c.exp

judge_expiry-unverified :
    (now : ℕ) (c : Claims) (exp : Option ℕ) → judge_expiry false now c exp ≡ claims c
judge_expiry-unverified now c none = refl
judge_expiry-unverified now c (some e) = refl

abbrev decode : Bool → ℕ → Claims × String → String → Decoded
decode verify now (c, key) secret = if key == secret then judge verify now c else invalid

judge-claims : (verify : Bool) (now : ℕ) (c d : Claims) → judge verify now c ≡ claims d → c ≡ d
judge-claims verify now c d h = elim (Bool-cases (ltb now (zero_default c.iat))) [
  | inl e ↦ absurd (cc (rw e at h))
  | inr e ↦ elim (Option-cases c.exp) [
    | inl f ↦ cc (rw (e, f) at h)
    | inr (x, f) ↦ elim (Bool-cases (verify && leb x now)) [
      | inl g ↦ absurd (cc (rw (e, f, g) at h))
      | inr g ↦ cc (rw (e, f, g) at h)
    ]
  ]
]

judge-verified :
    (now : ℕ) (c d : Claims)
    → judge true now c ≡ claims d
    → (judge false now c ≡ claims c) × ((c.exp ≡ none) ⊎ ((e : ℕ) × (c.exp ≡ some e) × (now < e)))
judge-verified now c d h = elim (Bool-cases (ltb now (zero_default c.iat))) [
  | inl e ↦ absurd (cc (rw e at h))
  | inr e ↦ elim (Option-cases c.exp) [
    | inl f ↦ (rw e (judge_expiry-unverified now c c.exp), inl f)
    | inr (x, f) ↦ elim (Bool-cases (leb x now)) [
      | inl g ↦ absurd (cc (rw (e, f, g) at h))
      | inr g ↦ (rw e (judge_expiry-unverified now c c.exp), inr (x, f, ground (arith, g)))
    ]
  ]
]

decode-judge :
    (verify : Bool) (now : ℕ) (token : Claims × String) (secret : String) (c : Claims)
    → decode verify now token secret ≡ claims c
    → ((token.1 == secret) ≡ true) × (judge verify now token.0 ≡ claims c)
decode-judge verify now (d, key) secret c h = elim (Bool-cases (key == secret)) [
  | inr e ↦ absurd (cc (rw e at h))
  | inl e ↦ (e, rw e at h)
]

decode-Jwt : Jwt decode
decode-Jwt = record {
  verified = λ now token secret c h.
      let (signed, judged) = decode-judge true now token secret c h in
      let one = judge-claims true now token.0 c judged in
      let (plain, live) = judge-verified now token.0 c judged in
      (
        rw signed (plain ∙ ap claims one),
        subst (λ x. (x.exp ≡ none) ⊎ ((e : ℕ) × (x.exp ≡ some e) × (now < e))) one live,
      );
  same = λ now later token secret c d h k.
      sym (judge-claims false now token.0 c (decode-judge false now token secret c h).1)
      ∙ judge-claims false later token.0 d (decode-judge false later token secret d k).1;
}

abbrev manager : TokenManager
manager = record { secret = "s"; blocklist = []; last_cleanup = 0 }

abbrev access : Claims
access = record {
  agent_id = some "ann";
  role = some "agent";
  tenant_id = none;
  exp = some 3700;
  iat = some 100;
  jti = "a1";
}

abbrev reader : TokenPayload
reader = record {
  agent_id = "ann";
  role = "agent";
  tenant_id = none;
  exp = 3700;
  iat = 100;
  jti = "a1";
}

revoked_rejected_example :
    (validate_token encode decode 9 400
      (access, "s")
      (run encode decode
        (validate 8 300 (access, "s") ∷ [])
        (revoke_token encode decode 200 (access, "s") manager))).1
    ≢ payload reader
revoked_rejected_example =
    revoked_rejected encode decode access (access, "s") 200 9 400
      (validate 8 300 (access, "s") ∷ []) manager decode-Jwt refl refl (omega arith)
      ((omega arith, λ d h same. let one : access ≡ d = cc h in ap (λ x. x.exp) (sym one)), tt)
      reader

share_bound_example :
    (serve "ann"
      ((70, "ann", pos 3) ∷ (75, "ann", negsuc 1) ∷ (80, "bob", pos 9) ∷ [])
      (configure 60 "ann" 100 1500000 [])
      0).1
    ≤ 100 * 1500000 * 60 + 100 * (90 - 60) + 2 * 60000000
unfolding Dict.get
share_bound_example =
    share_bound "ann" 60 90 100 1500000 []
      ((70, "ann", pos 3) ∷ (75, "ann", negsuc 1) ∷ (80, "bob", pos 9) ∷ []) (omega arith) refl
      (omega arith, omega arith)
