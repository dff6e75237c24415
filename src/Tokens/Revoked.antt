-- ===== src/Tokens/Revoked.antt =====
-- Calls of the token manager of token_manager.py after a revocation.
use hermes_agora.Base.{
  Option, ◌⊎◌, Option-cases, none, eq_refl, ◌≢◌, ap, All, ◌∙◌, ◌+◌, refl, text-cases, ℕ, suc, ◌≤◌,
  ◌<◌, String, ◌≡◌, inl, inr, Bool, true, false, some, List, [], ◌∷◌, arith, ◌==◌, Bool-cases,
  length,
}
use hermes_agora.Base.Dict
use hermes_agora.Base.Dict.{Dict}
use hermes_agora.Tokens.{
  zero_default, Claims, TokenPayload, Decoded, expired, invalid, claims, payload, TokenManager,
  maybe_cleanup, block, blocked, judged, rotated, validate_token, revoke_token, rotate_token,
}
use hermes_agora.Tokens.Clean.{
  IsAlive, get-maybe_cleanup, length-put, length-maybe_cleanup, secret-maybe_cleanup,
}

-- The calls that change a token manager, with the times at which they come.
pub data Call (Token : Type 0) : Type 0 where
  validate : (monotonic now : ℕ) (token : Token) → Call Token
  revoke : (now : ℕ) (token : Token) → Call Token
  rotate : (now : ℕ) (jti : String) (token : Token) → Call Token

abbrev pub time_of : {Token : Type 0} → Call Token → ℕ
time_of (validate monotonic now token) = now
time_of (revoke now token) = now
time_of (rotate now jti token) = now

abbrev pub token_of : {Token : Type 0} → Call Token → Token
token_of (validate monotonic now token) = token
token_of (revoke now token) = token
token_of (rotate now jti token) = token

-- What the library is documented to do: to ask for the expiry only rejects more tokens, among them
-- those whose expiry, if they have one, is not in the future; and whenever a token is accepted, the
-- claims are those that it was signed with.
pub record Jwt {Token : Type 0} (decode : Bool → ℕ → Token → String → Decoded) : Type 0 where
  pub verified :
      (now : ℕ) (token : Token) (secret : String) (c : Claims)
      → decode true now token secret ≡ claims c
      → (decode false now token secret ≡ claims c)
        × ((c.exp ≡ none) ⊎ ((e : ℕ) × (c.exp ≡ some e) × (now < e)))
  pub same :
      (now later : ℕ) (token : Token) (secret : String) (c d : Claims)
      → decode false now token secret ≡ claims c
      → decode false later token secret ≡ claims d
      → c ≡ d

module _ {Token : Type 0} (encode : Claims → String → Token)
    (decode : Bool → ℕ → Token → String → Decoded) where
  unfoldable pub call : Call Token → TokenManager → TokenManager
  unfolding validate_token revoke_token rotate_token
  call (validate monotonic now token) m = (validate_token encode decode monotonic now token m).0
  call (revoke now token) m = revoke_token encode decode now token m
  call (rotate now jti token) m = (rotate_token encode decode now jti token m).0

  unfoldable pub run : List (Call Token) → TokenManager → TokenManager
  unfolding call
  run [] m = m
  run (x ∷ calls) m = run calls (call x m)

  -- The call comes no later than `t`, and a token with the id of `c` has its expiry.
  abbrev pub IsPlain : Claims → String → ℕ → Call Token → Type 0
  IsPlain c secret t x =
      (time_of x ≤ t)
      × ((d : Claims)
          → decode false (time_of x) (token_of x) secret ≡ claims d
          → d.jti ≡ c.jti
          → d.exp ≡ c.exp)

  -- The token of the claims is on the blocklist, which holds no more than `n` ids.
  abbrev IsListed : Claims → String → ℕ → TokenManager → Type 0
  IsListed c secret n m =
      (Dict.get c.jti m.blocklist ≡ some (zero_default c.exp))
      × (length m.blocklist ≤ n)
      × (m.secret ≡ secret)

  put-listed :
      (c d : Claims) (m : TokenManager)
      → (d.jti ≡ c.jti → d.exp ≡ c.exp)
      → Dict.get c.jti m.blocklist ≡ some (zero_default c.exp)
      → Dict.get c.jti (Dict.put d.jti (zero_default d.exp) m.blocklist) ≡ some (zero_default c.exp)
  put-listed c d m same h = elim (text-cases d.jti c.jti) [
    | inl (e, p) ↦
        rw (Dict.get-put d.jti c.jti (zero_default d.exp) m.blocklist, e)
          (ap (λ x. some (zero_default x)) (same p))
    | inr (e, _) ↦ rw (Dict.get-put d.jti c.jti (zero_default d.exp) m.blocklist, e) h
  ]

  IsListed-block :
      (c d : Claims) (secret : String) (n : ℕ) (m : TokenManager)
      → (d.jti ≡ c.jti → d.exp ≡ c.exp)
      → IsListed c secret n m
      → IsListed c secret (suc n) (block d m)
  IsListed-block c d secret n m same (h, short, s) = elim (Bool-cases (d.jti == "")) [
    | inl e ↦ rw e (h, omega (arith, short), s)
    | inr e ↦ rw e (
      put-listed c d m same h,
      omega (arith, short, length-put d.jti (zero_default d.exp) m.blocklist),
      s,
    )
  ]

  IsListed-blocked :
      (c : Claims) (secret : String) (n : ℕ) (m : TokenManager) (r : Decoded)
      → ((d : Claims) → r ≡ claims d → d.jti ≡ c.jti → d.exp ≡ c.exp)
      → IsListed c secret n m
      → IsListed c secret (suc n) (blocked encode decode r m)
  IsListed-blocked c secret n m expired same (h, short, s) = (h, omega (arith, short), s)
  IsListed-blocked c secret n m invalid same (h, short, s) = (h, omega (arith, short), s)
  IsListed-blocked c secret n m (claims d) same l = IsListed-block c d secret n m (same d refl) l

  rotated-blocked :
      (now : ℕ) (jti : String) (r : Decoded) (m : TokenManager)
      → (rotated encode decode now jti r m).0 ≡ blocked encode decode r m
  rotated-blocked now jti expired m = refl
  rotated-blocked now jti invalid m = refl
  rotated-blocked now jti (claims d) m = refl

  earlier : (s t e : ℕ) → s ≤ t → IsAlive t e → IsAlive s e
  earlier s t e h (inl z) = inl z
  earlier s t e h (inr l) = inr (omega (arith, h, l))

  IsListed-call :
      (c : Claims) (secret : String) (t n : ℕ) (x : Call Token) (m : TokenManager)
      → n ≤ 10000
      → IsAlive t (zero_default c.exp)
      → IsPlain c secret t x
      → IsListed c secret n m
      → IsListed c secret (suc n) (call x m)
  unfolding call validate_token revoke_token rotate_token
  IsListed-call c secret t n (validate monotonic now token) m room live (early, same)
        (h, short, s) =
      (
        get-maybe_cleanup c.jti (zero_default c.exp) monotonic now m h
            (earlier now t (zero_default c.exp) early live) (omega (arith, short, room)),
        omega (arith, short, length-maybe_cleanup monotonic now m),
        secret-maybe_cleanup monotonic now m ∙ s,
      )
  IsListed-call c secret t n (revoke now token) m room live (early, same) (h, short, s) =
      IsListed-blocked c secret n m (decode false now token m.secret) (rw s same) (h, short, s)
  IsListed-call c secret t n (rotate now jti token) m room live (early, same) (h, short, s) =
      rw (rotated-blocked now jti (decode false now token m.secret) m)
        (IsListed-blocked c secret n m (decode false now token m.secret) (rw s same) (h, short, s))

  IsListed-run :
      (c : Claims) (secret : String) (t n : ℕ) (calls : List (Call Token)) (m : TokenManager)
      → n + length calls ≤ 10000
      → IsAlive t (zero_default c.exp)
      → All (IsPlain c secret t) calls
      → IsListed c secret n m
      → IsListed c secret (n + length calls) (run calls m)
  unfolding run
  IsListed-run c secret t n [] m room live p (h, short, s) = (h, omega (arith, short), s)
  IsListed-run c secret t n (x ∷ calls) m room live p l =
      let rest =
        IsListed-run c secret t (suc n) calls (call x m) (omega (arith, room)) live p.1
          (IsListed-call c secret t n x m (omega (arith, room)) live p.0 l) in
      (rest.0, omega (arith, rest.1), rest.2)

  judged-payload :
      (r : Decoded) (m : TokenManager) (p : TokenPayload)
      → judged encode decode r m ≡ payload p
      → (c : Claims) × (r ≡ claims c) × (Dict.get c.jti m.blocklist ≡ none)
  judged-payload expired m p h = absurd (cc h)
  judged-payload invalid m p h = absurd (cc h)
  judged-payload (claims c) m p h = elim (Option-cases (Dict.get c.jti m.blocklist)) [
    | inl e ↦ (c, refl, e)
    | inr (n, e) ↦ absurd (cc (rw (judged, e) at h))
  ]

  secret-blocked : (r : Decoded) (m : TokenManager) → (blocked encode decode r m).secret ≡ m.secret
  secret-blocked expired m = refl
  secret-blocked invalid m = refl
  secret-blocked (claims d) m = ground arith

  secret-call : (x : Call Token) (m : TokenManager) → (call x m).secret ≡ m.secret
  unfolding call validate_token revoke_token rotate_token
  secret-call (validate monotonic now token) m = secret-maybe_cleanup monotonic now m
  secret-call (revoke now token) m = secret-blocked (decode false now token m.secret) m
  secret-call (rotate now jti token) m =
      rw (rotated-blocked now jti (decode false now token m.secret) m)
        (secret-blocked (decode false now token m.secret) m)

  secret-run : (calls : List (Call Token)) (m : TokenManager) → (run calls m).secret ≡ m.secret
  unfolding run
  secret-run [] m = refl
  secret-run (x ∷ calls) m = secret-run calls (call x m) ∙ secret-call x m

  alive-exp :
      (t : ℕ) (exp : Option ℕ)
      → (exp ≡ none) ⊎ ((e : ℕ) × (exp ≡ some e) × (t < e))
      → IsAlive t (zero_default exp)
  alive-exp t exp (inl h) = inl (rw h refl)
  alive-exp t exp (inr (e, h, l)) = inr (rw h (omega (arith, l)))

  -- Where the library verifies the expiry of tokens that have one and gives the same claims
  -- whenever it accepts a token, a token with an id that is revoked is not accepted at a later
  -- time, whatever calls come in between, as long as the blocklist has room for them below its
  -- limit of 10000 ids, none of them comes later than that time, and a token with the same id has
  -- the same expiry.
  pub revoked_rejected :
      (c : Claims) (token : Token) (now monotonic t : ℕ) (calls : List (Call Token))
      (m : TokenManager)
      → Jwt decode
      → decode false now token m.secret ≡ claims c
      → (c.jti == "") ≡ false
      → length m.blocklist + suc (length calls) ≤ 10000
      → All (IsPlain c m.secret t) calls
      → (p : TokenPayload)
      → (validate_token encode decode monotonic t token
          (run calls (revoke_token encode decode now token m))).1
        ≢ payload p
  unfolding validate_token revoke_token
  revoked_rejected c token now monotonic t calls m jwt known named room plain p h =
      let start : IsListed c m.secret (suc (length m.blocklist)) (block c m) = rw named (
        rw (Dict.get-put c.jti c.jti (zero_default c.exp) m.blocklist, eq_refl c.jti) refl,
        length-put c.jti (zero_default c.exp) m.blocklist,
        refl,
      ) in
      let blocks : revoke_token encode decode now token m ≡ block c m = rw known refl in
      let last = run calls (block c m) in
      let same_secret : last.secret ≡ m.secret =
        secret-run calls (block c m) ∙ secret-blocked (claims c) m in
      let secret_after : (maybe_cleanup monotonic t last).secret ≡ m.secret =
        secret-maybe_cleanup monotonic t last ∙ same_secret in
      let (d, found, gone) =
        judged-payload (decode true t token (maybe_cleanup monotonic t last).secret)
          (maybe_cleanup monotonic t last) p (rw blocks at h) in
      let (plainly, live) = jwt.verified t token m.secret d (rw secret_after at found) in
      let same : c ≡ d = jwt.same now t token m.secret c d known plainly in
      let live_c : IsAlive t (zero_default c.exp) = rw same (alive-exp t d.exp live) in
      let (listed, short, _) =
        IsListed-run c m.secret t (suc (length m.blocklist)) calls (block c m) (omega (arith, room))
          live_c plain start in
      let kept =
        get-maybe_cleanup c.jti (zero_default c.exp) monotonic t last listed live_c
          (omega (arith, short, room)) in
      absurd (cc (kept, gone, same))
