-- ===== src/Tokens/Clean.antt =====
-- What a cleanup of the blocklist leaves.
use hermes_agora.Base.{
  ◌⊎◌, ◌==◌, refl, none, Bool, ◌-◌, ℕ, suc, ◌≤◌, String, ◌≡◌, ap, inl, inr, true, false, some, [],
  ◌∷◌, arith, ltb, Bool-cases, text-cases, length, keep, length-keep-le,
}
use hermes_agora.Base.Dict
use hermes_agora.Base.Dict.{Dict}
use hermes_agora.Tokens.{blocklist_cleanup_interval, TokenManager, stays, maybe_cleanup}

get-keep :
    (k : String) (e cutoff : ℕ) (d : Dict ℕ)
    → Dict.get k d ≡ some e
    → stays cutoff (k, e) ≡ true
    → Dict.get k (keep (stays cutoff) d) ≡ some e
unfolding Dict.get
get-keep k e cutoff [] h s = h
get-keep k e cutoff ((j, x) ∷ d) h s = elim (text-cases j k) [
  | inl (t, same) ↦
      let equal : x ≡ e = cc (rw t at h) in
      let keeps : stays cutoff (j, x) ≡ true = rw equal s in rw (keeps, t) (ap some equal)
  | inr (t, _) ↦
      let rest = get-keep k e cutoff d (rw t at h) s in
      elim (Bool-cases (stays cutoff (j, x))) [ inl f ↦ rw (f, t) rest | inr f ↦ rw f rest ]
]

-- A token with this expiry, zero for none, has not expired.
abbrev pub IsAlive : ℕ → ℕ → Type 0
IsAlive now e = (e ≡ 0) ⊎ (now ≤ e)

-- Where the blocklist is not too long, a cleanup keeps the ids of tokens that have not expired.
pub get-maybe_cleanup :
    (k : String) (e monotonic now : ℕ) (m : TokenManager)
    → Dict.get k m.blocklist ≡ some e
    → IsAlive now e
    → length m.blocklist ≤ 10000
    → Dict.get k (maybe_cleanup monotonic now m).blocklist ≡ some e
unfolding maybe_cleanup
get-maybe_cleanup k e monotonic now m h l short =
    let small = length-keep-le (stays now) m.blocklist in
    let few : ltb 10000 (length (keep (stays now) m.blocklist)) ≡ false = ground (arith, small) in
    let stay : stays now (k, e) ≡ true = ground arith in
    elim (Bool-cases (ltb (monotonic - m.last_cleanup) blocklist_cleanup_interval)) [
      | inl g ↦ rw (maybe_cleanup, g) h
      | inr g ↦ rw (maybe_cleanup, g, few) (get-keep k e now m.blocklist h stay)
    ]

pub length-put : (k : String) (v : ℕ) (d : Dict ℕ) → length (Dict.put k v d) ≤ suc (length d)
unfolding Dict.put
length-put k v [] = omega arith
length-put k v ((j, w) ∷ d) = ground (arith, length-put k v d)

pub length-maybe_cleanup :
    (monotonic now : ℕ) (m : TokenManager)
    → length (maybe_cleanup monotonic now m).blocklist ≤ length m.blocklist
unfolding maybe_cleanup
length-maybe_cleanup monotonic now m = ground (arith, length-keep-le (stays now) m.blocklist)

pub secret-maybe_cleanup :
    (monotonic now : ℕ) (m : TokenManager) → (maybe_cleanup monotonic now m).secret ≡ m.secret
unfolding maybe_cleanup
secret-maybe_cleanup monotonic now m = ground arith

get-keep-none :
    (k : String) (p : String × ℕ → Bool) (d : Dict ℕ)
    → Dict.get k d ≡ none
    → Dict.get k (keep p d) ≡ none
unfolding Dict.get
get-keep-none k p [] h = refl
get-keep-none k p ((j, x) ∷ d) h = elim (Bool-cases (j == k)) [
  | inl t ↦ absurd (cc (rw t at h))
  | inr t ↦
      let rest = get-keep-none k p d (rw t at h) in
      elim (Bool-cases (p (j, x))) [ inl f ↦ rw (f, t) rest | inr f ↦ rw f rest ]
]

-- A cleanup blocks no id.
pub free-maybe_cleanup :
    (k : String) (monotonic now : ℕ) (m : TokenManager)
    → Dict.get k m.blocklist ≡ none
    → Dict.get k (maybe_cleanup monotonic now m).blocklist ≡ none
unfolding maybe_cleanup Dict.get
free-maybe_cleanup k monotonic now m h =
    elim (Bool-cases (ltb (monotonic - m.last_cleanup) blocklist_cleanup_interval)) [
      | inl g ↦ rw (maybe_cleanup, g) h
      | inr g ↦ elim (Bool-cases (ltb 10000 (length (keep (stays now) m.blocklist)))) [
        | inl f ↦ rw (maybe_cleanup, g, f) refl
        | inr f ↦ rw (maybe_cleanup, g, f) (get-keep-none k (stays now) m.blocklist h)
      ]
    ]
