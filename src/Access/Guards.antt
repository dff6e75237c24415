-- ===== src/Access/Guards.antt =====
-- Who gets past the decorator.
use hermes_agora.Base.{
  ap, subst, arith, ◌∙◌, sym, false≢true, inl, inr, Bool-cases, String, ◌≡◌, refl, ◌↔◌, ◌⊎◌, true,
  false, Option, none, some,
}
use hermes_agora.Access.{
  ℕ, Answer, Role, Permission, rbac_enforced, check_permission, http_error, answered, requires,
}

abbrev code_of {ℓ} : {A : Type ℓ} → Answer A → ℕ
code_of (http_error code) = code
code_of (answered _) = 200

module _ {ℓ} {A : Type ℓ} (setting : String) (permission : Permission) (result : A) where
  requires-off :
      (role : Option Role)
      → rbac_enforced setting ≡ false
      → requires setting permission role result ≡ answered result
  unfolding requires
  requires-off role e = rw (requires, e) refl

  requires-nobody :
      rbac_enforced setting ≡ true → requires setting permission none result ≡ http_error 401
  unfolding requires
  requires-nobody e = rw (requires, e) refl

  requires-refused :
      (r : Role)
      → rbac_enforced setting ≡ true
      → check_permission r permission ≡ false
      → requires setting permission (some r) result ≡ http_error 403
  unfolding requires
  requires-refused r e f = rw (requires, e, f) refl

  requires-granted :
      (r : Role)
      → rbac_enforced setting ≡ true
      → check_permission r permission ≡ true
      → requires setting permission (some r) result ≡ answered result
  unfolding requires
  requires-granted r e f = rw (requires, e, f) refl

  -- What lets a call through.
  abbrev pub Passes : Option Role → Type 0
  Passes role =
      (rbac_enforced setting ≡ false)
      ⊎ ((r : Role) × (role ≡ some r) × (check_permission r permission ≡ true))

  none-Passes : (role : Option Role) → rbac_enforced setting ≡ true → role ≡ none → ¬ Passes role
  none-Passes role e f (inl h) = false≢true (sym h ∙ e)
  none-Passes role e f (inr (r, g, _)) = absurd (cc (f, g))

  refused-Passes :
      (r : Role)
      → rbac_enforced setting ≡ true
      → check_permission r permission ≡ false
      → ¬ Passes (some r)
  refused-Passes r e f (inl h) = false≢true (sym h ∙ e)
  refused-Passes r e f (inr (q, g, h)) =
      let same : r ≡ q = cc g in
      false≢true (sym f ∙ subst (λ x. check_permission x permission ≡ true) (sym same) h)

  -- A call passes the decorator exactly where the rules are not enforced or the caller has a role
  -- with the permission that is asked for; it is answered 401 exactly where the rules are enforced
  -- and the caller has no role.
  pub requires_exact :
      (role : Option Role)
      → ((requires setting permission role result ≡ answered result) ↔ Passes role)
        × ((requires setting permission role result ≡ http_error 401)
            ↔ ((rbac_enforced setting ≡ true) × (role ≡ none)))
  requires_exact role = elim (Bool-cases (rbac_enforced setting)) [
    | inr e ↦
        let t = requires-off role e in
        ((λ _. inl e, λ _. t), (λ h. absurd (cc (h, t)), λ h. absurd (false≢true (sym e ∙ h.0))))
    | inl e ↦ on e role
  ]
    where
      some_role : {r : Role} → some r ≡ none → ⊥
      some_role h = cc h

      status_apart : {x : Answer A} → x ≡ http_error 401 → x ≡ http_error 403 → ⊥
      status_apart h t = absurd (ground (arith, ap code_of (sym h ∙ t)))

      on :
          rbac_enforced setting ≡ true
          → (role : Option Role)
          → ((requires setting permission role result ≡ answered result) ↔ Passes role)
            × ((requires setting permission role result ≡ http_error 401)
                ↔ ((rbac_enforced setting ≡ true) × (role ≡ none)))
      on e none =
          let t = requires-nobody e in
          (
            (λ h. absurd (cc (h, t)), λ h. absurd (none-Passes none e refl h)),
            (λ _. (e, refl), λ _. t),
          )
      on e (some r) = elim (Bool-cases (check_permission r permission)) [
        | inl f ↦
            let t = requires-granted r e f in
            (
              (λ _. inr (r, refl, f), λ _. t),
              (λ h. absurd (cc (h, t)), λ h. absurd (some_role h.1)),
            )
        | inr f ↦
            let t = requires-refused r e f in
            (
              (λ h. absurd (cc (h, t)), λ h. absurd (refused-Passes r e f h)),
              (λ h. absurd (status_apart h t), λ h. absurd (some_role h.1)),
            )
      ]
