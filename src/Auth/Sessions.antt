-- ===== src/Auth/Sessions.antt =====
-- Which handshakes the authenticator accepts.
use microservice_game_servic.Base.{
  ==_refl, ℕ, true, ◌≡◌, sym, ap, ◌∙◌, Bytes, Option, some, ◌==◌, bytes_comparable, bytes_beq_iff,
  ok, err, Bool-cases, Option-cases, inl, inr,
}
use microservice_game_servic.Base.Int.{ℤ, int_comparable, int_beq_iff}
use microservice_game_servic.Auth.{
  AuthResult, invalid_token, invalid_session, user_id_mismatch, SigningMethod, Token, MapClaims,
  session_key, verify_session, verify, key_func, or_blank,
}

module _ (format_int : ℤ → Bytes) (get : Bytes → Option Bytes) where
  verify_session_ok :
      (session : Bytes) (claimed user_id : ℤ) (role : Option Bytes) (a : AuthResult)
      → verify_session format_int get session claimed user_id role ≡ ok a
      → (user_id ≡ claimed)
        × (get (session_key format_int claimed) ≡ some session)
        × (a ≡ record { user_id = claimed; role = or_blank role })
  unfolding verify_session
  verify_session_ok session claimed user_id role a e = elim (Bool-cases (user_id == claimed)) [
    | inr other ↦ let refused : err user_id_mismatch ≡ ok a = rw other at e in cc
    | inl same ↦
        let own : user_id ≡ claimed = (int_beq_iff user_id claimed).0 same in
        elim (Option-cases (get (session_key format_int user_id))) [
          | inl gone ↦ let refused : err invalid_session ≡ ok a = rw (same, gone) at e in cc
          | inr (current, found) ↦ elim (Bool-cases (current == session)) [
            | inr stale ↦
                let refused : err invalid_session ≡ ok a = rw (same, found, stale) at e in cc
            | inl fresh ↦
                let accepted : ok (record { user_id = user_id; role = or_blank role }) ≡ ok a =
                  rw (same, found, fresh) at e in
                let result : record { user_id = user_id; role = or_blank role } ≡ a = cc in
                (
                  own,
                  rw own at (found ∙ ap some ((bytes_beq_iff current session).0 fresh)),
                  rw own at (sym result),
                )
          ]
        ]
  ]

-- The claim `user_id` of a token that is valid, as the number that the code takes it for.
pub record Names (to_int32 : ℕ → ℤ) (u : ℤ) (t : Token) : Type 0 where
  pub valid : t.valid ≡ true
  pub claimed :
      (c : MapClaims) × (f : ℕ) × (t.claims ≡ some c) × (c.user_id ≡ some f) × (to_int32 f ≡ u)

module _ (parse : (SigningMethod → Option Bytes) → Bytes → Option Token) (to_int32 : ℕ → ℤ)
    (format_int : ℤ → Bytes) (get : Bytes → Option Bytes) where
  -- Verify accepts only a valid token that names the claimed user, and only the session that
  -- Redis holds for that user; the result bears the claimed user id.
  pub verify_ok :
      (jwt_secret token session : Bytes) (claimed : ℤ) (a : AuthResult)
      → verify parse to_int32 format_int get jwt_secret token session claimed ≡ ok a
      → (t : Token) × (parse (key_func jwt_secret) token ≡ some t)
        × Names to_int32 claimed t
        × (get (session_key format_int claimed) ≡ some session)
        × (a.user_id ≡ claimed)
  unfolding verify
  verify_ok jwt_secret token session claimed a e =
      elim (Option-cases (parse (key_func jwt_secret) token)) [
        | inl bad ↦ let refused : err invalid_token ≡ ok a = rw (bad, verify) at e in cc
        | inr (t, parsed) ↦ elim (Bool-cases t.valid) [
          | inr bad ↦ let refused : err invalid_token ≡ ok a = rw (parsed, bad, verify) at e in cc
          | inl valid ↦ elim (Option-cases t.claims) [
            | inl bad ↦
                let refused : err invalid_token ≡ ok a = rw (parsed, valid, bad, verify) at e in cc
            | inr (c, claims) ↦ elim (Option-cases c.user_id) [
              | inl bad ↦
                  let refused : err invalid_token ≡ ok a =
                    rw (parsed, valid, claims, bad, verify) at e in
                  cc
              | inr (f, number) ↦
                  let (own, current, result) =
                    verify_session_ok format_int get session claimed (to_int32 f) c.role a
                      (rw (parsed, valid, claims, number, verify) at e) in
                  (
                    t,
                    parsed,
                    record { valid = valid; claimed = (c, f, claims, number, own) },
                    current,
                    ap (λ (x : AuthResult). x.user_id) result,
                  )
            ]
          ]
        ]
      ]

  -- And Verify accepts every such token and session.
  pub verify_accepts :
      (jwt_secret token session : Bytes) (claimed : ℤ) (t : Token)
      → parse (key_func jwt_secret) token ≡ some t
      → Names to_int32 claimed t
      → get (session_key format_int claimed) ≡ some session
      → (a : AuthResult) × (verify parse to_int32 format_int get jwt_secret token session claimed
          ≡ ok a)
        × (a.user_id ≡ claimed)
  unfolding verify verify_session
  verify_accepts jwt_secret token session claimed t parsed names current =
      let (c, f, claims, number, own) = names.claimed in
      (
        record { user_id = to_int32 f; role = or_blank c.role },
        rw (parsed, verify)
            (rw (names.valid, claims, number, own, ==_refl claimed, current, ==_refl session, own)),
        own,
      )
