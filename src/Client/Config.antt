-- ===== src/Client/Config.antt =====
-- When a connect is refused for its configuration.
use lightway_cffi.Base.{
  ℕ, Bool, true, false, ◌&&◌, not, is_some, if◌then◌else◌, ◌≡◌, refl, ap, ◌∙◌, Option, none, some,
  List, [], inl, inr, Bool-cases, Result, ok, err, ok_or, ◌>>=◌,
}
use lightway_cffi.Client.{
  ReturnCode, he_success, he_err_ssl_error, he_err_bad_param, he_err_conf_not_set,
  he_err_invalid_conn_state, SslCtx,
}
use lightway_cffi.Client.Core.{AuthMethod, Core, Std, Client}
use lightway_cffi.Client.Events.{Inner}
use lightway_cffi.Client.Connect.{
  is_config_valid, config_code, auth_of, auth_of_token, named_step, chacha20_step, build, prepare,
  install, begin, connect_with, client_connect_locked,
}

abbrev pub is_conf_not_set : ReturnCode → Bool
is_conf_not_set he_err_conf_not_set = true
is_conf_not_set _ = false

abbrev pub is_success : ReturnCode → Bool
is_success he_success = true
is_success _ = false

-- Whether a chain of steps fails with a code that passes a test.
abbrev pub fails : {A : Type 0} → (ReturnCode → Bool) → Result A ReturnCode → Bool
fails p (ok a) = false
fails p (err code) = p code

abbrev refused : {A : Type 0} → Result A ReturnCode → Bool
refused r = fails is_conf_not_set r

module _ {A B : Type 0} (p : ReturnCode → Bool) where
  fails-bind :
      (r : Result A ReturnCode) (f : A → Result B ReturnCode)
      → fails p r ≡ false
      → ((a : A) → fails p (f a) ≡ false)
      → fails p (r >>= f) ≡ false
  fails-bind (ok a) f h g = g a
  fails-bind (err code) f h g = h

  -- A chain fails where its first step does.
  fails_first :
      (r : Result A ReturnCode) (f : A → Result B ReturnCode)
      → ((a : A) → fails p (f a) ≡ false)
      → fails p (r >>= f) ≡ fails p r
  fails_first (ok a) f g = g a
  fails_first (err code) f g = refl

fails-ok_or :
    {A : Type 0} (p : ReturnCode → Bool) (o : Option A) (code : ReturnCode)
    → p code ≡ false
    → fails p (ok_or {E = ReturnCode} o code) ≡ false
fails-ok_or p none code h = h
fails-ok_or p (some a) code h = refl

module _ (C : Core) (std : Std) (p : ReturnCode → Bool) (hs : p he_err_ssl_error ≡ false)
    (hb : p he_err_bad_param ≡ false) where
  fails-named_step :
      (name : Option (List ℕ)) (step : C.ConnBuilder → List ℕ → C.ConnBuilder) (b : C.ConnBuilder)
      → fails p (named_step C std name step b) ≡ false
  unfolding named_step
  fails-named_step none step b = refl
  fails-named_step (some name) step b = elim (Bool-cases (std.is_utf8 name)) [
    | inl h ↦ rw (h) refl
    | inr h ↦ rw (h) hb
  ]

  fails-chacha20_step :
      (ssl_ctx : SslCtx) (b : C.Builder) → fails p (chacha20_step C std ssl_ctx b) ≡ false
  unfolding chacha20_step
  fails-chacha20_step ssl_ctx b = elim (Bool-cases ssl_ctx.use_chacha20) [
    | inl h ↦ rw (h) (fails-ok_or p (C.with_chacha20 b) he_err_ssl_error hs)
    | inr h ↦ rw (h) refl
  ]

  fails-build :
      (client : Client C) (cb : ℕ) (ca : List ℕ) (auth : AuthMethod)
      → fails p (build C std client cb ca auth) ≡ false
  unfolding build
  fails-build client cb ca auth = fails-bind p _ _ (fails-ok_or p _ he_err_ssl_error hs) (λ b.
      fails-bind p _ _ (fails-chacha20_step client.ssl_ctx b) (λ b'.
        fails-bind p _ _ (fails-ok_or p _ he_err_ssl_error hs) (λ c.
          fails-bind p _ _ (fails-named_step client.ssl_ctx.server_dn _ _) (λ c'.
            fails-bind p _ _ (fails-named_step client.conn.sni_hostname _ _) (λ c''. refl)))))

  fails-auth_of :
      (hc : p he_err_conf_not_set ≡ false) (u w t : Option (List ℕ))
      → fails p (auth_of C std u w t) ≡ false
  unfolding auth_of auth_of_token
  fails-auth_of hc none w none = hc
  fails-auth_of hc (some u) none none = hc
  fails-auth_of hc none w (some t) = elim (Bool-cases (std.is_utf8 t)) [
    | inl h ↦ rw (h) refl
    | inr h ↦ rw (h) hb
  ]
  fails-auth_of hc (some u) none (some t) = elim (Bool-cases (std.is_utf8 t)) [
    | inl h ↦ rw (h) refl
    | inr h ↦ rw (h) hb
  ]
  fails-auth_of hc (some u) (some w) t = elim (Bool-cases (std.is_utf8 u && std.is_utf8 w)) [
    | inl h ↦ rw (h) refl
    | inr h ↦ rw (h) hb
  ]

  -- What fails before the connect starts fails with one of three codes.
  pub fails-prepare :
      p he_err_conf_not_set ≡ false → (client : Client C) → fails p (prepare C std client) ≡ false
  unfolding prepare
  fails-prepare hc client =
      fails-bind p (ok_or client.ssl_ctx.outside_write_cb he_err_conf_not_set) _
        (fails-ok_or p client.ssl_ctx.outside_write_cb he_err_conf_not_set hc)
        (λ o.
          fails-bind p (ok_or client.ssl_ctx.ca_cert he_err_conf_not_set) _
            (fails-ok_or p client.ssl_ctx.ca_cert he_err_conf_not_set hc)
            (λ ca.
              fails-bind p
                (auth_of C std client.conn.username client.conn.password client.conn.auth_token)
                (build C std client o ca)
                (fails-auth_of hc client.conn.username client.conn.password client.conn.auth_token)
                (fails-build client o ca)))

module _ (C : Core) (std : Std) where
  refused-auth_of_token : (t : Option (List ℕ)) → refused (auth_of_token C std t) ≡ not (is_some t)
  unfolding auth_of_token
  refused-auth_of_token none = refl
  refused-auth_of_token (some bytes) = elim (Bool-cases (std.is_utf8 bytes)) [
    | inl t ↦ rw (t) refl
    | inr f ↦ rw (f) refl
  ]

  refused-auth_of :
      (u p t : Option (List ℕ))
      → refused (auth_of C std u p t) ≡ not (is_some u && is_some p) && not (is_some t)
  unfolding auth_of
  refused-auth_of none p t = refused-auth_of_token t
  refused-auth_of (some u) none t = refused-auth_of_token t
  refused-auth_of (some u) (some p) t = elim (Bool-cases (std.is_utf8 u && std.is_utf8 p)) [
    | inl h ↦ rw (h) refl
    | inr h ↦ rw (h) refl
  ]

  refused_steps :
      (o : Option ℕ) (c : Option (List ℕ)) (r : Result AuthMethod ReturnCode) (missing : Bool)
      (f : ℕ → List ℕ → AuthMethod → Result C.ConnBuilder ReturnCode)
      → refused r ≡ missing
      → ((x : ℕ) (y : List ℕ) (z : AuthMethod) → refused (f x y z) ≡ false)
      → refused
          (ok_or o he_err_conf_not_set >>= λ x. ok_or c he_err_conf_not_set >>= λ y. r >>= f x y)
        ≡ is_conf_not_set (
            if missing
            then he_err_conf_not_set
            else if not (is_some o)
            then he_err_conf_not_set
            else if not (is_some c)
            then he_err_conf_not_set
            else he_success)
  refused_steps none c r true f h g = refl
  refused_steps none c r false f h g = refl
  refused_steps (some x) none r true f h g = refl
  refused_steps (some x) none r false f h g = refl
  refused_steps (some x) (some y) r true f h g = fails_first is_conf_not_set r (f x y) (g x y) ∙ h
  refused_steps (some x) (some y) r false f h g = fails_first is_conf_not_set r (f x y) (g x y) ∙ h

  refused-prepare :
      (client : Client C) → refused (prepare C std client) ≡ is_conf_not_set (config_code C client)
  unfolding prepare config_code
  refused-prepare client =
      refused_steps client.ssl_ctx.outside_write_cb client.ssl_ctx.ca_cert
        (auth_of C std client.conn.username client.conn.password client.conn.auth_token) _
        (build C std client)
        (refused-auth_of client.conn.username client.conn.password client.conn.auth_token)
        (fails-build C std is_conf_not_set refl refl client)

  install_code :
      (client : Client C) (inner : Inner C std) (o : Option C.Connection)
      → is_conf_not_set (install C std client inner o).2 ≡ false
  unfolding install
  install_code client inner none = refl
  install_code client inner (some core) = refl

  refused-begin :
      (client : Client C) (r : Result C.ConnBuilder ReturnCode)
      → is_conf_not_set (begin C std client r).2 ≡ refused r
  unfolding begin connect_with
  refused-begin client (err code) = refl
  refused-begin client (ok b) = install_code client _ (C.connect b).1

  -- With no connection, a connect answers that the configuration is not set exactly when the
  -- validation of the configuration does.
  pub client_connect_locked-is_config_valid :
      (client : Client C)
      → client.connection ≡ none
      → is_conf_not_set (client_connect_locked C std client).2
        ≡ is_conf_not_set (is_config_valid C (some client))
  unfolding client_connect_locked is_config_valid
  client_connect_locked-is_config_valid client n =
      ap
        (λ o.
          is_conf_not_set
            (if is_some o
              then (client, [], he_err_invalid_conn_state)
              else begin C std client (prepare C std client)).2)
        n
      ∙ refused-begin client (prepare C std client)
      ∙ refused-prepare client
