-- ===== src/Emulator/Guard.antt =====
-- `Emulator::InitAdminServer` and the constructor of `AdminServer`: when the administrator's server
-- listens to other hosts.
use mathlib.Core.Path.{subst}
use gamespy_emulator.Admin.Client.{Server, make}
use gamespy_emulator.Emulator.Last.{last_value, value_or, other_option, value_or-last_or}
use gamespy_emulator.Emulator.Options.{
  AdminOptions, is_disabled, admin_port, admin_option, admin_options, init_admin_server,
}
use gamespy_emulator.Prelude.{
  ◌≡◌, ◌≢◌, ◌⊎◌, refl, ap, sym, ◌∙◌, true, false, Option, none, some, Bytes, List, [], ◌∷◌, ◌++◌,
  codes, equal, after_prefix, inl, inr, Option-cases, Bool-cases, some_injective, arith,
}
use gamespy_emulator.Utils.Password.{Base64, base64_encode}

abbrev user_prefix : Bytes
user_prefix = codes "-admin-user="

abbrev password_prefix : Bytes
password_prefix = codes "-admin-password="

-- The name and the password behind an argument.
abbrev HasNames : Option Bytes → Option Bytes → AdminOptions → AdminOptions → Type 0
HasNames user password o o' =
    (o'.username ≡ value_or o.username user) × (o'.password ≡ value_or o.password password)

admin_port-HasNames : (arg : Bytes) (o : AdminOptions) → HasNames none none o (admin_port arg o)
admin_port-HasNames arg o = elim (Option-cases (after_prefix (codes "-admin-port=") arg)) [
  | inl n ↦ rw (n, admin_port) (refl, refl)
  | inr (port, e) ↦ rw (e, admin_port) (refl, refl)
]

admin_option-HasNames :
    (arg : Bytes) (o o' : AdminOptions)
    → admin_option arg o ≡ some o'
    → HasNames (after_prefix user_prefix arg) (after_prefix password_prefix arg) o o'
unfolding admin_option
admin_option-HasNames arg o o' h = elim (Option-cases (after_prefix user_prefix arg)) [
  | inr (user, e) ↦
      rw
        (
          e,
          other_option (codes "-admin-") b'u' b'p' (codes "ser=") (codes "assword=") arg user refl
              e,
        )
        (subst (HasNames (some user) none o) (some_injective (rw (e, admin_option) at h))
          (refl, refl))
  | inl n ↦ elim (Option-cases (after_prefix password_prefix arg)) [
    | inr (password, e) ↦
        rw (n, e)
          (subst (HasNames none (some password) o) (some_injective (rw (n, e, admin_option) at h))
            (refl, refl))
    | inl m ↦ elim (Bool-cases (is_disabled arg)) [
      | inl off ↦ ground (arith, rw (n, m, off, admin_option) at h)
      | inr on ↦
          rw (n, m)
            (subst (HasNames none none o) (some_injective (rw (n, m, on, admin_option) at h))
              (admin_port-HasNames arg o))
    ]
  ]
]

admin_options-HasNames :
    (args : List Bytes) (o o' : AdminOptions)
    → admin_options args o ≡ some o'
    → HasNames (last_value user_prefix args) (last_value password_prefix args) o o'
unfolding admin_options last_value
admin_options-HasNames [] o o' h = subst (HasNames none none o) (some_injective h) (refl, refl)
admin_options-HasNames (arg ∷ args) o o' h = elim (Option-cases (admin_option arg o)) [
  | inl n ↦ ground (arith, rw (n, admin_options) at h)
  | inr (next, e) ↦
      let (user, password) = admin_option-HasNames arg o next e in
      let (user', password') = admin_options-HasNames args next o' (rw (e, admin_options) at h) in
      (
        user'
            ∙ ap (λ d. value_or d (last_value user_prefix args)) user
            ∙ value_or-last_or o.username (after_prefix user_prefix arg)
                (last_value user_prefix args),
        password'
            ∙ ap (λ d. value_or d (last_value password_prefix args)) password
            ∙ value_or-last_or o.password (after_prefix password_prefix arg)
                (last_value password_prefix args),
      )
]

-- The arguments give a name and a password, and the server asks for the last of them.
pub record IsGuarded (base64 : Base64) (args : List Bytes) (server : Server) : Type 0 where
  pub username : Bytes
  pub password : Bytes
  pub has_username : last_value (codes "-admin-user=") args ≡ some username
  pub has_password : last_value (codes "-admin-password=") args ≡ some password
  pub some_username : username ≢ []
  pub some_password : password ≢ []
  pub asks :
      server.auth ≡ codes "Basic " ++ base64_encode base64 (username ++ codes ":" ++ password)

value_or-some : (o : Option Bytes) (v : Bytes) → v ≡ value_or [] o → equal v [] ≡ false → o ≡ some v
unfolding equal
value_or-some none v e h = ground (arith, rw e at h)
value_or-some (some w) v e h = ap some (sym e)

not_empty : (v : Bytes) → equal v [] ≡ false → v ≢ []
unfolding equal
not_empty [] h = ground arith
not_empty (c ∷ v) h = λ e. cc

-- The administrator's server that is started listens to the loopback address only, or the
-- arguments give a name and a password, neither of them empty, and it asks for the last of each.
pub init_admin_server-IsGuarded :
    (base64 : Base64) (args : List Bytes) (o : AdminOptions)
    → init_admin_server args ≡ some o
    → ((make base64 o.username o.password).loopback_only ≡ true)
      ⊎ IsGuarded base64 args (make base64 o.username o.password)
unfolding init_admin_server make
init_admin_server-IsGuarded base64 args o h =
    let (user, password) = admin_options-HasNames args _ o h in
    elim (Bool-cases (equal o.username [])) [
      | inl no_user ↦ inl (rw (no_user, make) refl)
      | inr has_user ↦ elim (Bool-cases (equal o.password [])) [
        | inl no_password ↦ inl (rw (has_user, no_password, make) refl)
        | inr has_password ↦ inr (record {
          username = o.username;
          password = o.password;
          has_username = value_or-some (last_value user_prefix args) o.username user has_user;
          has_password =
              value_or-some (last_value password_prefix args) o.password password has_password;
          some_username = not_empty o.username has_user;
          some_password = not_empty o.password has_password;
          asks = rw (has_user, has_password, make) refl;
        })
      ]
    ]
