-- ===== src/Emulator/Endpoint.antt =====
-- `Emulator::InitStatsServer`: where snapshots are sent.
use gamespy_emulator.Emulator.Last.{last_or, last_value, value_or, other_option, value_or-last_or}
use gamespy_emulator.Emulator.Options.{
  atoi_16, StatsOptions, stats_option, stats_options, Snapshots, no_address, no_snapshots,
  snapshots_to, endpoint_at, endpoint_of, init_stats_server,
}
use gamespy_emulator.Prelude.{
  ℕ, ◌≡◌, ◌≢◌, refl, ap, ◌∙◌, Option, none, some, Bytes, List, [], ◌∷◌, codes, after_prefix, inl,
  inr, Option-cases,
}

abbrev host_prefix : Bytes
host_prefix = codes "-stats-host="

abbrev port_prefix : Bytes
port_prefix = codes "-stats-port="

abbrev pub port_or : Option ℕ → Option Bytes → Option ℕ
port_or d none = d
port_or d (some port) = some (atoi_16 port)

stats_option-host :
    (arg : Bytes) (o : StatsOptions)
    → (stats_option arg o).host ≡ value_or o.host (after_prefix host_prefix arg)
unfolding stats_option
stats_option-host arg o = elim (Option-cases (after_prefix host_prefix arg)) [
  | inr (host, e) ↦ rw (e, stats_option) refl
  | inl n ↦ elim (Option-cases (after_prefix port_prefix arg)) [
    | inr (port, e) ↦ rw (n, e, stats_option) refl
    | inl m ↦ rw (n, m, stats_option) refl
  ]
]

stats_option-port :
    (arg : Bytes) (o : StatsOptions)
    → (stats_option arg o).port ≡ port_or o.port (after_prefix port_prefix arg)
unfolding stats_option
stats_option-port arg o = elim (Option-cases (after_prefix host_prefix arg)) [
  | inr (host, e) ↦
      rw
        (
          e,
          other_option (codes "-stats-") b'h' b'p' (codes "ost=") (codes "ort=") arg host refl e,
          stats_option,
        )
        refl
  | inl n ↦ elim (Option-cases (after_prefix port_prefix arg)) [
    | inr (port, e) ↦ rw (n, e, stats_option) refl
    | inl m ↦ rw (n, m, stats_option) refl
  ]
]

port_or-last_or :
    (d : Option ℕ) (here later : Option Bytes)
    → port_or (port_or d here) later ≡ port_or d (last_or here later)
port_or-last_or d here none = refl
port_or-last_or d here (some v) = refl

stats_options-host :
    (args : List Bytes) (o : StatsOptions)
    → (stats_options args o).host ≡ value_or o.host (last_value host_prefix args)
unfolding stats_options last_value
stats_options-host [] o = refl
stats_options-host (arg ∷ args) o =
    stats_options-host args (stats_option arg o)
    ∙ ap (λ h. value_or h (last_value host_prefix args)) (stats_option-host arg o)
    ∙ value_or-last_or o.host (after_prefix host_prefix arg) (last_value host_prefix args)

stats_options-port :
    (args : List Bytes) (o : StatsOptions)
    → (stats_options args o).port ≡ port_or o.port (last_value port_prefix args)
unfolding stats_options last_value
stats_options-port [] o = refl
stats_options-port (arg ∷ args) o =
    stats_options-port args (stats_option arg o)
    ∙ ap (λ h. port_or h (last_value port_prefix args)) (stats_option-port arg o)
    ∙ port_or-last_or o.port (after_prefix port_prefix arg) (last_value port_prefix args)

-- The host and the port that are used, of those that are given.
pub data IsChosen : Bytes → Option ℕ → Bytes → ℕ → Type 0 where
  local : (port : ℕ) → IsChosen [] (some port) (codes "127.0.0.1") port
  at_80 : (host : Bytes) → host ≢ [] → IsChosen host none host 80
  both : (host : Bytes) (port : ℕ) → host ≢ [] → IsChosen host (some port) host port

pub data IsEndpoint {A : Type 0} (make_address : Bytes → Option A) (host : Bytes) (port : Option ℕ)
    : Snapshots A → Type 0 where
  without : host ≡ [] → port ≡ none → IsEndpoint make_address host port no_snapshots
  refused :
      (h : Bytes) (p : ℕ)
      → IsChosen host port h p
      → make_address h ≡ none
      → IsEndpoint make_address host port no_address
  found :
      (h : Bytes) (p : ℕ) (address : A)
      → IsChosen host port h p
      → make_address h ≡ some address
      → IsEndpoint make_address host port (snapshots_to address p)

module _ {A : Type 0} (make_address : Bytes → Option A) where
  endpoint_at-IsEndpoint :
      (host : Bytes) (port : Option ℕ) (h : Bytes) (p : ℕ)
      → IsChosen host port h p
      → IsEndpoint make_address host port (endpoint_at (make_address h) p)
  endpoint_at-IsEndpoint host port h p c = elim (Option-cases (make_address h)) [
    | inl e ↦ rw e (refused h p c e)
    | inr (a, e) ↦ rw e (found h p a c e)
  ]

  endpoint_of-IsEndpoint :
      (host : Bytes) (port : Option ℕ)
      → IsEndpoint make_address host port (endpoint_of make_address host port)
  endpoint_of-IsEndpoint [] none = without refl refl
  endpoint_of-IsEndpoint [] (some port) = endpoint_at-IsEndpoint [] (some port) _ port (local port)
  endpoint_of-IsEndpoint (c ∷ host) none =
      endpoint_at-IsEndpoint (c ∷ host) none _ 80 (at_80 (c ∷ host) (λ e. cc))
  endpoint_of-IsEndpoint (c ∷ host) (some port) =
      endpoint_at-IsEndpoint (c ∷ host) (some port) _ port (both (c ∷ host) port (λ e. cc))

  -- The endpoint is that of the last argument with a host and of the last with a port, wherever
  -- they stand: 127.0.0.1 where no host or an empty one is given, 80 where no port is, and none
  -- without either. Where make_address refuses the host, the start fails.
  pub init_stats_server-IsEndpoint :
      (args : List Bytes)
      → IsEndpoint make_address
          (value_or [] (last_value (codes "-stats-host=") args))
          (port_or none (last_value (codes "-stats-port=") args))
          (init_stats_server make_address args)
  unfolding init_stats_server
  init_stats_server-IsEndpoint args =
      rw
        (
          stats_options-host args (record { host = []; port = none }),
          stats_options-port args (record { host = []; port = none }),
          init_stats_server,
        )
        (endpoint_of-IsEndpoint _ _)
