-- ===== src/Tests/Changes.antt =====
-- A change of configuration, src/core/forwarder_wan.c, at concrete inputs.
use ne_multi_core.Base.{
  ℕ, ◌+◌, ◌≡◌, refl, arith, true, false, none, List, [], ◌∷◌, replicate, All, ◌⊎◌,
}
use ne_multi_core.Base.Int.{pos}
use ne_multi_core.Config.{AppConfig, ProfileConfig, WanConfig}
use ne_multi_core.Ring.{no_packet}
use ne_multi_core.Wan.{no_drain, WanState, Forwarder, wan_drain_grace_ms}
use ne_multi_core.Wan.Removal.{IsNamed, fwd_wan_configure_removal_drains, removal-IsNamed}
use ne_multi_core.Wan.Blend.{Blend}
use ne_multi_core.Wan.Blend.Begin.{IsBegun, fwd_wan_weight_blend_begin, blend_begin-IsBegun}

abbrev a_forwarder : Forwarder
a_forwarder = record {
  wan_count = 2;
  mid_to_wan = λ dp w. record {
    buf = replicate 4 no_packet;
    cap = 4;
    mask = 3;
    head = 0;
    tail = 0;
    mpsc_pop = false;
  };
  wan_ifnames = λ dp. (101 + dp) ∷ [];
  wan_cfg_idx = λ dp. pos dp;
  pool = record { buf = replicate 4 0; cap = 4; mask = 3; head = 0; tail = 0 };
}

abbrev in_service : WanState
in_service = record { drains = λ dp. no_drain; active_dp_count = 2; stopped = λ dp. false }

abbrev a_wan : ℕ → WanConfig
a_wan n = record {
  ifname = n ∷ [];
  dst_ip = 0;
  src_mac = replicate 6 0;
  dst_mac = replicate 6 0;
  window_size = 4000;
  dataplane = true;
}

abbrev a_profile : ℕ → ProfileConfig
a_profile weight = record {
  id = pos 1;
  enabled = true;
  local_indices = [];
  wan_indices = pos 0 ∷ [];
  wan_bandwidth_weight = pos weight ∷ [];
  policy_indices = [];
}

abbrev config : List WanConfig → ℕ → AppConfig
config wans weight = record {
  locals = [];
  wans = wans;
  crypto_enabled = false;
  profiles = a_profile weight ∷ [];
  policies = [];
}

-- The second WAN is removed, and the weight of the first one changes.
abbrev before : AppConfig
before = config (a_wan 101 ∷ a_wan 102 ∷ []) 10

abbrev after : AppConfig
after = config (a_wan 101 ∷ []) 30

removal-IsNamed_example :
    let (fwd', s') = fwd_wan_configure_removal_drains 1000 before after a_forwarder in_service in
    (((s'.drains 1).active ≡ true)
      × (((s'.drains 1).until_ms ≡ 1000 + wan_drain_grace_ms) ⊎ (false ≡ true)))
    ⊎ IsNamed after (102 ∷ []) (fwd'.wan_cfg_idx 1)
removal-IsNamed_example =
    removal-IsNamed 1000 before after a_forwarder in_service 1 (a_wan 102) (omega arith) refl refl
      refl

abbrev an_old_blend : Blend
an_old_blend = record {
  active = true;
  profile_id = pos 9;
  wan_cfg = [];
  old_w = [];
  new_w = [];
  start_ms = 0;
  until_ms = 5000;
}

blend_begin-IsBegun_example :
    All
      (IsBegun 1000 before.profiles after.profiles)
      (fwd_wan_weight_blend_begin 1000 before after (λ id. none) (an_old_blend ∷ an_old_blend ∷ []))
blend_begin-IsBegun_example =
    blend_begin-IsBegun 1000 before after (λ id. none) (an_old_blend ∷ an_old_blend ∷ [])
