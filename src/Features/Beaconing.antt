-- ===== src/Features/Beaconing.antt =====
-- BeaconingFeatureExtractor of features/beaconing_features.py.
use sih.Features.Numbers.{Numbers}
use sih.Features.Ddos.{add_to}
use sih.Features.Sketch.{CountMinSketch, new_sketch}
use sih.Prelude.{[], List, some, none, Option, String, ◌-◌, ℕ, if◌then◌else◌, ltb}
use sih.Dict.{put, lookup}
use sih.Features.Online.{new_welford, Welford, update_welford, get_stddev}
use sih.Features.Sweep.{sweep_stale_state}
use sih.Parsers.Packet.{Meta}
use sih.Prelude.Eq.{string_eq}

-- f"{src}->{dst}"
abbrev pub pair_of : String → String → String
pair_of src dst = Prim.Native.String.◌++◌ src (Prim.Native.String.◌++◌ "->" dst)

module _ (nu : Numbers) where
  open nu use {F, int, over, lt}

  pub record FlowIats : Type 0 where
    pub last_time : ℕ
    pub welford : Welford nu

  pub record BeaconingExtractor : Type 0 where
    pub flow_iats : List (String × FlowIats)
    pub dst_fan_in_cms : CountMinSketch

  abbrev pub new_beaconing : BeaconingExtractor
  new_beaconing = record { flow_iats = []; dst_fan_in_cms = new_sketch 512 3 }

  -- A first packet starts the statistics; a later one counts its distance, if time went on.
  unfoldable pub seen : ℕ → Option FlowIats → FlowIats
  unfolding update_welford
  seen now none = record { last_time = now; welford = new_welford nu }
  seen now (some stat) =
      if ltb stat.last_time now
      then record {
        last_time = now;
        welford = update_welford nu (int (now - stat.last_time)) stat.welford;
      }
      else record stat { last_time = now }

  unfoldable pub update_beaconing :
      (ℕ → String → ℕ) → Meta → ℕ → BeaconingExtractor → BeaconingExtractor
  unfolding seen lookup
  update_beaconing digest m now b =
      let pair = pair_of m.src_ip m.dst_ip in
      record {
        flow_iats = put pair (seen now (lookup pair b.flow_iats)) b.flow_iats;
        dst_fan_in_cms = add_to digest m.dst_ip b.dst_fan_in_cms;
      }

  -- `dst_fan_in` is the count of a sketch; `none` stands for its exceptions, `some none` for infinity.
  pub record BeaconingFeatures : Type 0 where
    pub mean_iat : F
    pub iat_cv : F
    pub dst_fan_in : Option (Option ℕ)

  abbrev cv_of : Welford nu → F
  unfolding get_stddev
  cv_of w = if lt (int 0) w.mean then over (get_stddev nu w) w.mean else int 0

  abbrev rhythm : Option FlowIats → F × F
  unfolding get_stddev
  rhythm none = (int 0, int 0)
  rhythm (some stat) =
      if ltb 1 stat.welford.count then (stat.welford.mean, cv_of stat.welford) else (int 0, int 0)

  unfoldable pub extract_beaconing :
      (ℕ → String → ℕ) → (src_ip dst_ip : String) → BeaconingExtractor → BeaconingFeatures
  unfolding get_stddev lookup sih.Features.Sketch.get
  extract_beaconing digest src_ip dst_ip b =
      let found = rhythm (lookup (pair_of src_ip dst_ip) b.flow_iats) in
      record {
        mean_iat = found.0;
        iat_cv = found.1;
        dst_fan_in = sih.Features.Sketch.get digest dst_ip b.dst_fan_in_cms;
      }

  unfoldable pub sweep_beaconing : ℕ → ℕ → BeaconingExtractor → BeaconingExtractor
  unfolding sweep_stale_state
  sweep_beaconing now ttl b = record b {
    flow_iats = sweep_stale_state (λ s. s.last_time) now ttl b.flow_iats;
  }
