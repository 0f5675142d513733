-- ===== src/Transport.antt =====
-- The transport settings, crates/transport/src/lib.rs. The configuration object of quinn is a
-- parameter with its three setters.
use send_rs.Prelude.{ℕ, String, Option, some}
use send_rs.Task.{NetworkMode}

pub record ConnectionTarget : Type 0 where
  pub peer_id : String
  pub endpoint : String
  pub network_mode : NetworkMode

pub record QuicProfile : Type 0 where
  pub max_bidi_streams : ℕ
  pub max_uni_streams : ℕ
  pub keep_alive_seconds : ℕ

abbrev pub default_profile : QuicProfile
default_profile = record { max_bidi_streams = 128; max_uni_streams = 128; keep_alive_seconds = 5 }

-- `TransportConfig`: a time is in seconds.
pub record Quinn (T : Type 0) : Type 0 where
  pub default : T
  pub max_concurrent_bidi_streams : ℕ → T → T
  pub max_concurrent_uni_streams : ℕ → T → T
  pub keep_alive_interval : Option ℕ → T → T

unfoldable pub build_transport_config : {T : Type 0} → Quinn T → QuicProfile → T
build_transport_config quinn profile = quinn.keep_alive_interval (some profile.keep_alive_seconds) (
    quinn.max_concurrent_uni_streams profile.max_uni_streams
      (quinn.max_concurrent_bidi_streams profile.max_bidi_streams quinn.default))
