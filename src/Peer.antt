-- ===== src/Peer.antt =====
-- pkg/connection.go: `DefaultPeerConnectionConfig` and `setupWebRTCConnection`, with what pion says of
-- the detaching of data channels. A peer, a data channel and a detached channel are handles.
use whet.Base.{
  ℕ, Bool, true, false, ◌≡◌, List, [], ◌∷◌, Option, none, some, Bytes, codes, if◌then◌else◌,
}

-- `webrtc.SettingEngine`: whether `DetachDataChannels` was called.
pub record SettingEngine : Type 0 where
  pub detaches : Bool

-- What is set of a `webrtc.Configuration`: the URLs of each ICE server, and whether the bundle policy is
-- `BundlePolicyMaxBundle` and the multiplexing policy `RTCPMuxPolicyRequire`.
pub record Configuration : Type 0 where
  pub ice_servers : List (List Bytes)
  pub max_bundle : Bool
  pub requires_mux : Bool

abbrev pub default_config : Configuration
default_config = record {
  ice_servers = (codes "stun:stun.l.google.com:19302" ∷ []) ∷ [];
  max_bundle = true;
  requires_mux = true;
}

-- `api.NewPeerConnection` of an API with a setting engine, and `dataChannel.Detach` for a data channel
-- of a peer.
pub record Pion : Type 0 where
  pub new_peer_connection : SettingEngine → Configuration → Option ℕ
  pub detach : ℕ → ℕ → Option ℕ

-- `Detach` of an open data channel works on a peer whose engine had `DetachDataChannels` called, and is
-- an error on any other. The second field is the detached channel.
pub record IsPion (pion : Pion) : Type 0 where
  pub raw : ℕ → ℕ → ℕ
  pub grants :
      (config : Configuration) (peer channel : ℕ)
      → pion.new_peer_connection (record { detaches = true }) config ≡ some peer
      → pion.detach peer channel ≡ some (raw peer channel)
  pub refuses :
      (config : Configuration) (peer channel : ℕ)
      → pion.new_peer_connection (record { detaches = false }) config ≡ some peer
      → pion.detach peer channel ≡ none

unfoldable pub setting_engine : Bool → SettingEngine
setting_engine detached =
    if detached then record { detaches = true } else record { detaches = false }

-- `setupWebRTCConnection`, by the peer that it returns.
unfoldable pub setup_connection : Pion → Bool → Option ℕ
unfolding setting_engine
setup_connection pion detached = pion.new_peer_connection (setting_engine detached) default_config
