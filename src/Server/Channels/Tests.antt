-- ===== src/Server/Channels/Tests.antt =====
-- A peer that opens two data channels.
use whet.Server.Channels.Crash.{signals, dialled}
use whet.Server.Channels.Crash.{channels_crash}
use whet.Base.{List, ◌≡◌, some, none, ◌∷◌, ◌↔◌, ◌≤◌, [], ◌⊎◌}
use whet.Server.Channels.{on_events, ChannelEvent, fresh_groups, dials}

abbrev twice : List ChannelEvent
twice = dials (some 4) ∷ dials none ∷ dials (some 5) ∷ []

channels_crash_example :
    (on_events twice fresh_groups ≡ none) ↔ ((2 ≤ signals twice) ⊎ (2 ≤ dialled twice))
channels_crash_example = channels_crash twice
