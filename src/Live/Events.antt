-- ===== src/Live/Events.antt =====
-- src/live.rs: `publish`, and the messages kept for clients that connect later.
pub mod Recent
use storage_harvester.Base.{
  ℕ, ◌==◌, Bool, true, false, List, [], ◌∷◌, ◌++◌, if◌then◌else◌, length, drop,
}
use storage_harvester.Live.{Message, change, scan, other, replay}

-- `kind == "change"`.
abbrev pub is_change : Message → Bool
is_change (change t host target path delta) = true
is_change (scan t host target duration total) = false
is_change (other kind) = false

-- The messages kept after one more is published. Whoever is subscribed gets it besides.
unfoldable pub publish : Message → List Message → List Message
publish m recent =
    if is_change m
    then ((if length recent == replay then drop 1 recent else recent) ++ m ∷ [])
    else recent

unfoldable pub publish_all : List Message → List Message → List Message
publish_all [] recent = recent
publish_all (m ∷ ms) recent = publish_all ms (publish m recent)
