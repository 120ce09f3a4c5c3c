-- ===== src/Constants/Event.antt =====
-- internal/constants/event.go.
use gb_522_a16g.Base.{String, Bool, true, false, List, [], ◌∷◌}

pub data EventType : Type 0 where
  connector splice bend break end unknown : EventType
  unsupported : String → EventType

unfoldable pub valid_event : EventType → Bool
valid_event (unsupported s) = false
valid_event _ = true

unfoldable pub event_types : List EventType
event_types = connector ∷ splice ∷ bend ∷ break ∷ end ∷ unknown ∷ []

-- The strings of the constants.
abbrev pub event_name : EventType → String
event_name connector = "connector"
event_name splice = "splice"
event_name bend = "bend"
event_name break = "break"
event_name end = "end"
event_name unknown = "unknown"
event_name (unsupported s) = s
