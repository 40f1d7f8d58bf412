-- ===== src/Messages/AppState.antt =====
-- Edge/edgemessages.{h,cpp}: the application states that a message carries.
use serverlessonedge.Prelude.{String, Bool, true, not, ◌&&◌, [], str_eq, ◌≡◌, refl, arith}
use serverlessonedge.Prelude.Map.{Map, str_eq_refl}
use serverlessonedge.Prelude.Map.Sorted.{IsSorted}
use serverlessonedge.Messages.Rpc
use serverlessonedge.Messages.Wire.{emplace_all, Carries}
use serverlessonedge.Messages.Wire.Laws.{fill-round}

-- `struct State`
pub record AppState : Type 0 where
  pub location : String
  pub content : String

unfoldable pub from_location : String → AppState
from_location location = record { location = location; content = "" }

unfoldable pub from_content : String → AppState
from_content content = record { location = ""; content = content }

abbrev pub from_protobuf : Rpc.State → AppState
from_protobuf s = record { location = s.location; content = s.content }

-- The name of the state is not set.
abbrev pub to_protobuf : AppState → Rpc.State
to_protobuf s = record { name = ""; location = s.location; content = s.content }

-- `operator==`
abbrev pub same_state : AppState → AppState → Bool
same_state s t = str_eq s.location t.location && str_eq s.content t.content

unfoldable pub remote : AppState → Bool
remote s = not (str_eq s.location "")

-- `deserializeStates`
unfoldable pub deserialize_states : Map Rpc.State → Map AppState
unfolding emplace_all
deserialize_states m = emplace_all from_protobuf [] m

-- `serializeStates`, into the empty map of a new message.
unfoldable pub serialize_states : Map AppState → Map Rpc.State
unfolding emplace_all
serialize_states m = emplace_all to_protobuf [] m

-- The states of a message arrive as they were sent, in whatever order they travel.
pub deserialize_states_lem :
    (m : Map AppState) (w : Map Rpc.State)
    → IsSorted m
    → Carries (serialize_states m) w
    → deserialize_states w ≡ m
unfolding deserialize_states serialize_states
deserialize_states_lem m w s c = fill-round to_protobuf from_protobuf (λ t. refl) m w s c

pub same_state_refl : (s : AppState) → same_state s s ≡ true
same_state_refl s = ground (arith, str_eq_refl s.location, str_eq_refl s.content)
