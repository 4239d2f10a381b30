-- ===== src/Client/Examples.antt =====
-- Frames of a client with short names (client/src/client/client.rs).
use segmented_memory_storage.Common.{ℕ, List, ◌≡◌, refl, [], ◌∷◌, ◌++◌, arith}
use segmented_memory_storage.Common.Bytes.{to_le_bytes}
use segmented_memory_storage.Common.Outcome.{ok}
use segmented_memory_storage.Common.Texts.{Text}
use segmented_memory_storage.Common.Utf8.{is_utf8}
use segmented_memory_storage.Proto.Command
use segmented_memory_storage.Proto.Parse.{parse_command}
use segmented_memory_storage.Proto.Reads.{IsStr}
use segmented_memory_storage.Proto.Responses.{ResponseBuilder}
use segmented_memory_storage.Client.Frames
use segmented_memory_storage.Client.Sent.{Sent, parse_command-Sent}

abbrev name : Text
name = 108 ∷ 111 ∷ 103 ∷ []

name-IsStr : IsStr name
unfolding is_utf8
name-IsStr = record { fits = omega arith; utf8 = refl }

-- A call of `add`.
add_frame :
    Frames.add name 7 (1 ∷ 2 ∷ [])
    ≡ 3 ∷ 3 ∷ 0 ∷ 108 ∷ 111 ∷ 103 ∷ 7 ∷ 0 ∷ 0 ∷ 0 ∷ 0 ∷ 0 ∷ 0 ∷ 0 ∷ 2 ∷ 0 ∷ 0 ∷ 0 ∷ 1 ∷ 2 ∷ []
unfolding to_le_bytes
add_frame = refl

add_sent : Sent (Command.add name 7 (1 ∷ 2 ∷ [])) (Frames.add name 7 (1 ∷ 2 ∷ []))
add_sent = Sent.add name 7 (1 ∷ 2 ∷ []) name-IsStr (omega arith) (omega arith)

parse_command-Sent_example :
    parse_command (Frames.add name 7 (1 ∷ 2 ∷ []) ++ 5 ∷ []) ≡ ok (Command.add name 7 (1 ∷ 2 ∷ []))
parse_command-Sent_example = parse_command-Sent _ _ (5 ∷ []) add_sent

-- A conversion that leaves all bytes as they are.
abbrev unchanged : List ℕ → Text
unchanged s = s

abbrev stale : ResponseBuilder
stale = record { buf = 9 ∷ 9 ∷ [] }

abbrev rows : List (ℕ × (ℕ × List ℕ))
rows = (1, (100, 7 ∷ 8 ∷ [])) ∷ (2, (200, [])) ∷ []
