-- ===== src/Rcon/Examples.antt =====
-- The command "save-all flush" to a server that accepts the password "pw".
use helios_horizon.Common.{
  ℕ, ◌+◌, ◌≤◌, ◌≡◌, ◌≢◌, refl, true, false, some, List, [], ◌∷◌, ◌++◌, pos, negsuc, ◌==◌, length,
  leb, if◌then◌else◌, arith, take,
}
use helios_horizon.Rcon.Packets.{
  Text, Utf8, max_packet, packet, got, invalid, read_packet, to_word, of_word, unpack, read_body,
}
use helios_horizon.Rcon.RoundTrip.{packet-read_packet}
use helios_horizon.Rcon.Client.{Env, Session, answered, next_id, is_command, execute}
use helios_horizon.Rcon.Conversations.{next_id-bounds, Conversation, execute-Conversation}
use helios_horizon.Rcon.Answers.{execute-answered}

-- UTF-8 of the code points below 128
abbrev ascii : Utf8
ascii = record { encode = λ text. text; decode = λ bytes. some bytes }

packet-read_packet_example :
    (bytes : List ℕ) × (packet ascii (negsuc 0) (pos 2) (111 ∷ 107 ∷ []) ≡ some bytes)
    × (read_packet ascii (bytes ++ (7 ∷ 7 ∷ [])) ≡ (
        if leb (length (ascii.encode (111 ∷ 107 ∷ [])) + 10) max_packet
        then got (negsuc 0) (pos 2) (111 ∷ 107 ∷ []) (7 ∷ 7 ∷ [])
        else invalid))
unfolding to_word
packet-read_packet_example =
    packet-read_packet ascii (negsuc 0) (pos 2) 4294967295 2 (111 ∷ 107 ∷ []) (7 ∷ 7 ∷ []) refl refl
      refl (omega arith)

abbrev secret : Text
secret = 112 ∷ 119 ∷ []

-- "save-all flush"
abbrev flush : Text
flush = 115 ∷ 97 ∷ 118 ∷ 101 ∷ 45 ∷ 97 ∷ 108 ∷ 108 ∷ 32 ∷ 102 ∷ 108 ∷ 117 ∷ 115 ∷ 104 ∷ []

-- "Saved"
abbrev saved : Text
saved = 83 ∷ 97 ∷ 118 ∷ 101 ∷ 100 ∷ []

abbrev calm_world : Env
calm_world = record {
  utf8 = ascii;
  password = some secret;
  fails = λ n. false;
  is_space = λ c. c == 32;
}

-- The acceptance of the id 1, and the answer to the id 2.
abbrev acceptance : List ℕ
acceptance = 10 ∷ 0 ∷ 0 ∷ 0 ∷ 1 ∷ 0 ∷ 0 ∷ 0 ∷ 2 ∷ 0 ∷ 0 ∷ 0 ∷ 0 ∷ 0 ∷ []

abbrev response : List ℕ
response = 15 ∷ 0 ∷ 0 ∷ 0 ∷ 2 ∷ 0 ∷ 0 ∷ 0 ∷ 0 ∷ 0 ∷ 0 ∷ 0 ∷ (saved ++ 0 ∷ 0 ∷ [])

abbrev fresh : Session
fresh = record {
  request_id = 0;
  sent = [];
  stream = acceptance ++ response;
  tick = 0;
  connected = false;
}

execute-Conversation_example :
    let (reply, s') = execute calm_world flush true fresh in
    Conversation calm_world flush fresh reply s'.sent
execute-Conversation_example =
    execute-Conversation calm_world flush true fresh (λ password known. ground arith) (omega arith)

execute-answered_example : (execute calm_world flush true fresh).0 ≡ answered (take 8192 saved)
unfolding read_packet unpack of_word read_body next_id is_command
execute-answered_example =
    execute-answered calm_world secret flush true fresh saved [] response [] (λ n. refl) refl refl
      (omega arith) (omega arith) refl refl refl

next_id-bounds_example :
    (1 ≤ next_id 2000000000)
    × (next_id 2000000000 ≤ 2000000000)
    × (next_id (next_id 2000000000) ≢ next_id 2000000000)
next_id-bounds_example = next_id-bounds 2000000000
