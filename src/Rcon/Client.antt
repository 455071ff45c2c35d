-- ===== src/Rcon/Client.antt =====
-- `RconClient` of src/game_control/rcon.py.
use helios_horizon.Common.{
  ℕ, ◌+◌, ◌%◌, Bool, true, false, not, ◌&&◌, ◌||◌, Option, none, some, List, [], ◌∷◌, ℤ, pos,
  negsuc, eqb_ℤ, leb, ◌==◌, length, take, all, if◌then◌else◌,
}
use helios_horizon.Rcon.Packets.{Text, Utf8, packet, Reading, got, invalid, incomplete, read_packet}

-- What the client meets: its password, if it can be read; which of the waits, by their number, end
-- in a timeout or an OSError; and `str.isspace`.
pub record Env : Type 0 where
  pub utf8 : Utf8
  pub password : Option Text
  pub fails : ℕ → Bool
  pub is_space : ℕ → Bool

-- The last request id, what was written, with the last packet first, what the server has yet to
-- say, and the number of waits.
pub record Session : Type 0 where
  pub request_id : ℕ
  pub sent : List (List ℕ)
  pub stream : List ℕ
  pub tick : ℕ
  pub connected : Bool

-- What `execute` returns, an RconError, or a struct.error.
pub data Reply : Type 0 where
  answered : Text → Reply
  refused struct_error : Reply

-- What a request is answered with: a packet, an RconError, one of the exceptions that become one,
-- or a struct.error of the request.
pub data Heard : Type 0 where
  heard : ℤ → ℤ → Text → Heard
  rejected broken unpackable : Heard

-- `_next_id`
unfoldable pub next_id : ℕ → ℕ
next_id n = n % 2000000000 + 1

abbrev pub is_empty : Text → Bool
is_empty [] = true
is_empty (c ∷ text) = false

abbrev pub starts_with_space : Text → Bool
starts_with_space [] = false
starts_with_space (c ∷ text) = c == 32

abbrev pub ends_with_space : Text → Bool
ends_with_space [] = false
ends_with_space (c ∷ []) = c == 32
ends_with_space (c ∷ text) = ends_with_space text

-- None of the refusals of a command.
unfoldable pub is_command : Text → Bool
is_command command =
    not (is_empty command)
    && leb (length command) 512
    && not (starts_with_space command)
    && not (ends_with_space command)
    && all (λ c. leb 32 c && not (c == 127)) command

module _ (env : Env) where
  abbrev pub parsed : Reading → Session → Heard × Session
  parsed (got id type text rest) s =
      (heard id type text, record s { stream = rest; tick = s.tick + 1 })
  parsed invalid s = (rejected, record s { tick = s.tick + 1 })
  parsed incomplete s = (broken, record s { tick = s.tick + 1 })

  -- `wait_for(_read_packet(reader))`
  unfoldable pub listen : Session → Heard × Session
  listen s =
      if env.fails s.tick
      then (broken, record s { tick = s.tick + 1 })
      else parsed (read_packet env.utf8 s.stream) s

  abbrev pub posted : Option (List ℕ) → Session → Heard × Session
  posted none s = (unpackable, s)
  posted (some bytes) s =
      let s' = record s { sent = bytes ∷ s.sent; tick = s.tick + 1 } in
      if env.fails s.tick then (broken, s') else listen s'

  -- A packet is written, and the first one after it is read.
  unfoldable pub request : ℕ → ℕ → Text → Session → Heard × Session
  request id type text s =
      posted (packet env.utf8 (pos id) (pos type) text) (record s { request_id = id })

  -- An empty value before the response to the authentication
  abbrev pub skip_empty : Heard → Session → Heard × Session
  skip_empty (heard id type text) s =
      if eqb_ℤ type (pos 0) && is_empty text then listen s else (heard id type text, s)
  skip_empty h s = (h, s)

  abbrev pub is_welcome : ℕ → Heard → Bool
  is_welcome id (heard i type text) =
      eqb_ℤ type (pos 2) && not (eqb_ℤ i (negsuc 0)) && eqb_ℤ i (pos id)
  is_welcome id h = false

  abbrev pub failed : Heard → Reply
  failed unpackable = struct_error
  failed h = refused

  -- The response to the command
  abbrev pub answer : Bool → ℕ → Heard → Reply
  answer require_ack id (heard i type text) =
      if eqb_ℤ i (pos id)
        && (eqb_ℤ type (pos 0) || eqb_ℤ type (pos 2))
        && not (require_ack && all env.is_space text)
      then answered (take 8192 text)
      else refused
  answer require_ack id h = failed h

  unfoldable pub run_command : Text → Bool → Session → Reply × Session
  run_command command require_ack s =
      let id = next_id s.request_id in
      let (h, s') = request id 2 command s in (answer require_ack id h, s')

  abbrev pub proceed : Bool → Text → Bool → Heard → Session → Reply × Session
  proceed true command require_ack h s = run_command command require_ack s
  proceed false command require_ack h s = (failed h, s)

  -- The exchange over an open connection
  unfoldable pub converse : Text → Text → Bool → Session → Reply × Session
  converse password command require_ack s =
      let id = next_id s.request_id in
      let (h, s') = request id 3 password s in
      let (h', s'') = skip_empty h s' in proceed (is_welcome id h') command require_ack h' s''

  abbrev pub with_password : Option Text → Text → Bool → Session → Reply × Session
  with_password none command require_ack s = (refused, s)
  with_password (some password) command require_ack s =
      if env.fails s.tick
      then (refused, record s { tick = s.tick + 1 })
      else let (r, s') =
          converse password command require_ack
            (record s { tick = s.tick + 1; connected = true }) in
        (r, record s' { connected = false })

  -- `execute`
  unfoldable pub execute : Text → Bool → Session → Reply × Session
  execute command require_ack s =
      if is_command command then with_password env.password command require_ack s else (refused, s)

  -- SunlitRconTransport: "save-off", "save-all flush" and "save-on"
  unfoldable pub save_off : Session → Reply × Session
  save_off = execute (115 ∷ 97 ∷ 118 ∷ 101 ∷ 45 ∷ 111 ∷ 102 ∷ 102 ∷ []) false

  unfoldable pub save_all_flush : Session → Reply × Session
  save_all_flush =
      execute (115 ∷ 97 ∷ 118 ∷ 101 ∷ 45 ∷ 97 ∷ 108 ∷ 108 ∷ 32 ∷ 102 ∷ 108 ∷ 117 ∷ 115 ∷ 104 ∷ [])
        true

  unfoldable pub save_on : Session → Reply × Session
  save_on = execute (115 ∷ 97 ∷ 118 ∷ 101 ∷ 45 ∷ 111 ∷ 110 ∷ []) false
