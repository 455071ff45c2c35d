-- ===== src/Rcon/Answers.antt =====
-- `execute` of src/game_control/rcon.py returns what a server answers that accepts the password.
use helios_horizon.Common.{
  ℕ, ◌+◌, ◌<◌, ◌≡◌, refl, Bool, true, false, ◌&&◌, Option, some, List, ◌∷◌, ℤ, pos, length, take,
  all, arith,
}
use helios_horizon.Rcon.Packets.{Text, got, read_packet}
use helios_horizon.Rcon.Client.{
  Env, Session, answered, heard, next_id, is_command, listen, posted, request, is_welcome, answer,
  run_command, converse, with_password, execute,
}
use helios_horizon.Rcon.Conversations.{packet-some}

module _ (env : Env) (calm : (n : ℕ) → env.fails n ≡ false) where
  -- Where nothing fails, a request is answered with the next packet of the stream.
  posted-heard :
      (bytes : List ℕ) (s : Session) (i type : ℤ) (text rest : List ℕ)
      → read_packet env.utf8 s.stream ≡ got i type text rest
      → posted env (some bytes) s ≡ (
        heard i type text,
        record s { sent = bytes ∷ s.sent; stream = rest; tick = s.tick + 1 + 1 },
      )
  unfolding listen
  posted-heard bytes s i type text rest reading = rw (calm s.tick, calm (s.tick + 1), reading) refl

  is_welcome-own : (id : ℕ) (text : Text) → is_welcome env id (heard (pos id) (pos 2) text) ≡ true
  is_welcome-own id text = ground arith

  answer-own :
      (require_ack : Bool) (id : ℕ) (text : Text)
      → require_ack && all env.is_space text ≡ false
      → answer env require_ack id (heard (pos id) (pos 0) text) ≡ answered (take 8192 text)
  answer-own require_ack id text h = ground arith

  run_command-answered :
      (command : Text) (require_ack : Bool) (t : Session) (text rest : Text)
      → length (env.utf8.encode command) < 2147483638
      → read_packet env.utf8 t.stream ≡ got (pos (next_id t.request_id)) (pos 0) text rest
      → require_ack && all env.is_space text ≡ false
      → (run_command env command require_ack t).0 ≡ answered (take 8192 text)
  unfolding run_command request
  run_command-answered command require_ack t text rest small reading present =
      let (run, runs) = packet-some env t.request_id 2 command (omega arith) small in
      rw
        (
          runs,
          posted-heard run (record t { request_id = next_id t.request_id })
              (pos (next_id t.request_id)) (pos 0) text rest reading,
        )
        (answer-own require_ack (next_id t.request_id) text present)

  converse-answered :
      (password command : Text) (require_ack : Bool) (s : Session) (text welcome rest rest' : Text)
      → length (env.utf8.encode password) < 2147483638
      → length (env.utf8.encode command) < 2147483638
      → read_packet env.utf8 s.stream ≡ got (pos (next_id s.request_id)) (pos 2) welcome rest
      → read_packet env.utf8 rest ≡ got (pos (next_id (next_id s.request_id))) (pos 0) text rest'
      → require_ack && all env.is_space text ≡ false
      → (converse env password command require_ack s).0 ≡ answered (take 8192 text)
  unfolding converse request
  converse-answered password command require_ack s text welcome rest rest' short small greeting
        reading present =
      let (login, logs_in) = packet-some env s.request_id 3 password (omega arith) short in
      let u = record s { request_id = next_id s.request_id } in
      rw
        (
          logs_in,
          posted-heard login u (pos (next_id s.request_id)) (pos 2) welcome rest greeting,
          is_welcome-own (next_id s.request_id) welcome,
        )
        (run_command-answered command require_ack
          (record u { sent = login ∷ s.sent; stream = rest; tick = s.tick + 1 + 1 }) text rest'
          small reading present)

with_password-known :
    (env : Env) (reading : Option Text) (password command : Text) (require_ack : Bool) (s : Session)
    → reading ≡ some password
    → env.fails s.tick ≡ false
    → (with_password env reading command require_ack s).0
      ≡ (converse env password command require_ack
          (record s { tick = s.tick + 1; connected = true })).0
with_password-known env reading password command require_ack s known calm = rw (known, calm) refl

-- If the password can be read, the command is valid and nothing fails, and the next two packets of
-- the server are the acceptance of the client's next id and a value for the id after it, then
-- `execute` returns the first 8192 characters of that value, if it is not blank where an
-- acknowledgement is required. The password and the command have fewer than 2^31 - 10 bytes.
pub execute-answered :
    (env : Env) (password command : Text) (require_ack : Bool) (s : Session)
    (text welcome rest rest' : Text)
    → ((n : ℕ) → env.fails n ≡ false)
    → env.password ≡ some password
    → is_command command ≡ true
    → length (env.utf8.encode password) < 2147483638
    → length (env.utf8.encode command) < 2147483638
    → read_packet env.utf8 s.stream ≡ got (pos (next_id s.request_id)) (pos 2) welcome rest
    → read_packet env.utf8 rest ≡ got (pos (next_id (next_id s.request_id))) (pos 0) text rest'
    → require_ack && all env.is_space text ≡ false
    → (execute env command require_ack s).0 ≡ answered (take 8192 text)
unfolding execute
execute-answered env password command require_ack s text welcome rest rest' calm known valid short
      small greeting reading present =
    rw
      (
        valid,
        with_password-known env env.password password command require_ack s known (calm s.tick),
      )
      (converse-answered env calm password command require_ack
        (record s { tick = s.tick + 1; connected = true }) text welcome rest rest' short small
        greeting reading present)
