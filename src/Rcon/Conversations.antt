-- ===== src/Rcon/Conversations.antt =====
-- What `execute` of src/game_control/rcon.py writes to the server, and what it returns.
use helios_horizon.Common.{
  ℕ, ◌+◌, ◌≤◌, ◌<◌, ◌≡◌, ◌≢◌, refl, ap, ◌∙◌, Bool, true, false, not, ◌&&◌, Option, none, some, List,
  ◌∷◌, pos, negsuc, eqb_ℤ, length, if◌then◌else◌, arith, Bool-cases, inl, inr,
}
use helios_horizon.Rcon.Packets.{Text, Utf8, packet, Reading, got, invalid, incomplete, read_packet}
use helios_horizon.Rcon.RoundTrip.{packet-header, to_word_size}
use helios_horizon.Rcon.Client.{
  Env, Session, Reply, answered, refused, struct_error, Heard, heard, rejected, broken, unpackable,
  next_id, is_empty, is_command, parsed, listen, posted, request, skip_empty, is_welcome, failed,
  answer, run_command, proceed, converse, with_password, execute,
}

-- The response to the authentication as it stands in the stream, after an empty value or at once.
abbrev greets : ℕ → Reading → Bool
greets id (got i type text rest) =
    eqb_ℤ type (pos 2) && not (eqb_ℤ i (negsuc 0)) && eqb_ℤ i (pos id)
greets id reading = false

abbrev welcomes : Utf8 → ℕ → Reading → Bool
welcomes utf8 id (got i type text rest) =
    if eqb_ℤ type (pos 0) && is_empty text
    then greets id (read_packet utf8 rest)
    else greets id (got i type text rest)
welcomes utf8 id reading = false

abbrev pub is_welcomed : Utf8 → ℕ → List ℕ → Bool
is_welcomed utf8 id stream = welcomes utf8 id (read_packet utf8 stream)

-- Whatever the last id is, the next one is from 1 to 2000000000, so it fits the packet's field,
-- and it is never that of the request before.
pub next_id-bounds :
    (n : ℕ) → (1 ≤ next_id n) × (next_id n ≤ 2000000000) × (next_id (next_id n) ≢ next_id n)
unfolding next_id
next_id-bounds n = (omega arith, omega arith, λ e. omega arith)

abbrev is_unpackable : Heard → Bool
is_unpackable unpackable = true
is_unpackable h = false

module _ (env : Env) where
  parsed_lem :
      (reading : Reading) (s : Session)
      → ((parsed env reading s).1.sent ≡ s.sent)
        × ((parsed env reading s).1.request_id ≡ s.request_id)
        × (is_unpackable (parsed env reading s).0 ≡ false)
  parsed_lem (got i type text rest) s = (refl, refl, refl)
  parsed_lem invalid s = (refl, refl, refl)
  parsed_lem incomplete s = (refl, refl, refl)

  listen_lem :
      (s : Session)
      → ((listen env s).1.sent ≡ s.sent)
        × ((listen env s).1.request_id ≡ s.request_id)
        × (is_unpackable (listen env s).0 ≡ false)
  unfolding listen
  listen_lem s = ground (arith, parsed_lem (read_packet env.utf8 s.stream) s)

  skip_empty_lem :
      (h : Heard) (s : Session)
      → is_unpackable h ≡ false
      → ((skip_empty env h s).1.sent ≡ s.sent)
        × ((skip_empty env h s).1.request_id ≡ s.request_id)
        × (is_unpackable (skip_empty env h s).0 ≡ false)
  skip_empty_lem (heard i type text) s sane = ground (arith, listen_lem s)
  skip_empty_lem rejected s sane = (refl, refl, refl)
  skip_empty_lem broken s sane = (refl, refl, refl)
  skip_empty_lem unpackable s sane = (refl, refl, sane)

  greeting :
      (id : ℕ) (reading : Reading) (s : Session)
      → is_welcome env id (parsed env reading s).0 ≡ greets id reading
  greeting id (got i type text rest) s = refl
  greeting id invalid s = refl
  greeting id incomplete s = refl

  -- What the client takes for a welcome is one.
  listen-greets :
      (id : ℕ) (s : Session)
      → is_welcome env id (listen env s).0 ≡ true
      → greets id (read_packet env.utf8 s.stream) ≡ true
  unfolding listen
  listen-greets id s h = ground (arith, greeting id (read_packet env.utf8 s.stream) s)

  skip-welcomes :
      (id : ℕ) (reading : Reading) (s : Session)
      → is_welcome env id (skip_empty env (parsed env reading s).0 (parsed env reading s).1).0
        ≡ true
      → welcomes env.utf8 id reading ≡ true
  skip-welcomes id (got i type text rest) s h =
      ground (arith, listen-greets id (record s { stream = rest; tick = s.tick + 1 }))
  skip-welcomes id invalid s h = h
  skip-welcomes id incomplete s h = h

  listen-welcomed :
      (id : ℕ) (s : Session)
      → is_welcome env id (skip_empty env (listen env s).0 (listen env s).1).0 ≡ true
      → is_welcomed env.utf8 id s.stream ≡ true
  unfolding listen
  listen-welcomed id s h = ground (arith, skip-welcomes id (read_packet env.utf8 s.stream) s)

  -- A packet that is posted is written, and nothing more.
  posted-sent :
      (bytes : List ℕ) (s : Session)
      → ((posted env (some bytes) s).1.sent ≡ bytes ∷ s.sent)
        × ((posted env (some bytes) s).1.request_id ≡ s.request_id)
        × (is_unpackable (posted env (some bytes) s).0 ≡ false)
  posted-sent bytes s =
      ground (arith, listen_lem (record s { sent = bytes ∷ s.sent; tick = s.tick + 1 }))

  posted-welcomed :
      (id : ℕ) (bytes : List ℕ) (s : Session)
      → is_welcome env id
          (skip_empty env (posted env (some bytes) s).0 (posted env (some bytes) s).1).0
        ≡ true
      → is_welcomed env.utf8 id s.stream ≡ true
  posted-welcomed id bytes s h =
      ground (arith, listen-welcomed id (record s { sent = bytes ∷ s.sent; tick = s.tick + 1 }))

  -- A short text is packed.
  pub packet-some :
      (n type : ℕ) (text : Text)
      → type < 2147483648
      → length (env.utf8.encode text) < 2147483638
      → (bytes : List ℕ) × (packet env.utf8 (pos (next_id n)) (pos type) text ≡ some bytes)
  packet-some n type text low small = (
    _,
    packet-header env.utf8 (pos (next_id n)) (pos type) (next_id n) type text
        (to_word_size (next_id n) (omega (arith, next_id-bounds n))) (to_word_size type low) small,
  )

  failed_lem : (h : Heard) → is_unpackable h ≡ false → failed env h ≡ refused
  failed_lem (heard i type text) sane = refl
  failed_lem rejected sane = refl
  failed_lem broken sane = refl
  failed_lem unpackable sane = cc

  chosen : (b : Bool) (text : Text) → (if b then answered text else refused) ≢ struct_error
  chosen true text = λ e. cc
  chosen false text = λ e. cc

  answer_lem :
      (require_ack : Bool) (id : ℕ) (h : Heard)
      → is_unpackable h ≡ false
      → answer env require_ack id h ≢ struct_error
  answer_lem require_ack id (heard i type text) sane = chosen _ _
  answer_lem require_ack id rejected sane = λ e. cc
  answer_lem require_ack id broken sane = λ e. cc
  answer_lem require_ack id unpackable sane = cc

-- The ways a call of `execute` can go: nothing is written; the password is; or the password, and
-- then, after the welcome with its id, a valid command.
pub data Conversation (env : Env) (command : Text) (s : Session)
    : Reply → List (List ℕ) → Type 0 where
  silent : Conversation env command s refused s.sent
  asked :
      (password : Text) (login : List ℕ)
      → env.password ≡ some password
      → packet env.utf8 (pos (next_id s.request_id)) (pos 3) password ≡ some login
      → Conversation env command s refused (login ∷ s.sent)
  ran :
      (reply : Reply) (password : Text) (login run : List ℕ)
      → env.password ≡ some password
      → packet env.utf8 (pos (next_id s.request_id)) (pos 3) password ≡ some login
      → is_command command ≡ true
      → is_welcomed env.utf8 (next_id s.request_id) s.stream ≡ true
      → packet env.utf8 (pos (next_id (next_id s.request_id))) (pos 2) command ≡ some run
      → reply ≢ struct_error
      → Conversation env command s reply (run ∷ login ∷ s.sent)

module _ (env : Env) (command : Text) (s : Session) where
  abbrev Converses : Reply × Session → Type 0
  Converses (r, s') = Conversation env command s r s'.sent

  module _ (password : Text) (login run : List ℕ) (known : env.password ≡ some password)
      (logs_in : packet env.utf8 (pos (next_id s.request_id)) (pos 3) password ≡ some login)
      (valid : is_command command ≡ true)
      (runs : packet env.utf8 (pos (next_id (next_id s.request_id))) (pos 2) command
        ≡ some run) where
    packed_with :
        (n : ℕ)
        → n ≡ next_id s.request_id
        → packet env.utf8 (pos (next_id n)) (pos 2) command ≡ some run
    packed_with n id = rw id runs

    -- After the response to the authentication
    run_command-Conversation :
        (require_ack : Bool) (t : Session)
        → t.sent ≡ login ∷ s.sent
        → t.request_id ≡ next_id s.request_id
        → is_welcomed env.utf8 (next_id s.request_id) s.stream ≡ true
        → Converses (run_command env command require_ack t)
    unfolding run_command request
    run_command-Conversation require_ack t sent id welcomed =
        let u = record t { request_id = next_id t.request_id } in
        rw (packed_with t.request_id id, (posted-sent env run u).0 ∙ ap (λ xs. run ∷ xs) sent)
          (ran _ password login run known logs_in valid welcomed runs (
            answer_lem env require_ack (next_id t.request_id) (posted env (some run) u).0
              (posted-sent env run u).2))

    proceed-Conversation :
        (b require_ack : Bool) (h : Heard) (t : Session)
        → t.sent ≡ login ∷ s.sent
        → t.request_id ≡ next_id s.request_id
        → is_unpackable h ≡ false
        → (b ≡ true → is_welcomed env.utf8 (next_id s.request_id) s.stream ≡ true)
        → Converses (proceed env b command require_ack h t)
    proceed-Conversation true require_ack h t sent id sane welcomed =
        run_command-Conversation require_ack t sent id (welcomed refl)
    proceed-Conversation false require_ack h t sent id sane welcomed =
        rw (failed_lem env h sane, sent) (asked password login known logs_in)

    converse-Conversation :
        (require_ack : Bool) (tick : ℕ)
        → Converses
            (converse env password command require_ack (record s { tick = tick; connected = true }))
    unfolding converse request
    converse-Conversation require_ack tick =
        let u = record s { request_id = next_id s.request_id; tick = tick; connected = true } in
        let h = (posted env (some login) u).0 in
        let t = (posted env (some login) u).1 in
        let kept = posted-sent env login u in
        let after = skip_empty_lem env h t kept.2 in
        rw logs_in (
          proceed-Conversation _ require_ack (skip_empty env h t).0 (skip_empty env h t).1
            (after.0 ∙ kept.0) (after.1 ∙ kept.1) after.2
            (posted-welcomed env (next_id s.request_id) login u))

  with_password-Conversation :
      (password : Option Text) (require_ack : Bool)
      → env.password ≡ password
      → ((text : Text) → password ≡ some text → length (env.utf8.encode text) < 2147483638)
      → length (env.utf8.encode command) < 2147483638
      → is_command command ≡ true
      → Converses (with_password env password command require_ack s)
  with_password-Conversation none require_ack known short small valid = silent
  with_password-Conversation (some password) require_ack known short small valid =
      elim (Bool-cases (env.fails s.tick)) [
        | inl fails ↦ rw fails silent
        | inr goes ↦ rw goes (
            converse-Conversation password
              (packet-some env s.request_id 3 password (omega arith) (short password refl)).0
              (packet-some env (next_id s.request_id) 2 command (omega arith) small).0 known
              (packet-some env s.request_id 3 password (omega arith) (short password refl)).1 valid
              (packet-some env (next_id s.request_id) 2 command (omega arith) small).1 require_ack
              (s.tick + 1))
      ]

-- Whatever the server says and whatever fails: a call of `execute` writes nothing, or only the
-- password's packet, or that and then the command's, and the latter only if the command is valid
-- and the server's response carries the id and the type of an accepted authentication; and the
-- call ends in a response or in an RconError, for a password and a command whose bytes fit a
-- packet's size field.
pub execute-Conversation :
    (env : Env) (command : Text) (require_ack : Bool) (s : Session)
    → ((password : Text)
        → env.password ≡ some password
        → length (env.utf8.encode password) < 2147483638)
    → length (env.utf8.encode command) < 2147483638
    → let (reply, s') = execute env command require_ack s in
      Conversation env command s reply s'.sent
unfolding execute
execute-Conversation env command require_ack s short small =
    elim (Bool-cases (is_command command)) [
      | inl valid ↦
          rw valid (
            with_password-Conversation env command s env.password require_ack refl short small
              valid)
      | inr bad ↦ rw bad silent
    ]
