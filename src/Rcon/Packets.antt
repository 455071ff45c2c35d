-- ===== src/Rcon/Packets.antt =====
-- Packets of src/game_control/rcon.py. A byte is a number, a text is the list of its code points,
-- and its UTF-8 is a parameter. A `str` with a lone surrogate, which has no UTF-8, is no text here.
use helios_horizon.Common.{
  ℕ, ◌+◌, ◌-◌, ◌*◌, ◌/◌, ◌%◌, Bool, false, ◌&&◌, ◌||◌, Option, none, some, List, [], ◌∷◌, ◌++◌, ℤ,
  pos, negsuc, ltb, leb, ◌==◌, length, take, drop, if◌then◌else◌,
}

abbrev pub Text : Type 0
Text = List ℕ

-- `str.encode("utf-8")` and `bytes.decode("utf-8")`, which may refuse the bytes.
pub record Utf8 : Type 0 where
  pub encode : Text → List ℕ
  pub decode : List ℕ → Option Text

abbrev pub max_packet : ℕ
max_packet = 64 * 1024

-- The number that stands for an integer of 32 bits, if it is one.
unfoldable pub to_word : ℤ → Option ℕ
to_word (pos n) = if ltb n 2147483648 then some n else none
to_word (negsuc n) = if ltb n 2147483648 then some (4294967295 - n) else none

unfoldable pub of_word : ℕ → ℤ
of_word n = if ltb n 2147483648 then pos n else negsuc (4294967295 - n)

abbrev pub word_bytes : ℕ → List ℕ
word_bytes n = n % 256 ∷ n / 256 % 256 ∷ n / 65536 % 256 ∷ n / 16777216 ∷ []

abbrev pub packed : Option ℕ → Option (List ℕ)
packed none = none
packed (some n) = some (word_bytes n)

-- `struct.pack("<i", z)`, where none is a struct.error.
unfoldable pub pack : ℤ → Option (List ℕ)
pack z = packed (to_word z)

-- `struct.unpack("<i", bytes)`
unfoldable pub unpack : List ℕ → Option ℤ
unpack (a ∷ b ∷ c ∷ d ∷ []) = some (of_word (a + 256 * b + 65536 * c + 16777216 * d))
unpack bytes = none

abbrev pub join : Option (List ℕ) → Option (List ℕ) → Option (List ℕ)
join none right = none
join (some left) none = none
join (some left) (some right) = some (left ++ right)

abbrev pub framed : Option (List ℕ) → Option (List ℕ)
framed none = none
framed (some body) = join (pack (pos (length body))) (some body)

-- `_packet`
unfoldable pub packet : Utf8 → ℤ → ℤ → Text → Option (List ℕ)
packet utf8 request_id packet_type payload =
    framed
      (join (join (pack request_id) (pack packet_type)) (some (utf8.encode payload ++ 0 ∷ 0 ∷ [])))

-- A packet and the bytes after it, an RconError, or the end of the stream before the last byte.
pub data Reading : Type 0 where
  got : ℤ → ℤ → Text → List ℕ → Reading
  invalid incomplete : Reading

abbrev pub is_terminated : List ℕ → Bool
is_terminated (a ∷ b ∷ []) = a == 0 && b == 0
is_terminated bytes = false

abbrev pub decoded : Option ℤ → Option ℤ → Option Text → List ℕ → Reading
decoded (some request_id) (some packet_type) (some payload) rest =
    got request_id packet_type payload rest
decoded request_id packet_type payload rest = invalid

-- The body of a packet
unfoldable pub read_body : Utf8 → List ℕ → List ℕ → Reading
read_body utf8 body rest =
    let front = length body - 2 in
    if is_terminated (drop front body)
    then decoded (unpack (take 4 body)) (unpack (take 4 (drop 4 body)))
        (utf8.decode (drop 8 (take front body))) rest
    else invalid

-- `readexactly` of the body
abbrev pub read_sized : Utf8 → ℕ → List ℕ → Reading
read_sized utf8 size rest =
    if leb size (length rest) then read_body utf8 (take size rest) (drop size rest) else incomplete

abbrev pub read_length : Utf8 → Option ℤ → List ℕ → Reading
read_length utf8 none rest = invalid
read_length utf8 (some (negsuc n)) rest = invalid
read_length utf8 (some (pos n)) rest =
    if ltb n 10 || ltb max_packet n then invalid else read_sized utf8 n rest

-- `_read_packet` of a stream that is over after these bytes
unfoldable pub read_packet : Utf8 → List ℕ → Reading
read_packet utf8 stream =
    if leb 4 (length stream)
    then read_length utf8 (unpack (take 4 stream)) (drop 4 stream)
    else incomplete
