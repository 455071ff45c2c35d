-- ===== src/Rcon/RoundTrip.antt =====
-- What `_packet` of src/game_control/rcon.py writes, `_read_packet` reads.
use helios_horizon.Common.{
  ℕ, suc, ◌+◌, ◌-◌, ◌*◌, ◌/◌, ◌%◌, ◌<◌, ◌≡◌, refl, sym, ap, ◌∙◌, true, some, List, [], ◌∷◌, ◌++◌, ℤ,
  pos, negsuc, leb, length, take, drop, if◌then◌else◌, arith, length-append, take-append,
  drop-append,
}
use helios_horizon.Rcon.Packets.{
  Text, Utf8, max_packet, to_word, of_word, word_bytes, pack, unpack, packet, got, invalid, decoded,
  read_body, read_sized, read_length, read_packet,
}

word_sum :
    (n : ℕ)
    → n % 256 + 256 * (n / 256 % 256) + 65536 * (n / 65536 % 256) + 16777216 * (n / 16777216) ≡ n
word_sum n = omega arith

unpack-word_bytes : (n : ℕ) → unpack (word_bytes n) ≡ some (of_word n)
unfolding unpack
unpack-word_bytes n = ap (λ m. some (of_word m)) (word_sum n)

of_word-to_word : (z : ℤ) (n : ℕ) → to_word z ≡ some n → of_word n ≡ z
unfolding to_word of_word
of_word-to_word (pos k) n h = ground arith
of_word-to_word (negsuc k) n h = ground arith

abbrev pub header : ℕ → ℕ → List ℕ → List ℕ
header i t bytes = (word_bytes i ++ word_bytes t) ++ bytes

abbrev after_header : ℕ → ℕ
after_header n = suc (suc (suc (suc (suc (suc (suc (suc n)))))))

front-header :
    (i t : ℕ) (p : List ℕ) → length (header i t (p ++ 0 ∷ 0 ∷ [])) - 2 ≡ after_header (length p)
front-header i t p = omega (arith, length-append p (0 ∷ 0 ∷ []))

-- What is read of the body of a packet.
read_body-header :
    (utf8 : Utf8) (i t : ℕ) (p rest : List ℕ)
    → read_body utf8 (header i t (p ++ 0 ∷ 0 ∷ [])) rest
      ≡ decoded (some (of_word i)) (some (of_word t)) (utf8.decode p) rest
unfolding read_body
read_body-header utf8 i t p rest =
    rw
      (
        front-header i t p,
        drop-append p (0 ∷ 0 ∷ []),
        take-append p (0 ∷ 0 ∷ []),
        unpack-word_bytes i,
        unpack-word_bytes t,
      )
      refl

take-exact : (n : ℕ) (xs ys : List ℕ) → length xs ≡ n → take n (xs ++ ys) ≡ xs
take-exact n xs ys h = rw (sym h) (take-append xs ys)

drop-exact : (n : ℕ) (xs ys : List ℕ) → length xs ≡ n → drop n (xs ++ ys) ≡ ys
drop-exact n xs ys h = rw (sym h) (drop-append xs ys)

read_packet-word_bytes :
    (utf8 : Utf8) (n : ℕ) (stream : List ℕ)
    → read_packet utf8 (word_bytes n ++ stream) ≡ read_length utf8 (some (of_word n)) stream
unfolding read_packet
read_packet-word_bytes utf8 n stream = rw (enough (length stream), unpack-word_bytes n) refl
  where
    enough : (m : ℕ) → leb 4 (suc (suc (suc (suc m)))) ≡ true
    enough m = ground arith

read_sized-exact :
    (utf8 : Utf8) (n : ℕ) (body rest : List ℕ)
    → length body ≡ n
    → read_sized utf8 n (body ++ rest) ≡ read_body utf8 body rest
read_sized-exact utf8 n body rest h =
    rw (enough, take-exact n body rest h, drop-exact n body rest h) refl
  where
    enough : leb n (length (body ++ rest)) ≡ true
    enough = ground (arith, length-append body rest)

read_length-pos :
    (utf8 : Utf8) (n : ℕ) (rest : List ℕ)
    → read_length utf8 (some (pos (n + 10))) rest
      ≡ (if leb (n + 10) max_packet then read_sized utf8 (n + 10) rest else invalid)
read_length-pos utf8 n rest = ground arith

of_word_size : (n : ℕ) → n < 2147483648 → of_word n ≡ pos n
unfolding of_word
of_word_size n h = ground arith

pub to_word_size : (n : ℕ) → n < 2147483648 → to_word (pos n) ≡ some n
unfolding to_word
to_word_size n h = ground arith

read_packet-header :
    (utf8 : Utf8) (i t : ℕ) (p rest : List ℕ)
    → length p < 2147483638
    → read_packet utf8 (word_bytes (length p + 10) ++ (header i t (p ++ 0 ∷ 0 ∷ []) ++ rest)) ≡ (
        if leb (length p + 10) max_packet
        then decoded (some (of_word i)) (some (of_word t)) (utf8.decode p) rest
        else invalid)
read_packet-header utf8 i t p rest small =
    rw
      (
        read_packet-word_bytes utf8 (length p + 10) (header i t (p ++ 0 ∷ 0 ∷ []) ++ rest),
        of_word_size (length p + 10) (omega arith),
        read_length-pos utf8 (length p) (header i t (p ++ 0 ∷ 0 ∷ []) ++ rest),
        read_sized-exact utf8 (length p + 10) (header i t (p ++ 0 ∷ 0 ∷ [])) rest
            (omega (arith, length-append p (0 ∷ 0 ∷ []))),
        read_body-header utf8 i t p rest,
      )
      refl

pub packet-header :
    (utf8 : Utf8) (request_id packet_type : ℤ) (i t : ℕ) (payload : Text)
    → to_word request_id ≡ some i
    → to_word packet_type ≡ some t
    → length (utf8.encode payload) < 2147483638
    → packet utf8 request_id packet_type payload
      ≡ some (
          word_bytes (length (utf8.encode payload) + 10)
          ++ header i t (utf8.encode payload ++ 0 ∷ 0 ∷ []))
unfolding packet pack
packet-header utf8 request_id packet_type i t payload a b small = rw (a, b, size, fits) refl
  where
    size :
        length (header i t (utf8.encode payload ++ 0 ∷ 0 ∷ [])) ≡ length (utf8.encode payload) + 10
    size = omega (arith, length-append (utf8.encode payload) (0 ∷ 0 ∷ []))

    fits :
        to_word (pos (length (utf8.encode payload) + 10)) ≡ some (length (utf8.encode payload) + 10)
    fits = to_word_size (length (utf8.encode payload) + 10) (omega arith)

-- A packet with numbers of 32 bits, whose text is shorter than 2^31 - 10 bytes and reads back, is
-- written, and whatever follows it in the stream, what is read is that packet with the rest left
-- over, if its size is at most 65536; else it is refused.
pub packet-read_packet :
    (utf8 : Utf8) (request_id packet_type : ℤ) (i t : ℕ) (payload : Text) (rest : List ℕ)
    → to_word request_id ≡ some i
    → to_word packet_type ≡ some t
    → utf8.decode (utf8.encode payload) ≡ some payload
    → length (utf8.encode payload) < 2147483638
    → (bytes : List ℕ) × (packet utf8 request_id packet_type payload ≡ some bytes)
      × (read_packet utf8 (bytes ++ rest) ≡ (
          if leb (length (utf8.encode payload) + 10) max_packet
          then got request_id packet_type payload rest
          else invalid))
packet-read_packet utf8 request_id packet_type i t payload rest a b reads_back small = (
  word_bytes (length (utf8.encode payload) + 10) ++ header i t (utf8.encode payload ++ 0 ∷ 0 ∷ []),
  packet-header utf8 request_id packet_type i t payload a b small,
  read_packet-header utf8 i t (utf8.encode payload) rest small ∙ back,
)
  where
    back :
        (if leb (length (utf8.encode payload) + 10) max_packet
          then decoded
              (some (of_word i))
              (some (of_word t))
              (utf8.decode (utf8.encode payload))
              rest
          else invalid)
        ≡ (if leb (length (utf8.encode payload) + 10) max_packet
            then got request_id packet_type payload rest
            else invalid)
    back = rw (reads_back, of_word-to_word request_id i a, of_word-to_word packet_type t b) refl
