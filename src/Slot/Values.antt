-- ===== src/Slot/Values.antt =====
-- src/game_control/models.py (ProfileId) and the values that slot.py reads from a JSON object.
use Prim.Native.Char.{code}
use helios_horizon.Common.{
  ℕ, suc, ◌+◌, ◌*◌, ◌-◌, ◌^◌, String, ◌≡◌, refl, Bool, true, false, ◌&&◌, ◌||◌, Option, none, some,
  List, [], ◌∷◌, leb, ltb_ℤ, ◌==◌, str_eq, if◌then◌else◌, length, all, ℤ, pos, pos_part, neg_part,
  ◌+ℤ◌, arith, eq_iff, eq_refl,
}

pub data ProfileId : Type 0 where
  minecraft minecraft_sunlit_cobblemon pz_rising : ProfileId
  terraria_vanilla terraria_tmod terraria_tmod_145_candidate : ProfileId

-- `profile_id.value`
unfoldable pub value : ProfileId → String
value minecraft = "minecraft"
value minecraft_sunlit_cobblemon = "minecraft-sunlit-cobblemon"
value pz_rising = "pz-rising"
value terraria_vanilla = "terraria-vanilla"
value terraria_tmod = "terraria-tmod"
value terraria_tmod_145_candidate = "terraria-tmod-145-candidate"

-- `ProfileId(text)`; `none` is the ValueError.
unfoldable pub profile_of_text : String → Option ProfileId
profile_of_text t =
    if str_eq t "minecraft"
    then some minecraft
    else if str_eq t "minecraft-sunlit-cobblemon"
    then some minecraft_sunlit_cobblemon
    else if str_eq t "pz-rising"
    then some pz_rising
    else if str_eq t "terraria-vanilla"
    then some terraria_vanilla
    else if str_eq t "terraria-tmod"
    then some terraria_tmod
    else if str_eq t "terraria-tmod-145-candidate"
    then some terraria_tmod_145_candidate
    else none

-- The argument type `str | ProfileId`.
pub data ProfileRef : Type 0 where
  id : ProfileId → ProfileRef
  text : String → ProfileRef

-- `_profile`
unfoldable pub profile : ProfileRef → Option ProfileId
profile (id p) = some p
profile (text t) = profile_of_text t

-- Equality of the members of a StrEnum is equality of their texts.
unfoldable pub same_profile : ProfileId → ProfileId → Bool
same_profile p q = str_eq (value p) (value q)

-- A time or a duration: a whole number of ticks, or an infinity or a NaN. A tick is 2^-22 seconds,
-- the step of a double between 2^30 and 2^31, which are the Unix times from 2004 to 2038. Sums
-- of ticks are exact.
pub data Float : Type 0 where
  finite : ℤ → Float
  not_finite : Float

-- math.isfinite
abbrev pub is_finite : Float → Bool
is_finite (finite t) = true
is_finite not_finite = false

abbrev pub ticks_per_second : ℕ
ticks_per_second = 4194304

-- clock() + ttl
unfoldable pub plus : ℤ → Float → Float
plus now (finite d) = finite (now +ℤ d)
plus now not_finite = not_finite

-- A number of seconds in ticks.
abbrev pub scale : ℤ → ℤ
scale (pos k) = pos (k * ticks_per_second)
scale (ℤ.negsuc k) = ℤ.negsuc (suc k * ticks_per_second - 1)

-- The OverflowError of `float(n)`: from the first int that rounds past the greatest double.
unfoldable pub overflows : ℤ → Bool
overflows n = leb (2 ^ 1024 - 2 ^ 970) (pos_part n + neg_part n)

-- `float(n)` of an int, in ticks
unfoldable pub float_of_int : ℤ → Option Float
float_of_int n = if overflows n then none else some (finite (scale n))

-- n < 0
unfoldable pub is_negative : ℤ → Bool
is_negative n = ltb_ℤ n (pos 0)

-- n > 0, where the source tests `n <= 0`
unfoldable pub is_positive : ℤ → Bool
is_positive n = ltb_ℤ (pos 0) n

-- `not text`
unfoldable pub is_empty : String → Bool
is_empty t = str_eq t ""

-- A value in a JSON object. Arrays and objects are `other`: no code here looks into them.
pub data Value : Type 0 where
  null : Value
  bool : Bool → Value
  int : ℤ → Value
  float : Float → Value
  str : String → Value
  other : Value

abbrev pub codes : String → List ℕ
codes String.[] = []
codes (String.◌∷◌ c s) = code c ∷ codes s

-- `char in "0123456789abcdef"`
unfoldable pub is_hex_char : ℕ → Bool
is_hex_char c = (leb b'0' c && leb c b'9') || (leb b'a' c && leb c b'f')

-- 64 characters, each a lower-case hexadecimal digit
unfoldable pub is_hex_64 : String → Bool
unfolding is_hex_char
is_hex_64 t = length (codes t) == 64 && all is_hex_char (codes t)

pub profile_of_text-value : (p : ProfileId) → profile_of_text (value p) ≡ some p
unfolding profile_of_text value
profile_of_text-value minecraft = refl
profile_of_text-value minecraft_sunlit_cobblemon = refl
profile_of_text-value pz_rising = refl
profile_of_text-value terraria_vanilla = refl
profile_of_text-value terraria_tmod = refl
profile_of_text-value terraria_tmod_145_candidate = refl

pub value-profile_of_text : (t : String) (p : ProfileId) → profile_of_text t ≡ some p → value p ≡ t
unfolding profile_of_text value
value-profile_of_text t p h = ground (
  arith,
  eq_iff t "minecraft",
  eq_iff t "minecraft-sunlit-cobblemon",
  eq_iff t "pz-rising",
  eq_iff t "terraria-vanilla",
  eq_iff t "terraria-tmod",
  eq_iff t "terraria-tmod-145-candidate",
)

pub same_profile_refl : (p : ProfileId) → same_profile p p ≡ true
unfolding same_profile
same_profile_refl p = eq_refl (value p)

pub same_profile_sound : (p q : ProfileId) → same_profile p q ≡ true → p ≡ q
unfolding same_profile
same_profile_sound p q h =
    cc (profile_of_text-value p, profile_of_text-value q, (eq_iff (value p) (value q)).0 h)

pub float_of_int-finite : (n : ℤ) (f : Float) → float_of_int n ≡ some f → is_finite f ≡ true
unfolding float_of_int
float_of_int-finite n f h = ground arith
