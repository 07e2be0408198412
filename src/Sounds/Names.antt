-- ===== src/Sounds/Names.antt =====
-- The ids of registered sounds: `make_custom_id` of alarm-daemon/src/audio/sounds.rs.
use alarm_daemon.Base.{
  ℕ, zero, suc, ◌+◌, ◌*◌, ◌/◌, ◌%◌, ◌^◌, ◌≤◌, ◌<◌, ◌≡◌, ◌⊎◌, refl, ◌&&◌, ◌||◌, Option, none, some,
  [], ◌∷◌, ◌++◌, All, All-append, arith, ltb, leb, ◌==◌, if◌then◌else◌, ◌-◌, Bool-cases, inl, inr,
}
use alarm_daemon.Base.Bytes.{Bytes, ascii}
use alarm_daemon.Sounds.Paths.{NoSlash}

-- The low hexadecimal digits of a number, and all those of an `u128`: `{:x}`.
abbrev hex_digit : ℕ → ℕ
hex_digit d = if ltb d 10 then b'0' + d else 87 + d

unfoldable hex_digits : ℕ → ℕ → Bytes
hex_digits zero n = []
hex_digits (suc k) n =
    let rest = hex_digits k (n / 16) in
    if ltb n 16 then hex_digit n ∷ [] else rest ++ hex_digit (n % 16) ∷ []

unfoldable pub hex : ℕ → Bytes
unfolding hex_digits
hex n = hex_digits 32 n

-- The characters kept of a name: a byte beyond ASCII is part of a character that is dropped.
unfoldable pub clean : Bytes → Bytes
clean [] = []
clean (b ∷ s) =
    let rest = clean s in
    if (leb b'A' b && leb b b'Z')
    then (b + 32) ∷ rest
    else if (leb b'a' b && leb b b'z') || (leb b'0' b && leb b b'9')
    then b ∷ rest
    else if b == b'-' || b == b'_'
    then b ∷ rest
    else rest

abbrev named_or_sound : Bytes → Bytes
named_or_sound [] = ascii "sound"
named_or_sound (b ∷ s) = b ∷ s

-- The clock's nanoseconds since the epoch, if it is past it.
abbrev nanos : Option ℕ → ℕ
nanos none = 0
nanos (some n) = n

unfoldable pub make_custom_id : Option ℕ → Bytes → Bytes
unfolding clean hex
make_custom_id now name = named_or_sound (clean name) ++ b'-' ∷ hex (nanos now)

-- A lower-case letter, a digit, a dash or an underscore.
abbrev pub IsIdByte : ℕ → Type 0
IsIdByte b = ((b'a' ≤ b) × (b ≤ b'z')) ⊎ ((b'0' ≤ b) × (b ≤ b'9')) ⊎ (b ≡ b'-') ⊎ (b ≡ b'_')

hex_digit-IsIdByte : (d : ℕ) → d < 16 → IsIdByte (hex_digit d)
hex_digit-IsIdByte d h = ground arith

hex_digits-IsIdByte : (k n : ℕ) → All IsIdByte (hex_digits k n)
unfolding hex_digits
hex_digits-IsIdByte zero n = tt
hex_digits-IsIdByte (suc k) n = elim (Bool-cases (ltb n 16)) [
  | inl e ↦ rw e (hex_digit-IsIdByte n (ground arith), tt)
  | inr e ↦ rw e (
      All-append IsIdByte _ _ (hex_digits-IsIdByte k (n / 16))
        (hex_digit-IsIdByte (n % 16) (omega arith), tt))
]

clean-IsIdByte : (s : Bytes) → All IsIdByte (clean s)
unfolding clean
clean-IsIdByte [] = tt
clean-IsIdByte (b ∷ s) = ground (arith, clean-IsIdByte s)

-- What the other parts need of an id: its first byte, and that it holds no slash, no dot and
-- nothing but ASCII.
abbrev pub IsPlain : Bytes → Type 0
IsPlain [] = ⊥
IsPlain (b ∷ s) = All IsIdByte (b ∷ s)

named_or_sound-IsPlain : (s : Bytes) → All IsIdByte s → IsPlain (named_or_sound s)
named_or_sound-IsPlain [] h =
    (ground arith, (ground arith, (ground arith, (ground arith, (ground arith, tt)))))
named_or_sound-IsPlain (b ∷ s) h = h

IsPlain-append : (s t : Bytes) → IsPlain s → All IsIdByte t → IsPlain (s ++ t)
IsPlain-append [] t h k = absurd h
IsPlain-append (b ∷ s) t h k = All-append IsIdByte (b ∷ s) t h k

pub make_custom_id-IsPlain : (now : Option ℕ) (name : Bytes) → IsPlain (make_custom_id now name)
unfolding make_custom_id hex
make_custom_id-IsPlain now name =
    IsPlain-append (named_or_sound (clean name)) _
      (named_or_sound-IsPlain (clean name) (clean-IsIdByte name))
      (ground arith, hex_digits-IsIdByte 32 (nanos now))

pub IdBytes-NoSlash : (s : Bytes) → All IsIdByte s → NoSlash s
IdBytes-NoSlash [] h = tt
IdBytes-NoSlash (b ∷ s) h = ((λ e. ground arith), IdBytes-NoSlash s h.1)

pub IdBytes-ascii : (s : Bytes) → All IsIdByte s → All (λ b. b < 128) s
IdBytes-ascii [] h = tt
IdBytes-ascii (b ∷ s) h = (ground arith, IdBytes-ascii s h.1)

-- The number that hexadecimal digits stand for.
abbrev digit_of : ℕ → ℕ
digit_of b = if leb b'a' b then b - 87 else b - b'0'

of_hex : ℕ → Bytes → ℕ
of_hex n [] = n
of_hex n (b ∷ s) = of_hex (n * 16 + digit_of b) s

of_hex-append : (n : ℕ) (s : Bytes) (d : ℕ) → of_hex n (s ++ d ∷ []) ≡ of_hex n s * 16 + digit_of d
unfolding of_hex
of_hex-append n [] d = refl
of_hex-append n (b ∷ s) d = of_hex-append (n * 16 + digit_of b) s d

digit_of-hex_digit : (d : ℕ) → d < 16 → digit_of (hex_digit d) ≡ d
digit_of-hex_digit d h = ground arith

of_hex-hex_digits : (k n : ℕ) → n < 16 ^ k → of_hex 0 (hex_digits k n) ≡ n
unfolding hex_digits of_hex
of_hex-hex_digits zero n h = omega arith
of_hex-hex_digits (suc k) n h = elim (Bool-cases (ltb n 16)) [
  | inl e ↦ rw e (let d = digit_of-hex_digit n (ground arith) in omega arith)
  | inr e ↦
      rw
        (
          e,
          of_hex-append 0 (hex_digits k (n / 16)) (hex_digit (n % 16)),
          of_hex-hex_digits k (n / 16) (omega arith),
          digit_of-hex_digit (n % 16) (omega arith),
        )
        (omega arith)
]

-- The digits of an `u128` are enough: they stand for the number.
of_hex-hex : (n : ℕ) → n < 2 ^ 128 → of_hex 0 (hex n) ≡ n
unfolding hex
of_hex-hex n h = of_hex-hex_digits 32 n (omega arith)
