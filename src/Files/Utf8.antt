-- ===== src/Files/Utf8.antt =====
-- Which byte strings are texts (`std::str::from_utf8`), and ASCII tests on bytes.
use file_guard.Prelude.{
  ℕ, suc, zero, ◌+◌, Bool, true, false, ◌&&◌, ◌||◌, Option, none, some, [], ◌∷◌, Bytes, leb, ltb,
  if◌then◌else◌,
}

-- `pending n lo hi`: n + 1 continuation bytes are due, the next one between lo and hi.
pub data Utf8 : Type 0 where
  start : Utf8
  pending : ℕ → ℕ → ℕ → Utf8

between : ℕ → ℕ → ℕ → Bool
between lo hi b = leb lo b && leb b hi

after : ℕ → Utf8
after zero = start
after (suc n) = pending n 0x80 0xbf

next : Utf8 → ℕ → Option Utf8
unfolding between after
next start b =
    if ltb b 0x80
    then some start
    else if between 0xc2 0xdf b
    then some (pending 0 0x80 0xbf)
    else if between 0xe0 0xe0 b
    then some (pending 1 0xa0 0xbf)
    else if between 0xed 0xed b
    then some (pending 1 0x80 0x9f)
    else if between 0xe1 0xef b
    then some (pending 1 0x80 0xbf)
    else if between 0xf0 0xf0 b
    then some (pending 2 0x90 0xbf)
    else if between 0xf1 0xf3 b
    then some (pending 2 0x80 0xbf)
    else if between 0xf4 0xf4 b
    then some (pending 2 0x80 0x8f)
    else none
next (pending n lo hi) b = if between lo hi b then some (after n) else none

valid_from : Utf8 → Bytes → Bool
unfolding next
valid_from start [] = true
valid_from (pending n lo hi) [] = false
valid_from s (b ∷ bs) = elim (next s b) [ none ↦ false | some t ↦ valid_from t bs ]

unfoldable pub valid_utf8 : Bytes → Bool
unfolding valid_from
valid_utf8 = valid_from start

-- `u8::is_ascii_hexdigit`
unfoldable pub is_ascii_hexdigit : ℕ → Bool
unfolding between
is_ascii_hexdigit b = between b'0' b'9' b || between b'a' b'f' b || between b'A' b'F' b

-- `u8::to_ascii_lowercase`
unfoldable pub to_ascii_lowercase : ℕ → ℕ
unfolding between
to_ascii_lowercase b = if between b'A' b'Z' b then b + 32 else b
