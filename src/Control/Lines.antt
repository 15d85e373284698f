-- ===== src/Control/Lines.antt =====
-- Messages as lines: `read_json_line` and `write_json_line` of src/prompt/protocol.rs, `read_message`
-- and `encode_response` of src/control_api.rs. The stream is the bytes that the peer sends before
-- it closes; the JSON coding of `serde_json` is a parameter.
use mathlib.Core.List.{append_assoc}
use file_guard.Prelude.{
  ℕ, zero, suc, ◌+◌, ◌*◌, ◌≤◌, String, ◌≡◌, refl, sym, ap, true, false, not, Option, none, some, [],
  ◌∷◌, ◌++◌, arith, leb, if◌then◌else◌, leb→le, ◌==◌, ℕ_eq, Bytes, Bytes_eq, Option_Bytes_eq,
  Bool_eq, length, take, all, length-append, Result, ok, ◌>>=◌, ◌>>◌, ensure, ok_or, >>=-eq-ok,
  ensure-eq-ok, ok_inj,
}
use file_guard.Record.Edges.{and_split}

abbrev pub newline : ℕ
newline = 10

abbrev pub max_message_bytes : ℕ
max_message_bytes = 64 * 1024

abbrev pub max_request_bytes : ℕ
max_request_bytes = 1024 * 1024

-- `read_until(b'\n')`: the bytes to the first newline, with it, or all of them.
unfoldable pub read_until_newline : Bytes → Bytes
read_until_newline [] = []
read_until_newline (b ∷ bytes) =
    let rest = read_until_newline bytes in if b == newline then b ∷ [] else b ∷ rest

unfoldable pub prepend : ℕ → Option Bytes → Option Bytes
prepend b none = none
prepend b (some bytes) = some (b ∷ bytes)

-- `bytes.pop()` after a look at the last byte.
unfoldable pub without_newline : Bytes → Option Bytes
unfolding prepend
without_newline [] = none
without_newline (b ∷ []) = if b == newline then some [] else none
without_newline (b ∷ c ∷ bytes) = prepend b (without_newline (c ∷ bytes))

-- `read_message`, and the part of `read_json_line` before the decoding, with the limit of each.
unfoldable pub read_line : ℕ → Bytes → Result String Bytes
unfolding read_until_newline without_newline
read_line limit stream = do
  let bytes = read_until_newline (take (limit + 1) stream)
  ensure (not (length bytes == 0)) "peer closed without a message"
  ensure (leb (length bytes) limit) "message exceeds the limit"
  ok_or (without_newline bytes) "message is not newline-terminated"

-- What the messages take from `serde_json`.
pub record Coding (T : Type 0) : Type 0 where
  pub encode : T → Result String Bytes
  pub decode : Bytes → Result String T

module _ {T : Type 0} (json : Coding T) where
  unfoldable pub read_json_line : Bytes → Result String T
  unfolding read_line
  read_json_line stream = do bytes ← read_line max_message_bytes stream; json.decode bytes

  unfoldable pub write_json_line : T → Result String Bytes
  write_json_line message = do
    bytes ← json.encode message
    ensure (leb (length bytes + 1) max_message_bytes) "message exceeds the limit"
    ok (bytes ++ (newline ∷ []))

-- A line without a newline in it.
abbrev pub IsLine : Bytes → Type 0
IsLine bytes = all (λ b. not (b == newline)) bytes ≡ true

other_byte : (b : ℕ) → not (b == newline) ≡ true → (b == newline) ≡ false
other_byte b h = ground arith

read_until_newline_lem :
    (line : Bytes) (n : ℕ) (rest : Bytes)
    → IsLine line
    → length line + 1 ≤ n
    → read_until_newline (take n (line ++ (newline ∷ rest))) ≡ line ++ (newline ∷ [])
unfolding read_until_newline
read_until_newline_lem [] zero rest h k = absurd (omega arith)
read_until_newline_lem [] (suc n) rest h k = refl
read_until_newline_lem (b ∷ line) zero rest h k = absurd (omega arith)
read_until_newline_lem (b ∷ line) (suc n) rest h k =
    let s1 = and_split (not (b == newline)) (all (λ c. not (c == newline)) line) h in
    rw (other_byte b s1.0) (ap (λ t. b ∷ t) (read_until_newline_lem line n rest s1.1 (omega arith)))

without_newline_lem : (line : Bytes) → without_newline (line ++ (newline ∷ [])) ≡ some line
unfolding without_newline prepend
without_newline_lem [] = refl
without_newline_lem (b ∷ []) = refl
without_newline_lem (b ∷ c ∷ line) = rw (without_newline_lem (c ∷ line))

appended_length : (line : Bytes) → length (line ++ (newline ∷ [])) ≡ length line + 1
appended_length line = length-append line (newline ∷ [])

-- A line within the limit, whatever the peer sends after it, is read back.
pub read_line-append :
    (limit : ℕ) (line rest : Bytes)
    → IsLine line
    → length line + 1 ≤ limit
    → read_line limit (line ++ (newline ∷ rest)) ≡ ok line
unfolding read_line
read_line-append limit line rest h k =
    let longer : not (length line + 1 == 0) ≡ true = ground arith in
    let within : leb (length line + 1) limit ≡ true = ground arith in
    rw (
      read_until_newline_lem line (limit + 1) rest h (omega arith),
      appended_length line,
      longer,
      within,
      without_newline_lem line,
    )

module _ {T : Type 0} (json : Coding T) where
  sent_parts :
      (message : T) (sent : Bytes)
      → write_json_line json message ≡ ok sent
      → (line : Bytes) × (json.encode message ≡ ok line)
        × (sent ≡ line ++ (newline ∷ []))
        × (length line + 1 ≤ max_message_bytes)
  unfolding write_json_line
  sent_parts message sent h =
      let (line, encodes, rest) = >>=-eq-ok (json.encode message) _ h in
      let s2 = ensure-eq-ok (leb (length line + 1) max_message_bytes) _ _ rest in
      (line, encodes, sym (ok_inj s2.1), leb→le (length line + 1) max_message_bytes s2.0)

  -- A message that was written is read back, whatever follows it on the connection, for a coding
  -- that writes no newline and reads what it wrote.
  pub read_json_line-write_json_line :
      ((message : T) (line : Bytes)
        → json.encode message ≡ ok line
        → IsLine line × (json.decode line ≡ ok message))
      → (message : T) (sent rest : Bytes) → write_json_line json message ≡ ok sent
      → read_json_line json (sent ++ rest) ≡ ok message
  unfolding read_json_line
  read_json_line-write_json_line coded message sent rest h =
      let (line, encodes, same, within) = sent_parts message sent h in
      let (one_line, decodes) = coded message line encodes in
      rw (
        same,
        append_assoc line (newline ∷ []) rest,
        read_line-append max_message_bytes line rest one_line within,
        decodes,
      )
