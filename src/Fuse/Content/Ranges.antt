-- ===== src/Fuse/Content/Ranges.antt =====
-- Reads, writes and truncations of the contents.
use file_guard.Prelude.{
  ℕ, zero, suc, ◌+◌, ◌-◌, ◌≤◌, ◌<◌, ◌≡◌, refl, sym, ap, ◌∙◌, ◌↔◌, ◌⊎◌, inl, inr, Bool, true, false,
  none, List, [], ◌∷◌, ◌++◌, arith, ltb, leb, if◌then◌else◌, ltb→lt, leb→le, Bool-cases, ℕ_eq,
  Bytes, Bytes_eq, Option_Bytes_eq, Bool_eq, length, get_elem?, take, drop, length-append,
  length-take, length-drop, ok,
}
use Prim.Native.Nat.{min, max}
use file_guard.Fuse.Content.{
  max_content_len, slice_content, checked_write_end, resize, copy_at, written_contents,
}

-- A write end is given exactly when the range ends within the cap of 16 MiB, and is its end.
pub checked_write_end-ok_iff :
    (offset len end : ℕ)
    → (checked_write_end offset len ≡ ok end)
      ↔ ((offset + len ≤ max_content_len) × (end ≡ offset + len))
unfolding checked_write_end
checked_write_end-ok_iff offset len end = (accepted, given)
  where
    accepted :
        checked_write_end offset len ≡ ok end
        → (offset + len ≤ max_content_len) × (end ≡ offset + len)
    accepted h = ground arith

    given :
        (offset + len ≤ max_content_len) × (end ≡ offset + len)
        → checked_write_end offset len ≡ ok end
    given h = ground arith

pub length-resize : (n : ℕ) (content : Bytes) → length (resize n content) ≡ n
unfolding resize
length-resize zero content = refl
length-resize (suc n) [] = ap suc (length-resize n [])
length-resize (suc n) (c ∷ content) = ap suc (length-resize n content)

pub length-copy_at :
    (start : ℕ) (input content : Bytes)
    → start + length input ≤ length content
    → length (copy_at start input content) ≡ length content
unfolding copy_at
length-copy_at start input content h =
    let a = length-append (take start content) (input ++ drop (start + length input) content) in
    let b = length-append input (drop (start + length input) content) in
    let c = length-take start content in
    let d = length-drop (start + length input) content in
    let same : length (take start content ++ (input ++ drop (start + length input) content))
        ≡ length content =
      omega arith in
    same

module _ {ℓ} {A : Type ℓ} where
  drop-append : (n : ℕ) (xs ys : List A) → length xs ≡ n → drop n (xs ++ ys) ≡ ys
  drop-append zero [] ys h = refl
  drop-append zero (x ∷ xs) ys h = absurd (omega arith)
  drop-append (suc n) [] ys h = absurd (omega arith)
  drop-append (suc n) (x ∷ xs) ys h = drop-append n xs ys (omega arith)

  take-append : (xs ys : List A) → take (length xs) (xs ++ ys) ≡ xs
  take-append [] ys = refl
  take-append (x ∷ xs) ys = ap (λ t. x ∷ t) (take-append xs ys)

  get_elem?-append_left :
      (xs ys : List A) (i : ℕ) → i < length xs → get_elem? (xs ++ ys) i ≡ get_elem? xs i
  get_elem?-append_left [] ys i h = absurd (omega arith)
  get_elem?-append_left (x ∷ xs) ys zero h = refl
  get_elem?-append_left (x ∷ xs) ys (suc i) h = get_elem?-append_left xs ys i (omega arith)

  get_elem?-append_right :
      (xs ys : List A) (i : ℕ)
      → length xs ≤ i
      → get_elem? (xs ++ ys) i ≡ get_elem? ys (i - length xs)
  get_elem?-append_right [] ys i h = ap (get_elem? ys) (omega arith)
  get_elem?-append_right (x ∷ xs) ys zero h = absurd (omega arith)
  get_elem?-append_right (x ∷ xs) ys (suc i) h =
      get_elem?-append_right xs ys i (omega arith) ∙ ap (get_elem? ys) (omega arith)

  get_elem?-take : (n : ℕ) (xs : List A) (i : ℕ) → i < n → get_elem? (take n xs) i ≡ get_elem? xs i
  get_elem?-take zero xs i h = absurd (omega arith)
  get_elem?-take (suc n) [] i h = refl
  get_elem?-take (suc n) (x ∷ xs) zero h = refl
  get_elem?-take (suc n) (x ∷ xs) (suc i) h = get_elem?-take n xs i (omega arith)

  get_elem?-drop : (n : ℕ) (xs : List A) (i : ℕ) → get_elem? (drop n xs) i ≡ get_elem? xs (n + i)
  get_elem?-drop zero xs i = ap (get_elem? xs) (omega arith)
  get_elem?-drop (suc n) [] i = refl
  get_elem?-drop (suc n) (x ∷ xs) i =
      let moved : suc (n + i) ≡ suc n + i = omega arith in
      get_elem?-drop n xs i ∙ ap (get_elem? (x ∷ xs)) moved

  get_elem?-none : (xs : List A) (i : ℕ) → length xs ≤ i → get_elem? xs i ≡ none
  get_elem?-none [] i h = refl
  get_elem?-none (x ∷ xs) zero h = absurd (omega arith)
  get_elem?-none (x ∷ xs) (suc i) h = get_elem?-none xs i (omega arith)

get_elem?-resize :
    (n : ℕ) (content : Bytes) (i : ℕ)
    → i < length content
    → i < n
    → get_elem? (resize n content) i ≡ get_elem? content i
unfolding resize
get_elem?-resize zero content i h k = absurd (omega arith)
get_elem?-resize (suc n) [] i h k = absurd (omega arith)
get_elem?-resize (suc n) (c ∷ content) zero h k = refl
get_elem?-resize (suc n) (c ∷ content) (suc i) h k =
    get_elem?-resize n content i (omega arith) (omega arith)

-- The contents that a write leaves, and its read-back.
module _ (start : ℕ) (input content : Bytes) where
  grown : Bytes
  unfolding resize
  grown =
      if ltb (length content) (start + length input)
      then resize (start + length input) content
      else content

  grown-fits : start + length input ≤ length grown
  unfolding grown
  grown-fits = ground (arith, length-resize (start + length input) content)

  taken : length (take start grown) ≡ start
  taken = let fits = grown-fits in let size = length-take start grown in omega arith

  copied : drop start (copy_at start input grown) ≡ input ++ drop (start + length input) grown
  unfolding copy_at
  copied = drop-append start (take start grown) (input ++ drop (start + length input) grown) taken

  written_length : length (copy_at start input grown) ≡ length grown
  written_length = length-copy_at start input grown grown-fits

  -- A read of the written range, when it is not past the end.
  slice_written :
      (past : Bool)
      → leb (length (copy_at start input grown)) start ≡ past
      → (if past
          then []
          else take
              (min (length input) (length (copy_at start input grown) - start))
              (drop start (copy_at start input grown)))
        ≡ input
  slice_written true h =
      let le = leb→le (length (copy_at start input grown)) start h in
      let same = written_length in let fits = grown-fits in sym (empty input (omega arith))
    where
      empty : (xs : Bytes) → length xs ≡ 0 → xs ≡ []
      empty [] e = refl
      empty (x ∷ xs) e = absurd (omega arith)
  slice_written false h =
      let same = written_length in
      let fits = grown-fits in
      let all_of_it : min (length input) (length (copy_at start input grown) - start)
          ≡ length input =
        omega arith in
      ap (λ n. take n (drop start (copy_at start input grown))) all_of_it
      ∙ ap (take (length input)) copied
      ∙ take-append input (drop (start + length input) grown)

  pub length-written_contents :
      length (written_contents start (start + length input) input content)
      ≡ max (start + length input) (length content)
  unfolding written_contents grown
  length-written_contents =
      length-copy_at start input grown grown-fits
      ∙ ground (arith, length-resize (start + length input) content)

  -- Reading the range just written gives back what was written.
  pub slice_content-written :
      slice_content
        (written_contents start (start + length input) input content)
        start
        (length input)
      ≡ input
  unfolding written_contents grown slice_content
  slice_content-written = slice_written (leb (length (copy_at start input grown)) start) refl

  get-written_contents :
      (i : ℕ)
      → (i < start) ⊎ (start + length input ≤ i)
      → get_elem? (copy_at start input grown) i ≡ get_elem? grown i
  unfolding copy_at
  get-written_contents i (inl before) =
      let size = taken in
      get_elem?-append_left (take start grown) (input ++ drop (start + length input) grown) i
        (omega arith)
      ∙ get_elem?-take start grown i before
  get-written_contents i (inr past) =
      let size = taken in
      let first : i - length (take start grown) ≡ i - start = omega arith in
      let back : (start + length input) + ((i - start) - length input) ≡ i = omega arith in
      get_elem?-append_right (take start grown) (input ++ drop (start + length input) grown) i
        (omega arith)
      ∙ ap (get_elem? (input ++ drop (start + length input) grown)) first
      ∙ get_elem?-append_right input (drop (start + length input) grown) (i - start) (omega arith)
      ∙ get_elem?-drop (start + length input) grown ((i - start) - length input)
      ∙ ap (get_elem? grown) back

  get-grown : (i : ℕ) → i < length content → get_elem? grown i ≡ get_elem? content i
  unfolding grown
  get-grown i h = elim (Bool-cases (ltb (length content) (start + length input))) [
    | inl e ↦
        let grows = ltb→lt _ _ e in
        ap (λ b. get_elem? (if b then resize (start + length input) content else content) i) e
        ∙ get_elem?-resize (start + length input) content i h (omega arith)
    | inr e ↦ ap (λ b. get_elem? (if b then resize (start + length input) content else content) i) e
  ]

  -- A write leaves every byte of the contents that is outside its range as it was.
  pub written_contents-outside :
      (i : ℕ)
      → i < length content
      → (i < start) ⊎ (start + length input ≤ i)
      → get_elem? (written_contents start (start + length input) input content) i
        ≡ get_elem? content i
  unfolding written_contents grown
  written_contents-outside i h outside = get-written_contents i outside ∙ get-grown i h
