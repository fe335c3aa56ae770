-- ===== src/Enrollment/Frames.antt =====
-- src/enrollment.rs: fields behind their lengths, as the loop of `proof_message` writes them.
use infernal_client_rs.Common.{
  ℕ, ◌<◌, ◌+◌, ◌*◌, ◌≡◌, ◌≢◌, refl, sym, ap, ap₂, ◌∙◌, [], ◌∷◌, ◌++◌, List, All, length,
  append_split, append_assoc, append-nil, arith,
}
use infernal_client_rs.Common.Text.{Bytes}
use infernal_client_rs.Enrollment.{to_be_bytes, extend_message}

-- Each field behind the four bytes of its length
abbrev pub frames : List Bytes → Bytes
frames [] = []
frames (field ∷ fields) = to_be_bytes (length field) ++ (field ++ frames fields)

-- The loop writes the frames after the message so far.
pub extend_message_lem :
    (message : Bytes) (fields : List Bytes)
    → extend_message message fields ≡ message ++ frames fields
unfolding extend_message
extend_message_lem message [] = sym (append-nil message)
extend_message_lem message (field ∷ fields) =
    extend_message_lem ((message ++ to_be_bytes (length field)) ++ field) fields
    ∙ append_assoc (message ++ to_be_bytes (length field)) field (frames fields)
    ∙ append_assoc message (to_be_bytes (length field)) (field ++ frames fields)

-- The number that four bytes spell
abbrev of_be_bytes : Bytes → ℕ
of_be_bytes (a ∷ (b ∷ (c ∷ (e ∷ _)))) = a * 0x100_0000 + b * 0x1_0000 + c * 0x100 + e
of_be_bytes _ = 0

of_be_bytes-to_be_bytes : (n : ℕ) → n < 0x1_0000_0000 → of_be_bytes (to_be_bytes n) ≡ n
unfolding to_be_bytes
of_be_bytes-to_be_bytes n h = omega arith

length-to_be_bytes : (n : ℕ) → length (to_be_bytes n) ≡ 4
unfolding to_be_bytes
length-to_be_bytes n = refl

-- A field that a length of 32 bits can tell
abbrev pub IsFramed : Bytes → Type 0
IsFramed field = length field < 0x1_0000_0000

frame_split :
    (a b x y : Bytes)
    → IsFramed a
    → IsFramed b
    → to_be_bytes (length a) ++ (a ++ x) ≡ to_be_bytes (length b) ++ (b ++ y)
    → (a ≡ b) × (x ≡ y)
frame_split a b x y ha hb h =
    let (size, rest) =
      append_split (to_be_bytes (length a)) (to_be_bytes (length b)) _ _
        (length-to_be_bytes _ ∙ sym (length-to_be_bytes _)) h in
    append_split a b x y
      (sym (of_be_bytes-to_be_bytes _ ha) ∙ ap of_be_bytes size ∙ of_be_bytes-to_be_bytes _ hb) rest

frame-ne-nil : (field x : Bytes) → to_be_bytes (length field) ++ x ≢ []
unfolding to_be_bytes
frame-ne-nil field x h = cc

-- Frames whose lengths fit 32 bits are read back: no two lists of fields share them.
pub frames_injective :
    (xs ys : List Bytes) → All IsFramed xs → All IsFramed ys → frames xs ≡ frames ys → xs ≡ ys
frames_injective [] [] _ _ _ = refl
frames_injective [] (y ∷ ys) _ _ e = absurd (frame-ne-nil y _ (sym e))
frames_injective (x ∷ xs) [] _ _ e = absurd (frame-ne-nil x _ e)
frames_injective (x ∷ xs) (y ∷ ys) (hx, hxs) (hy, hys) e =
    let (same, rest) = frame_split x y (frames xs) (frames ys) hx hy e in
    ap₂ ◌∷◌ same (frames_injective xs ys hxs hys rest)
