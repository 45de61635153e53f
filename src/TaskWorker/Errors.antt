-- ===== src/TaskWorker/Errors.antt =====
-- internal/agent/tasks.go: `boundedError`, which makes the wire's text of an error. The error's own
-- text may be any bytes; what is sent is UTF-8, as its code points.
use Prim.Native.Char.{Char, code}
use Prim.Native.String.{String}
use passwall_node.Prelude.{
  ℕ, zero, suc, ◌≤◌, ◌≡◌, refl, ap, false, ◌&&◌, Option, none, some, List, [], ◌∷◌, if◌then◌else◌,
  ltb, leb, leb→le, codes, is_empty, is_space, byte_length, arith, Bool-cases, Option-cases, inl,
  inr,
}
use passwall_node.TaskWorker.Texts.{
  Piece, whole, valid_text, to_valid_utf8, no_pieces, trim_pieces, valid_text-some,
}

-- `strings.TrimSpace`
unfoldable pub trim_front : String → String
trim_front String.[] = String.[]
trim_front (String.◌∷◌ c s) = if is_space (code c) then trim_front s else String.◌∷◌ c s

unfoldable pub trim_back : String → String
trim_back String.[] = String.[]
trim_back (String.◌∷◌ c s) =
    let rest = trim_back s in
    if is_space (code c) && is_empty rest then String.[] else String.◌∷◌ c rest

unfoldable pub trim : String → String
trim s = trim_back (trim_front s)

-- `message[:len(message)-size]`, with the size of the last rune
unfoldable pub drop_last : String → String
drop_last String.[] = String.[]
drop_last (String.◌∷◌ c String.[]) = String.[]
drop_last (String.◌∷◌ c (String.◌∷◌ d s)) = String.◌∷◌ c (drop_last (String.◌∷◌ d s))

abbrev pub runes : String → ℕ
runes String.[] = 0
runes (String.◌∷◌ c s) = suc (runes s)

abbrev pub failed_text : String
failed_text = "task execution failed"

-- `if message == "" { message = "task execution failed" }`, in front of the tests
unfoldable pub message_or_failed : List Piece → List Piece
message_or_failed ps = if no_pieces ps then whole failed_text else ps

-- The same behind the loop
unfoldable pub or_failed : String → String
or_failed s = if is_empty s then failed_text else s

module _ (max_bytes : ℕ) where
  -- The loop, which has one round for each rune at most.
  unfoldable pub cut_to : ℕ → String → String
  cut_to zero s = s
  cut_to (suc rounds) s =
      let rest = cut_to rounds (drop_last s) in
      if ltb max_bytes (byte_length (codes s)) then rest else s

  -- The loop, and what follows it
  unfoldable pub shortened : String → String
  shortened message = or_failed (trim (cut_to (runes message) message))

  -- `boundedError` from the length test on
  unfoldable pub bounded_message : List Piece → String
  bounded_message message = elim (valid_text message) [
    | some s ↦ if leb (byte_length (codes s)) max_bytes then s else shortened s
    | none ↦ shortened (to_valid_utf8 message)
  ]

  -- `boundedError`; `none` is a nil error
  unfoldable pub bounded_error : Option (List Piece) → String
  bounded_error none = bounded_message (message_or_failed (whole failed_text))
  bounded_error (some cause) = bounded_message (message_or_failed (trim_pieces cause))

bytes-trim_front : (s : String) → byte_length (codes (trim_front s)) ≤ byte_length (codes s)
unfolding trim_front byte_length
bytes-trim_front String.[] = omega arith
bytes-trim_front (String.◌∷◌ c s) = elim (Bool-cases (is_space (code c))) [
  | inl e ↦ rw e (omega (arith, bytes-trim_front s))
  | inr e ↦ rw e (omega arith)
]

bytes-trim_back : (s : String) → byte_length (codes (trim_back s)) ≤ byte_length (codes s)
unfolding trim_back byte_length
bytes-trim_back String.[] = omega arith
bytes-trim_back (String.◌∷◌ c s) = elim (Bool-cases (is_space (code c) && is_empty (trim_back s))) [
  | inl e ↦ rw e (omega arith)
  | inr e ↦ rw e (omega (arith, bytes-trim_back s))
]

runes-drop_last : (c : Char) (s : String) → runes (drop_last (String.◌∷◌ c s)) ≡ runes s
unfolding drop_last
runes-drop_last c String.[] = refl
runes-drop_last c (String.◌∷◌ d s) = ap suc (runes-drop_last d s)

module _ (max_bytes : ℕ) where
  -- As many rounds as there are runes are enough.
  cut_to-fits :
      (rounds : ℕ) (s : String)
      → runes s ≤ rounds
      → byte_length (codes (cut_to max_bytes rounds s)) ≤ max_bytes
  unfolding cut_to byte_length
  cut_to-fits zero String.[] h = omega arith
  cut_to-fits zero (String.◌∷◌ c s) h = absurd (omega arith)
  cut_to-fits (suc rounds) String.[] h =
      let e : ltb max_bytes 0 ≡ false = ground arith in rw (byte_length, e) (omega arith)
  cut_to-fits (suc rounds) (String.◌∷◌ c s) h =
      elim (Bool-cases (ltb max_bytes (byte_length (codes (String.◌∷◌ c s))))) [
        | inl e ↦
            rw e
              (cut_to-fits rounds (drop_last (String.◌∷◌ c s)) (omega (arith, runes-drop_last c s)))
        | inr e ↦ rw e (ground (arith, e))
      ]

  or_failed-fits :
      (s : String)
      → 21 ≤ max_bytes
      → byte_length (codes s) ≤ max_bytes
      → (is_empty (or_failed s) ≡ false) × (byte_length (codes (or_failed s)) ≤ max_bytes)
  unfolding or_failed byte_length
  or_failed-fits s h l = elim (Bool-cases (is_empty s)) [
    | inl e ↦ rw e (refl, omega arith)
    | inr e ↦ rw e (e, l)
  ]

  shortened-fits :
      (s : String)
      → 21 ≤ max_bytes
      → (is_empty (shortened max_bytes s) ≡ false)
        × (byte_length (codes (shortened max_bytes s)) ≤ max_bytes)
  unfolding shortened trim
  shortened-fits s h = or_failed-fits (trim (cut_to max_bytes (runes s) s)) h (
      omega (
        arith,
        cut_to-fits (runes s) s (omega arith),
        bytes-trim_front (cut_to max_bytes (runes s) s),
        bytes-trim_back (trim_front (cut_to max_bytes (runes s) s)),
      ))

  bounded_message-fits :
      (ps : List Piece)
      → 21 ≤ max_bytes
      → no_pieces ps ≡ false
      → (is_empty (bounded_message max_bytes ps) ≡ false)
        × (byte_length (codes (bounded_message max_bytes ps)) ≤ max_bytes)
  unfolding bounded_message
  bounded_message-fits ps h text = elim (Option-cases (valid_text ps)) [
    | inl broken ↦ rw (bounded_message, broken) (shortened-fits (to_valid_utf8 ps) h)
    | inr (s, e) ↦ elim (Bool-cases (leb (byte_length (codes s)) max_bytes)) [
      | inl short ↦ rw (bounded_message, e, short) (valid_text-some ps s text e, leb→le _ _ short)
      | inr long ↦ rw (bounded_message, e, long) (shortened-fits s h)
    ]
  ]

  message_or_failed_text : (ps : List Piece) → no_pieces (message_or_failed ps) ≡ false
  unfolding message_or_failed whole
  message_or_failed_text [] = refl
  message_or_failed_text (p ∷ ps) = refl

  -- The text of any error, its bytes UTF-8 or not, and of none, is not empty and fits the wire's bound,
  -- if that bound has room for the 21 bytes of the text that stands for an empty one.
  pub bounded_error-fits :
      (cause : Option (List Piece))
      → 21 ≤ max_bytes
      → (is_empty (bounded_error max_bytes cause) ≡ false)
        × (byte_length (codes (bounded_error max_bytes cause)) ≤ max_bytes)
  unfolding bounded_error
  bounded_error-fits none h =
      bounded_message-fits (message_or_failed (whole failed_text)) h
        (message_or_failed_text (whole failed_text))
  bounded_error-fits (some cause) h =
      bounded_message-fits (message_or_failed (trim_pieces cause)) h
        (message_or_failed_text (trim_pieces cause))
