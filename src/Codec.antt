-- ===== src/Codec.antt =====
-- internal/state/sqlite/version.go: a `uint64` as the eight bytes of a BLOB.
use passwall_node.Prelude.{
  ℕ, ◌+◌, ◌*◌, ◌/◌, ◌%◌, ◌^◌, ◌<◌, ◌≡◌, ◌↔◌, sym, ap, ◌∙◌, List, [], ◌∷◌, All, plain, Version,
  Result, ok, err, ◌>>=◌, arith,
}

-- `encodeUint64`: the most significant byte first
unfoldable pub encode_uint64 : ℕ → List ℕ
encode_uint64 v =
    (v / 2 ^ 56 % 256)
    ∷ (v / 2 ^ 48 % 256)
    ∷ (v / 2 ^ 40 % 256)
    ∷ (v / 2 ^ 32 % 256)
    ∷ (v / 2 ^ 24 % 256)
    ∷ (v / 2 ^ 16 % 256)
    ∷ (v / 2 ^ 8 % 256)
    ∷ (v % 256)
    ∷ []

-- `decodeUint64`
unfoldable pub decode_uint64 : List ℕ → Result ℕ
decode_uint64 (a ∷ b ∷ c ∷ d ∷ e ∷ f ∷ g ∷ h ∷ []) =
    ok (a * 2 ^ 56 + b * 2 ^ 48 + c * 2 ^ 40 + d * 2 ^ 32 + e * 2 ^ 24 + f * 2 ^ 16 + g * 2 ^ 8 + h)
decode_uint64 _ = err plain

-- `decodeVersion`
unfoldable pub decode_version : List ℕ → List ℕ → Result Version
decode_version epoch version = do
  e ← decode_uint64 epoch
  v ← decode_uint64 version
  ok (record { epoch = e; version = v })

decode_uint64-encode_uint64 : (v : ℕ) → v < 2 ^ 64 → decode_uint64 (encode_uint64 v) ≡ ok v
unfolding encode_uint64 decode_uint64
decode_uint64-encode_uint64 v h = ap ok (omega arith)

-- A version of two `uint64` is read back as it was written.
pub decode_version-encode_uint64 :
    (v : Version)
    → v.epoch < 2 ^ 64
    → v.version < 2 ^ 64
    → decode_version (encode_uint64 v.epoch) (encode_uint64 v.version) ≡ ok v
unfolding decode_version
decode_version-encode_uint64 v a b =
    rw (decode_uint64-encode_uint64 v.epoch a, decode_uint64-encode_uint64 v.version b)

-- What decodes is the encoding of what it decodes to, which is a `uint64`.
pub encode_uint64-decode_uint64 :
    (bs : List ℕ) (v : ℕ)
    → All (λ b. b < 256) bs
    → decode_uint64 bs ≡ ok v
    → (encode_uint64 v ≡ bs) × (v < 2 ^ 64)
unfolding encode_uint64 decode_uint64
encode_uint64-decode_uint64 ([]) v bytes done = cc done
encode_uint64-decode_uint64 (a ∷ []) v bytes done = cc done
encode_uint64-decode_uint64 (a ∷ b ∷ []) v bytes done = cc done
encode_uint64-decode_uint64 (a ∷ b ∷ c ∷ []) v bytes done = cc done
encode_uint64-decode_uint64 (a ∷ b ∷ c ∷ d ∷ []) v bytes done = cc done
encode_uint64-decode_uint64 (a ∷ b ∷ c ∷ d ∷ e ∷ []) v bytes done = cc done
encode_uint64-decode_uint64 (a ∷ b ∷ c ∷ d ∷ e ∷ f ∷ []) v bytes done = cc done
encode_uint64-decode_uint64 (a ∷ b ∷ c ∷ d ∷ e ∷ f ∷ g ∷ []) v bytes done = cc done
encode_uint64-decode_uint64 (a ∷ b ∷ c ∷ d ∷ e ∷ f ∷ g ∷ h ∷ []) v bytes done = ground arith
encode_uint64-decode_uint64 (a ∷ b ∷ c ∷ d ∷ e ∷ f ∷ g ∷ h ∷ x ∷ xs) v bytes done = cc done

-- Bytes decode to a `uint64` exactly when they are the eight bytes that it is written as.
pub decode_uint64_iff :
    (bs : List ℕ) (v : ℕ)
    → All (λ b. b < 256) bs
    → v < 2 ^ 64
    → (decode_uint64 bs ≡ ok v) ↔ (bs ≡ encode_uint64 v)
decode_uint64_iff bs v bytes small = (
  λ done. sym (encode_uint64-decode_uint64 bs v bytes done).0,
  λ e. ap decode_uint64 e ∙ decode_uint64-encode_uint64 v small,
)
