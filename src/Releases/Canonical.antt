-- ===== src/Releases/Canonical.antt =====
-- releaseid.go: a text that is read as a version of three or four segments is that version's text.
use passwall_node.Prelude.{
  ℕ, suc, ◌≤◌, ◌<◌, ◌≡◌, refl, sym, ap, ◌∙◌, subst, true, false, not, ◌&&◌, List, [], ◌∷◌, ◌++◌,
  map, length, get_or, All, ltb, ◌==◌, ok, ◌>>=◌, ◌>>◌, refuse, >>=-eq-ok, arith, Bool-cases,
  Option-cases, inl, inr, ◌⊎◌, unknown_format,
}
use passwall_node.Releases.{
  Version, Tag, dash, dot, max_segment, no_bytes, holds, before, after, split, cut_prefix, decimal,
  string, parse_segment, valid_prerelease, parse_segments, parse_product_version, short_form,
  tag_prefix, historical_tag_prefix, tag_body, parse_release_tag,
}
use passwall_node.Releases.Decimal.{decimal-parse_segment}
use passwall_node.Releases.Cuts.{
  before_whole, after_whole, before-after, join, join-split, length-split, append-cut_prefix,
}
use passwall_node.Releases.RoundTrip.{
  triple, IsVersion, string_build, string_plain, string_stage, valid-no_bytes,
}

-- Segments that stand for numbers in range
abbrev Reads : List (List ℕ) → List ℕ → Type 0
Reads ps ns = (ps ≡ map decimal ns) × All (λ n. n ≤ max_segment) ns

Reads-cons :
    (p : List ℕ) (ps : List (List ℕ)) (n : ℕ) (ms ns : List ℕ)
    → (p ≡ decimal n) × (n ≤ max_segment)
    → Reads ps ms
    → ns ≡ n ∷ ms
    → Reads (p ∷ ps) ns
Reads-cons p ps n ms ns front back e =
    subst (Reads (p ∷ ps)) (sym e) (cc (front.0, back.0), (front.1, back.1))

-- Segments that were read are the decimal texts of their values, which are in range.
parse_segments-Reads : (ps : List (List ℕ)) (ns : List ℕ) → parse_segments ps ≡ ok ns → Reads ps ns
unfolding parse_segments
parse_segments-Reads [] ns h = (let e : ns ≡ [] = cc h in subst (Reads []) (sym e) (refl, tt))
parse_segments-Reads (p ∷ ps) ns h =
    let (n, at, rest) = >>=-eq-ok (parse_segment p) _ h in
    let (ms, at', done) = >>=-eq-ok (parse_segments ps) _ rest in
    Reads-cons p ps n ms ns (decimal-parse_segment p n at) (parse_segments-Reads ps ms at')
      (cc done)

-- What a successful parse has tested and read.
pub record Parse (s : List ℕ) (v : Version) (out : List ℕ) : Type 0 where
  pub read : parse_segments (split dot (before dash s)) ≡ ok out
  pub is_version : v ≡ record {
    major = get_or out 0 0;
    minor = get_or out 1 0;
    patch = get_or out 2 0;
    build = get_or out 3 0;
    prerelease = after dash s;
  }
  pub staged : holds dash s ≡ true → valid_prerelease (after dash s) ≡ true
  pub staged_three : holds dash s ≡ true → length (split dot (before dash s)) ≡ 3
  pub build_counts : length (split dot (before dash s)) ≡ 4 → (get_or out 3 0 == 0) ≡ false

Parse-inversion :
    (s : List ℕ) (v : Version) → parse_product_version s ≡ ok v → (out : List ℕ) × Parse s v out
unfolding parse_product_version
Parse-inversion s v h =
    let (u0, t0, h0) = >>=-eq-ok (refuse (no_bytes s) _) _ h in
    let (u1, t1, h1) =
      >>=-eq-ok (refuse (holds dash s && not (valid_prerelease (after dash s))) _) _ h0 in
    let (u2, t2, h2) =
      >>=-eq-ok (refuse (holds dash s && not (length (split dot (before dash s)) == 3)) _) _ h1 in
    let (u3, t3, h3) = >>=-eq-ok (refuse (ltb 4 (length (split dot (before dash s)))) _) _ h2 in
    let (out, read_it, h4) = >>=-eq-ok (parse_segments (split dot (before dash s))) _ h3 in
    let (u5, t5, h5) =
      >>=-eq-ok (refuse (length (split dot (before dash s)) == 4 && get_or out 3 0 == 0) _) _ h4 in
    (
      out,
      record {
        read = read_it;
        is_version = cc h5;
        staged = λ e. ground (arith, t1, e);
        staged_three = λ e. ground (arith, t2, e);
        build_counts = λ e. ground (arith, t5, e);
      },
    )

-- What a text of three or four segments is, with its segments.
segments :
    (s : List ℕ)
    → short_form s ≡ false
    → (length (split dot (before dash s)) ≡ 3) ⊎ (length (split dot (before dash s)) ≡ 4)
unfolding short_form
segments s h = ground (arith, h, length-split dot (before dash s))

-- The front of a text, from its segments
front_of :
    (s : List ℕ) (ns : List ℕ)
    → split dot (before dash s) ≡ map decimal ns
    → before dash s ≡ join dot (map decimal ns)
front_of s ns e = sym (join-split dot (before dash s)) ∙ ap (join dot) e

length-map-decimal : (ns : List ℕ) → length (map decimal ns) ≡ length ns
length-map-decimal [] = refl
length-map-decimal (n ∷ ns) = ap suc (length-map-decimal ns)

-- A version that was read from three or four segments can be published, and the text is its text.
abbrev pub Canonical : List ℕ → Version → Type 0
Canonical s v = IsVersion v × (string v ≡ s)

Canonical-three :
    (s : List ℕ) (a b c : ℕ)
    → All (λ n. n ≤ max_segment) (a ∷ b ∷ c ∷ [])
    → before dash s ≡ triple a b (decimal c)
    → (holds dash s ≡ true → valid_prerelease (after dash s) ≡ true)
    → Canonical s (record { major = a; minor = b; patch = c; build = 0; prerelease = after dash s })
Canonical-three s a b c small front staged = elim (Bool-cases (holds dash s)) [
  | inl e ↦ (
    record {
      major_le = small.0;
      minor_le = small.1.0;
      patch_le = small.1.1.0;
      build_le = omega arith;
      stage = inr (staged e, refl);
    },
    string_stage _ refl (valid-no_bytes (after dash s) (staged e))
        ∙ ap (λ t. t ++ (dash ∷ after dash s)) (sym front)
        ∙ sym (before-after dash s e),
  )
  | inr e ↦ (
    record {
      major_le = small.0;
      minor_le = small.1.0;
      patch_le = small.1.1.0;
      build_le = omega arith;
      stage = inl (after_whole dash s e);
    },
    string_plain _ refl (after_whole dash s e) ∙ sym front ∙ before_whole dash s e,
  )
]

Canonical-four :
    (s : List ℕ) (a b c d : ℕ)
    → All (λ n. n ≤ max_segment) (a ∷ b ∷ c ∷ d ∷ [])
    → before dash s ≡ triple a b (decimal c ++ (dot ∷ decimal d))
    → holds dash s ≡ false
    → 0 < d
    → Canonical s (record { major = a; minor = b; patch = c; build = d; prerelease = after dash s })
Canonical-four s a b c d small front e pos = (
  record {
    major_le = small.0;
    minor_le = small.1.0;
    patch_le = small.1.1.0;
    build_le = small.1.1.1.0;
    stage = inl (after_whole dash s e);
  },
  string_build _ pos ∙ sym front ∙ before_whole dash s e,
)

-- Three segments, or four
Canonical-segments :
    (s : List ℕ) (v : Version) (ns : List ℕ)
    → Parse s v ns
    → Reads (split dot (before dash s)) ns
    → (length ns ≡ 3) ⊎ (length ns ≡ 4)
    → Canonical s v
unfolding join
Canonical-segments s v (a ∷ b ∷ c ∷ []) h r l =
    subst (Canonical s) (sym h.is_version)
      (Canonical-three s a b c r.1 (front_of s (a ∷ b ∷ c ∷ []) r.0) h.staged)
Canonical-segments s v (a ∷ b ∷ c ∷ d ∷ []) h r l =
    let four : length (split dot (before dash s)) ≡ 4 = ap length r.0 in
    let clean : holds dash s ≡ false = elim (Bool-cases (holds dash s)) [
      | inl e ↦ absurd (omega (arith, h.staged_three e, four))
      | inr e ↦ e
    ] in
    subst (Canonical s) (sym h.is_version) (
      Canonical-four s a b c d r.1 (front_of s (a ∷ b ∷ c ∷ d ∷ []) r.0) clean
        (ground (arith, h.build_counts four)))
Canonical-segments s v [] h r (inl l) = absurd (omega (arith, l))
Canonical-segments s v [] h r (inr l) = absurd (omega (arith, l))
Canonical-segments s v (a ∷ []) h r (inl l) = absurd (omega (arith, l))
Canonical-segments s v (a ∷ []) h r (inr l) = absurd (omega (arith, l))
Canonical-segments s v (a ∷ b ∷ []) h r (inl l) = absurd (omega (arith, l))
Canonical-segments s v (a ∷ b ∷ []) h r (inr l) = absurd (omega (arith, l))
Canonical-segments s v (a ∷ b ∷ c ∷ d ∷ e ∷ ns) h r (inl l) = absurd (omega (arith, l))
Canonical-segments s v (a ∷ b ∷ c ∷ d ∷ e ∷ ns) h r (inr l) = absurd (omega (arith, l))

pub parse_product_version-Canonical :
    (s : List ℕ) (v : Version)
    → short_form s ≡ false
    → parse_product_version s ≡ ok v
    → Canonical s v
parse_product_version-Canonical s v long h =
    let (ns, p) = Parse-inversion s v h in
    let r = parse_segments-Reads (split dot (before dash s)) ns p.read in
    let same : length (split dot (before dash s)) ≡ length ns =
      ap length r.0 ∙ length-map-decimal ns in
    Canonical-segments s v ns p r (elim (segments s long) [
      | inl e ↦ inl (omega (arith, same, e))
      | inr e ↦ inr (omega (arith, same, e))
    ])

tag_of_body :
    (raw body : List ℕ) (t : Tag)
    → (refuse (short_form body) unknown_format
        >> (parse_product_version body >>= λ v.
            refuse (v.major == 0) unknown_format >> ok (record { raw = raw; product = v })))
      ≡ ok t
    → ((t.raw ≡ raw) × (0 < t.product.major)) × Canonical body t.product
tag_of_body raw body t h =
    let (u, long, h1) = >>=-eq-ok (refuse (short_form body) unknown_format) _ h in
    let (v, at, h2) = >>=-eq-ok (parse_product_version body) _ h1 in
    let (w, nonzero, h3) = >>=-eq-ok (refuse (v.major == 0) unknown_format) _ h2 in
    let it : t ≡ record { raw = raw; product = v } = cc h3 in
    rw it (
      (refl, ground (arith, nonzero)),
      parse_product_version-Canonical body v (ground (arith, long)) at,
    )

-- A tag that is read is one of the two prefixes and the text of the version that it names, which can
-- be published and whose major number is not zero; the tag is kept as it is.
pub parse_release_tag-Canonical :
    (raw : List ℕ) (t : Tag)
    → parse_release_tag raw ≡ ok t
    → (t.raw ≡ raw)
      × IsVersion t.product
      × (0 < t.product.major)
      × ((raw ≡ tag_prefix ++ string t.product) ⊎ (raw ≡ historical_tag_prefix ++ string t.product))
unfolding parse_release_tag tag_body cut_prefix
parse_release_tag-Canonical raw t h = elim (Option-cases (cut_prefix tag_prefix raw)) [
  | inl e ↦ elim (Option-cases (cut_prefix historical_tag_prefix raw)) [
    | inl e2 ↦ cc ((rw (e, e2) at h))
    | inr (body, e2) ↦
        (let (facts, c) = tag_of_body raw body t ((rw (e, e2) at h)) in
          (facts.0, c.0, facts.1, inr (rw c.1 (append-cut_prefix historical_tag_prefix raw e2))))
  ]
  | inr (body, e) ↦
      (let (facts, c) = tag_of_body raw body t ((rw (e) at h)) in
        (facts.0, c.0, facts.1, inl (rw c.1 (append-cut_prefix tag_prefix raw e))))
]
