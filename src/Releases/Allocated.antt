-- ===== src/Releases/Allocated.antt =====
-- allocate.go: an allocated number is above every number on its line.
use passwall_node.Prelude.{
  ℕ, ◌+◌, ◌<◌, ◌≡◌, refl, sym, subst, false, Option, none, some, List, [], ◌∷◌, All, ltb, ok, err,
  >>=-eq-ok, arith, Bool-cases, Result-cases, inl, inr, ◌⊎◌, unknown_format,
}
use passwall_node.Releases.{
  Version, Tag, Sign, below, same, above, max_segment, parse_release_tag, compare_product_version,
}
use passwall_node.Releases.Allocate.{
  Line, off_line, version_on_line, higher, count_tag, highest_on_line, next_build, allocate_patch,
}
use passwall_node.Releases.RoundTrip.{IsVersion}
use passwall_node.Releases.Canonical.{parse_release_tag-Canonical}
use passwall_node.Releases.Order.{compare_product_version_order}

Sign-cases : (s : Sign) → (s ≡ below) ⊎ (s ≡ same) ⊎ (s ≡ above)
Sign-cases below = inl refl
Sign-cases same = inr (inl refl)
Sign-cases above = inr (inr refl)

module _ (line : Line) where
  -- A published version on the line
  pub record OnLine (v : Version) : Type 0 where
    pub is_version : IsVersion v
    pub major_at : v.major ≡ line.major
    pub minor_at : v.minor ≡ line.minor
    pub major_pos : 0 < v.major

  -- A version is not above another one.
  abbrev AtMost : Version → Version → Type 0
  AtMost v h = (v ≡ h) ⊎ (compare_product_version h v ≡ above)

  -- The same of the highest version so far, if there is one
  abbrev HighestOnLine : Option Version → Type 0
  HighestOnLine none = Unit
  HighestOnLine (some h) = OnLine h

  abbrev AtMostHighest : Option Version → Option Version → Type 0
  AtMostHighest none o = Unit
  AtMostHighest (some v) none = ⊥
  AtMostHighest (some v) (some h) = AtMost v h

  -- The version that a tag names on the line is counted.
  abbrev Counted : Option Version → List ℕ → Type 0
  Counted o raw =
      (t : Tag)
      → parse_release_tag raw ≡ ok t
      → off_line t line ≡ false
      → AtMostHighest (some t.product) o

  tag-OnLine :
      (raw : List ℕ) (t : Tag)
      → parse_release_tag raw ≡ ok t
      → off_line t line ≡ false
      → OnLine t.product
  unfolding off_line
  tag-OnLine raw t h on =
      let c = parse_release_tag-Canonical raw t h in
      record {
        is_version = c.1;
        major_at = ground (arith, on);
        minor_at = ground (arith, on);
        major_pos = c.2;
      }

  AtMost-trans :
      (u v w : Version) → OnLine u → OnLine v → OnLine w → AtMost u v → AtMost v w → AtMost u w
  AtMost-trans u v w a b c (inl e) q = rw e q
  AtMost-trans u v w a b c (inr p) (inl e) = inr (rw (← e) p)
  AtMost-trans u v w a b c (inr p) (inr q) =
      inr ((compare_product_version_order w v u c.is_version b.is_version a.is_version).2 q p)

  AtMostHighest-trans :
      (o p q : Option Version)
      → HighestOnLine o
      → HighestOnLine p
      → HighestOnLine q
      → AtMostHighest o p
      → AtMostHighest p q
      → AtMostHighest o q
  AtMostHighest-trans none p q a b c x y = tt
  AtMostHighest-trans (some u) none q a b c x y = absurd x
  AtMostHighest-trans (some u) (some v) none a b c x y = absurd y
  AtMostHighest-trans (some u) (some v) (some w) a b c x y = AtMost-trans u v w a b c x y

  AtMostHighest-refl : (o : Option Version) → AtMostHighest o o
  AtMostHighest-refl none = tt
  AtMostHighest-refl (some v) = inl refl

  -- What the higher of two versions is
  abbrev Kept : Version → Option Version → Option Version → Type 0
  Kept v o x = HighestOnLine x × AtMostHighest (some v) x × AtMostHighest o x

  higher-Kept :
      (v : Version) (o : Option Version) → OnLine v → HighestOnLine o → Kept v o (higher v o)
  unfolding higher
  higher-Kept v none a b = (a, inl refl, tt)
  higher-Kept v (some h) a b = elim (Sign-cases (compare_product_version v h)) [
    | inl low ↦ rw low (
      b,
      inr ((compare_product_version_order h v v b.is_version a.is_version a.is_version).1.1 low),
      inl refl,
    )
    | inr (inl even) ↦ rw even (
      b,
      inl ((compare_product_version_order v h h a.is_version b.is_version b.is_version).0.0 even),
      inl refl,
    )
    | inr (inr high) ↦ rw high (a, inl refl, inr high)
  ]

  -- One tag
  count_tag-lem :
      (raw : List ℕ) (o x : Option Version)
      → HighestOnLine o
      → count_tag line raw o ≡ ok x
      → HighestOnLine x × AtMostHighest o x × Counted x raw
  unfolding count_tag version_on_line
  count_tag-lem raw o x h e = elim (Result-cases (parse_release_tag raw)) [
    | inr (why, bad) ↦
        (let it : x ≡ o = cc ((rw (count_tag, bad) at e)) in
          rw it (h, AtMostHighest-refl o, λ t good on. absurd (cc (good, bad))))
    | inl (tag, read) ↦ elim (Bool-cases (off_line tag line)) [
      | inl off ↦
          (let it : x ≡ o = cc ((rw (count_tag, read, off) at e)) in
            rw it (h, AtMostHighest-refl o, λ t good on. absurd (cc (good, read, on, off))))
      | inr on ↦
          (let it : x ≡ higher tag.product o = cc ((rw (count_tag, read, on) at e)) in
            let k = higher-Kept tag.product o (tag-OnLine raw tag read on) h in
            rw it (
              k.0,
              k.2,
              λ t good on'.
                  (let same_tag : t ≡ tag = cc (good, read) in
                    subst (λ (u : Tag). AtMostHighest (some u.product) (higher tag.product o))
                      (sym same_tag) k.1),
            ))
    ]
  ]

  Counted-trans :
      (raw : List ℕ) (p q : Option Version)
      → HighestOnLine p
      → HighestOnLine q
      → AtMostHighest p q
      → Counted p raw
      → Counted q raw
  Counted-trans raw p q a b le c t read on =
      AtMostHighest-trans (some t.product) p q (tag-OnLine raw t read on) a b (c t read on) le

  highest_on_line-lem :
      (raws : List (List ℕ)) (o x : Option Version)
      → HighestOnLine o
      → highest_on_line line raws o ≡ ok x
      → HighestOnLine x × AtMostHighest o x × All (Counted x) raws
  unfolding highest_on_line
  highest_on_line-lem [] o x h e = (let it : x ≡ o = cc e in rw it (h, AtMostHighest-refl o, tt))
  highest_on_line-lem (raw ∷ raws) o x h e =
      let (p, at, rest) = >>=-eq-ok (count_tag line raw o) _ e in
      let (hp, le, c) = count_tag-lem raw o p h at in
      let (hx, le', cs) = highest_on_line-lem raws p x hp rest in
      (hx, AtMostHighest-trans o p x h hp hx le le', (Counted-trans raw p x hp hx le' c, cs))

  next_build-above :
      (h v : Version)
      → OnLine h
      → next_build h ≡ ok v
      → OnLine v × (compare_product_version v h ≡ above) × (v.build ≡ h.build + 1)
  unfolding next_build compare_product_version
  next_build-above h v a e = elim (Bool-cases (ltb max_segment (h.build + 1))) [
    | inl big ↦ cc ((rw big at e))
    | inr fits ↦
        (let it : v ≡ record h { build = h.build + 1; prerelease = [] } = cc ((rw fits at e)) in
          rw it (
            record {
              is_version = record {
                major_le = a.is_version.major_le;
                minor_le = a.is_version.minor_le;
                patch_le = a.is_version.patch_le;
                build_le = ground (arith, fits);
                stage = inl refl;
              };
              major_at = a.major_at;
              minor_at = a.minor_at;
              major_pos = a.major_pos;
            },
            ground arith,
            refl,
          ))
  ]

  above-All :
      (existing : List (List ℕ)) (v h : Version)
      → OnLine v
      → OnLine h
      → compare_product_version v h ≡ above
      → All (Counted (some h)) existing
      → All
          (λ raw.
            (t : Tag)
            → parse_release_tag raw ≡ ok t
            → off_line t line ≡ false
            → compare_product_version v t.product ≡ above)
          existing
  above-All [] v h a b up c = tt
  above-All (raw ∷ existing) v h a b up c = (
    λ t read on. elim (c.0 t read on) [
      | inl e ↦ rw e up
      | inr high ↦
          (compare_product_version_order v h t.product a.is_version b.is_version
              (tag-OnLine raw t read on).is_version).2
            up high
    ],
    above-All existing v h a b up c.1,
  )

  from_highest :
      (existing : List (List ℕ)) (v : Version) (x : Option Version)
      → HighestOnLine x
      → All (Counted x) existing
      → (elim x [ none ↦ err unknown_format | some h ↦ next_build h ]) ≡ ok v
      → OnLine v
        × All
            (λ raw.
              (t : Tag)
              → parse_release_tag raw ≡ ok t
              → off_line t line ≡ false
              → compare_product_version v t.product ≡ above)
            existing
  from_highest existing v none h c e = cc e
  from_highest existing v (some top) h c e =
      let n = next_build-above top v h e in (n.0, above-All existing v top n.0 h n.1 c)

  -- An allocated version can be published on the line that was asked for, and it is above each version
  -- on that line that an existing tag names.
  pub allocate_patch-above :
      (existing : List (List ℕ)) (v : Version)
      → allocate_patch line existing ≡ ok v
      → OnLine v
        × All
            (λ raw.
              (t : Tag)
              → parse_release_tag raw ≡ ok t
              → off_line t line ≡ false
              → compare_product_version v t.product ≡ above)
            existing
  unfolding allocate_patch
  allocate_patch-above existing v e =
      let (x, at, rest) = >>=-eq-ok (highest_on_line line existing none) _ e in
      let (hx, le, cs) = highest_on_line-lem existing none x tt at in
      from_highest existing v x hx cs rest
