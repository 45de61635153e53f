-- ===== src/Clients/Table.antt =====
-- The table `client_runtime`: what a read by key finds, and what it finds after an UPDATE by key.
use passwall_node.Prelude.{
  subst, String, ◌≡◌, refl, false, some, List, [], ◌∷◌, str_eq, str_eq→eq, str_eq_refl, All, arith,
  Bool-cases, inl, inr, ◌∙◌, sym,
}
use passwall_node.Clients.Rows.{ClientRuntime, find_client, put_client}

pub find_client-key :
    (key : String) (rows : List ClientRuntime) (c : ClientRuntime)
    → find_client key rows ≡ some c
    → c.key ≡ key
unfolding find_client
find_client-key key [] c h = ground (arith, h)
find_client-key key (d ∷ rows) c h = elim (Bool-cases (str_eq d.key key)) [
  | inl e ↦ ground (arith, h, str_eq→eq d.key key e)
  | inr e ↦ find_client-key key rows c (rw e at h)
]

module _ {ℓ} (P : ClientRuntime → Type ℓ) where
  pub find_client-All :
      (key : String) (rows : List ClientRuntime) {c : ClientRuntime}
      → All P rows
      → find_client key rows ≡ some c
      → P c
  unfolding find_client
  find_client-All key [] hs h = ground (arith, h)
  find_client-All key (d ∷ rows) hs h = elim (Bool-cases (str_eq d.key key)) [
    | inl e ↦ subst P (ground (arith, h)) hs.0
    | inr e ↦ find_client-All key rows hs.1 (rw e at h)
  ]

  pub put_client-All :
      (new : ClientRuntime) (rows : List ClientRuntime)
      → P new
      → All P rows
      → All P (put_client new rows)
  unfolding put_client
  put_client-All new [] p hs = tt
  put_client-All new (c ∷ rows) p hs = elim (Bool-cases (str_eq c.key new.key)) [
    | inl e ↦ rw e (p, put_client-All new rows p hs.1)
    | inr e ↦ rw e (hs.0, put_client-All new rows p hs.1)
  ]

pub find_client-put_client :
    (new : ClientRuntime) (rows : List ClientRuntime) {c : ClientRuntime}
    → find_client new.key rows ≡ some c
    → find_client new.key (put_client new rows) ≡ some new
unfolding find_client put_client
find_client-put_client new [] h = ground (arith, h)
find_client-put_client new (d ∷ rows) h = elim (Bool-cases (str_eq d.key new.key)) [
  | inl e ↦ rw e (rw (str_eq_refl new.key) refl)
  | inr e ↦ rw e (rw e (find_client-put_client new rows (rw e at h)))
]

pub find_client-put_client_other :
    (key : String) (new : ClientRuntime) (rows : List ClientRuntime)
    → str_eq new.key key ≡ false
    → find_client key (put_client new rows) ≡ find_client key rows
unfolding find_client put_client
find_client-put_client_other key new [] h = refl
find_client-put_client_other key new (d ∷ rows) h = elim (Bool-cases (str_eq d.key new.key)) [
  | inl e ↦
      (let same = str_eq→eq d.key new.key e in
        rw (e, h) (rw (same, h) (find_client-put_client_other key new rows h)))
  | inr e ↦ elim (Bool-cases (str_eq d.key key)) [
    | inl f ↦ rw (e, f) refl
    | inr f ↦ rw (e, f) (find_client-put_client_other key new rows h)
  ]
]

pub find_client-put_client_key :
    (key : String) (c new : ClientRuntime) (rows : List ClientRuntime)
    → find_client key rows ≡ some c
    → new.key ≡ c.key
    → find_client key (put_client new rows) ≡ some new
find_client-put_client_key key c new rows f k =
    let same = k ∙ find_client-key key rows c f in
    subst (λ x. find_client x (put_client new rows) ≡ some new) same
      (find_client-put_client new rows (subst (λ x. find_client x rows ≡ some c) (sym same) f))
